-- ===== src/Lib.antt =====
-- The compositor of Android's display pipeline over the kernel's DRM interface (the HWC2 module
-- drm_hwcomposer), as functions on explicit states.
--
-- The program. SurfaceFlinger calls the hooks of a display (drmhwctwo.cpp). It sets up layers, asks
-- by ValidateDisplay which of them the hardware can show, and lets PresentDisplay bring the frame to
-- the screen. Both build a composition (drmdisplaycomposition.cpp): the layers in z-order, for which
-- the planner (platform.cpp) provisions the planes of a CRTC, the planes that are left being
-- disabled. The compositor (drmdisplaycompositor.cpp) translates a composition to one atomic request
-- of the kernel, tests or commits it, and keeps the mode that is set. Beside it stand the DRM device
-- with its connectors, encoders, CRTCs and planes (drmdevice.cpp and the files of its objects), the
-- resource manager that opens the devices, the worker that reports vertical blanks, and the listener
-- for hotplug messages.
--
-- The files, in the order of their use:
--   Base, Base/*         lists, tests, signed integers and error numbers that the others share
--   Property             drmproperty.cpp, and DrmDevice::GetProperty
--   Resources            drmplane.cpp, drmcrtc.cpp
--   Mode, Mode/Convert   drmmode.cpp
--   Connector            drmconnector.cpp; Connector/Modes on UpdateModes
--   Layer                drmhwcomposer.h, hwcutils.cpp
--   Buffer, Buffer/Slots, Buffer/Ownership
--                        DrmHwcBuffer and DrmHwcNativeHandle in drmhwcomposer.h and hwcutils.cpp
--   Planner              platform.h, platform.cpp; Planner/Stages and Placed on its stages
--   Composition          drmdisplaycomposition.cpp, with its Dump in Composition/Dump; Composition/Accounting,
--                        Exhaustive, Whole, Typing and Printed
--   Kernel, Commit       the loop over the planes in CommitFrame; Commit/Duty, Complete,
--                        Fits and Planned on its request
--   Compositor/Start, State, Frame, Apply, Report
--                        the rest of drmdisplaycompositor.cpp; Compositor/Accepted, Testing, Lost
--                        and Stale
--   Display/Layer, State, Zmap, Compose, Validate, Query, Switch, Init
--                        drmhwctwo.cpp; Display/Counts, Fit, Changes, Order, Entries, Client, Handles, Kept, Calls,
--                        Fences, Present, Taken, Configs, Owners, Pools, Shown
--                        and Whole
--   Device/State, Pipe, Objects, Init
--                        drmdevice.cpp, drmencoder.cpp; Device/Binding, Unattached and Primary
--   Manager              resourcemanager.cpp
--   Vsync, Vsync/Phase   vsyncworker.cpp
--   Guards, Guards/Ownership
--                        autofd.h, autolock.cpp
--   Uevent, Uevent/Message, Listener, Watching
--                        drmeventlistener.cpp
--   Importer, Importer/Handles, Importer/Create
--                        platformdrmgeneric.cpp, platformhisi.cpp, platformminigbm.cpp
--   Worker, Worker/Invariant, Measure, Exit
--                        worker.cpp, with the locking of the routine in vsyncworker.cpp
--   Framebuffer, Framebuffer/Reuse
--                        drmframebuffer.h
--   Flatten/State, Serial, OnDisplay, Concurrent, Idle
--                        the flattening of idle frames in drmdisplaycompositor.cpp; Flatten/Planes,
--                        Newer and Countdown
--   Hwc/Function, Calls, State, Start, Root
--                        the device, its table of functions and its hooks in drmhwctwo.h and
--                        drmhwctwo.cpp; Hwc/Sequence on what calls keep, with its
--                        uses in Fences, Opened, Kept, Handles, Fitted and Whole; Hwc/Table
--                        and Missing
--   Examples/*           the theorems at concrete inputs
--
-- The state. A class is a record of its fields, and a method that changes them is a function from the
-- record to its result and the record; a function named after a method has the method's name in
-- lower case. A pointer to an object of the device is the object's id, a read through a null pointer
-- is `none`. What the code calls and the repository does not hold is a parameter: the kernel and
-- libdrm are the record Kernel over a state of its own, the buffer importer and the calls on fences
-- the record Platform, and what libdrm reports of a device the record Raw.
--
-- Bounds. Unsigned counters keep their wrap-around at 2^32, sizes at 2^64. The signed numbers are
-- taken to be in range. The sizes of a mode are cut to 16 bits where the kernel's description of it
-- has __u16 fields, and its name, a list of bytes, to 32 characters. Floats (alpha, source crops) are fixed-point numbers. All loops are over
-- lists, so that no fuel is needed.
--
-- Threads. The worker thread, the call of Exit and any number of callers of VSyncControl are a step
-- relation, in which each step takes the lock or does what is done while it is held. A wait that times
-- out or ends for no reason is a step apart, which is never counted on. The other
-- operations run on their own; where flattening lets go of the compositor's lock, its two parts are
-- functions of their own, between which others may run.
--
-- Not modelled. The getters and setters of single fields, and the log messages. The lines that the
-- hooks' dumpsys prints are modelled for a composition (Composition/Dump) and for the compositor's
-- counters (Compositor/Report). The layout of the allocators' handles is the importers' parameter.
pub mod Base
pub mod Property
pub mod Resources
pub mod Mode
pub mod Connector
pub mod Layer
pub mod Planner
pub mod Composition
pub mod Kernel
pub mod Commit
pub mod Compositor
pub mod Display
pub mod Device
pub mod Manager
pub mod Vsync
pub mod Guards
pub mod Uevent
pub mod Importer
pub mod Worker
pub mod Framebuffer
pub mod Flatten
pub mod Hwc
pub mod Buffer
pub mod Examples
