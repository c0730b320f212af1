-- ===== src/Manager.antt =====
-- resourcemanager.h and resourcemanager.cpp: the devices and the displays that they handle.
use drm_hwcomposer.Base.{
  ℕ, ◌+◌, Bool, true, false, Option, none, some, List, [], ◌∷◌, ◌++◌, ℤ, pos, enodev, einval,
  if◌then◌else◌, ◌==◌, is_set,
}
use drm_hwcomposer.Connector.{Connector}
use drm_hwcomposer.Layer.{Importer}
use drm_hwcomposer.Device.State.{Device, handles_display}
use drm_hwcomposer.Device.Pipe.{available_writeback_connector}
use drm_hwcomposer.Device.Objects.{Raw}
use drm_hwcomposer.Device.Init.{init}

-- Each device stands beside its importer: the code keeps two vectors of one length.
pub record Manager : Type 0 where
  pub num_displays : ℕ
  pub drms : List (Device × Importer)

abbrev pub no_devices : Manager
no_devices = record { num_displays = 0; drms = [] }

-- What the system gives for one path: the reports of the device, and its importer unless
-- Importer::CreateInstance returns NULL.
pub record Probe : Type 0 where
  pub raw : Raw
  pub importer : Option Importer

-- AddDrmDevice; `none` is a read through a null pointer.
unfoldable pub add_drm_device : Probe → Manager → Option (ℤ × Manager)
add_drm_device probe m = elim (init probe.raw m.num_displays) [
  | none ↦ none
  | some (ret, displays_added, drm) ↦ if is_set ret then some (ret, m) else elim probe.importer [
    | none ↦ some (enodev, m)
    | some importer ↦ some (
      pos 0,
      record {
        num_displays = m.num_displays + displays_added;
        drms = m.drms ++ (drm, importer) ∷ [];
      },
    )
  ]
]

-- The loop over `path0`, `path1`, …, until a device fails. The list holds the devices that are
-- there; the path behind the last cannot be opened, which is -ENODEV.
unfoldable pub add_all : List Probe → Manager → Option (ℤ × Manager)
unfolding add_drm_device
add_all [] m = some (enodev, m)
add_all (p ∷ ps) m = elim (add_drm_device p m) [
  | none ↦ none
  | some (ret, m') ↦ elim (is_set ret) [ true ↦ some (ret, m') | false ↦ add_all ps m' ]
]

-- The value of the property hwc.drm.device: one device, or a pattern with the wildcard.
pub data DevicePath : Type 0 where
  single : Probe → DevicePath
  pattern_of : List Probe → DevicePath

probe_path : DevicePath → Manager → Option (ℤ × Manager)
unfolding add_all add_drm_device
probe_path (single p) m = add_drm_device p m
probe_path (pattern_of ps) m = add_all ps m

-- ResourceManager::Init; `gralloc` is what hw_get_module returns.
unfoldable pub init_manager : DevicePath → ℤ → Option (ℤ × Manager)
unfolding probe_path
init_manager path gralloc = elim (probe_path path no_devices) [
  | none ↦ none
  | some (ret, m) ↦
      if m.num_displays == 0
      then some (if is_set ret then einval else ret, m)
      else some (gralloc, m)
]

unfoldable pub get_drm_device : List (Device × Importer) → ℤ → Option Device
get_drm_device [] display = none
get_drm_device ((d, i) ∷ ds) display =
    let rest = get_drm_device ds display in if handles_display d display then some d else rest

unfoldable pub get_importer : List (Device × Importer) → ℤ → Option Importer
get_importer [] display = none
get_importer ((d, i) ∷ ds) display =
    let rest = get_importer ds display in if handles_display d display then some i else rest

-- The loop of AvailableWritebackConnector over the devices but the display's own.
other_writeback : List (Device × Importer) → ℤ → Bool → Option (Option Connector)
other_writeback [] display seen = some none
other_writeback ((d, i) ∷ ds) display seen =
    let own = if seen then false else handles_display d display in
    let rest = other_writeback ds display (if own then true else seen) in
    if own then rest else elim (available_writeback_connector d display) [
      | none ↦ none
      | some none ↦ rest
      | some (some c) ↦ some (some c)
    ]

unfoldable pub available_writeback : List (Device × Importer) → ℤ → Option (Option Connector)
unfolding other_writeback get_drm_device
available_writeback drms display =
    let others = other_writeback drms display false in
    elim (get_drm_device drms display) [
      | none ↦ others
      | some d ↦ elim (available_writeback_connector d display) [
        | none ↦ none
        | some none ↦ others
        | some (some c) ↦ some (some c)
      ]
    ]
