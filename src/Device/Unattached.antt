-- ===== src/Device/Unattached.antt =====
-- A connector that has no encoder when a writeback connector is looked for (drmdevice.cpp).
use drm_hwcomposer.Base.{ℕ, ◌≡◌, Option, none, List, [], ◌∷◌, pos, arith, All, eagain}
use drm_hwcomposer.Connector.{Connector, RawConnector, disconnected}
use drm_hwcomposer.Device.State.{Device}
use drm_hwcomposer.Device.Pipe.{
  try_encoder, try_encoders, create_display_pipe, display_crtc_of, attach_writeback,
}

try_encoders-none :
    (conn : Connector) (encs : List ℕ) (d : Device)
    → conn.state ≡ disconnected
    → All (λ enc. try_encoder conn.display enc d ≡ (eagain, d)) encs
    → try_encoders conn encs d ≡ (pos 0, d)
unfolding try_encoders
try_encoders-none conn [] d s h = ground arith
try_encoders-none conn (enc ∷ rest) d s h =
    rw (h.0, try_encoders) (try_encoders-none conn rest d s h.1)

-- For a disconnected connector without a current encoder, none of whose possible encoders has a
-- CRTC to spare, CreateDisplayPipe returns success and leaves it without an encoder, and
-- AttachWriteback, which DrmDevice::Init calls next, reads through the null encoder.
pub attach_writeback-unattached :
    (query : ℕ → Option RawConnector) (conn : Connector) (d : Device)
    → conn.encoder ≡ none
    → conn.state ≡ disconnected
    → All (λ enc. try_encoder conn.display enc d ≡ (eagain, d)) conn.possible_encoders
    → (create_display_pipe conn d ≡ (pos 0, d)) × (attach_writeback query conn d ≡ none)
unfolding create_display_pipe attach_writeback display_crtc_of
attach_writeback-unattached query conn d e s h = (
  rw (e, create_display_pipe) (try_encoders-none conn conn.possible_encoders d s h),
  rw (e, attach_writeback, display_crtc_of),
)
