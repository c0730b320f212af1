-- ===== src/Flatten/Idle.antt =====
-- Vsync and FlattenActiveComposition: when a frame is flattened, and in which way.
use drm_hwcomposer.Base.{
  ℕ, Bool, not, Option, none, some, ℤ, pos, einval, if◌then◌else◌, ◌==ℤ◌, ◌-ℤ◌,
}
use drm_hwcomposer.Connector.{Connector}
use drm_hwcomposer.Kernel.{Kernel}
use drm_hwcomposer.Compositor.State.{Compositor, countdown_expired}
use drm_hwcomposer.Flatten.State.{Flattener, Setting}
use drm_hwcomposer.Flatten.Serial.{flatten_serial}
use drm_hwcomposer.Flatten.Concurrent.{Target, flatten_concurrent}

-- What the resource manager gives a display: its setting, the writeback connector that it finds for
-- it (AvailableWritebackConnector), and what belongs to that connector's display.
pub record Surroundings (K : Type 0) : Type 0 where
  pub display : ℤ
  pub setting : Setting K
  pub writeback_conn : Option Connector
  pub target : Target K
  pub index : ℕ

-- `flatten_countdown_--`, and whether it has expired.
unfoldable pub count_down : {K : Type 0} → Compositor K → Bool × Compositor K
unfolding countdown_expired
count_down s =
    let s1 = record s { flatten_countdown = s.flatten_countdown -ℤ pos 1 } in
    (countdown_expired s1, s1)

module _ {K : Type 0} (kernel wb_kernel : Kernel K) where
  unfoldable pub flatten_active_composition :
      Surroundings K → Flattener K → Option (ℤ × Flattener K)
  unfolding flatten_serial flatten_concurrent
  flatten_active_composition w f = elim f.compositor.active_composition [
    | none ↦ some (einval, f)
    | some active ↦ elim w.writeback_conn [
      | none ↦ some (einval, f)
      | some conn ↦
          if not (conn.display ==ℤ w.display)
          then flatten_concurrent kernel wb_kernel w.setting w.target w.index conn f
          else flatten_serial kernel w.setting conn f
    ]
  ]

  -- Vsync. Its result is dropped by the caller; here it is `none` where nothing is attempted.
  unfoldable pub vsync : Surroundings K → Flattener K → Option (Option ℤ × Flattener K)
  vsync w f =
      let counted = count_down f.compositor in
      let f1 = record f { compositor = counted.1 } in
      if not counted.0 then some (none, f1) else elim (flatten_active_composition w f1) [
        | none ↦ none
        | some (ret, f2) ↦ some (some ret, f2)
      ]
