-- ===== src/Display/Configs.antt =====
-- GetDisplayConfigs and GetDisplayName, as SurfaceFlinger calls them.
use drm_hwcomposer.Base.{
  ℕ, zero, suc, ◌+◌, ◌-◌, ◌<◌, ◌^◌, ◌%◌, ◌≡◌, refl, List, [], ◌∷◌, arith, length, take, min, map,
}
use drm_hwcomposer.Mode.{Mode}
use drm_hwcomposer.Connector.{Connector}
use drm_hwcomposer.Display.Layer.{no_error}
use drm_hwcomposer.Display.Query.{
  mode_ids, fill_configs, list_display_configs, get_display_name, display_name_size,
}

fill_configs-take :
    (room capacity idx : ℕ) (modes : List Mode)
    → capacity ≡ idx + room
    → fill_configs idx capacity modes ≡ take room (map (λ m. m.id) modes)
unfolding fill_configs
fill_configs-take zero capacity idx [] e = refl
fill_configs-take (suc room) capacity idx [] e = refl
fill_configs-take zero capacity idx (m ∷ ms) e = ground arith
fill_configs-take (suc room) capacity idx (m ∷ ms) e =
    ground (arith, fill_configs-take room capacity (suc idx) ms)

-- GetDisplayConfigs with an array of `n` elements writes the ids of the first `n` modes of the
-- connector, and gives their number.
pub list_display_configs_lem :
    (n : ℕ) (conn : Connector)
    → list_display_configs n conn
      ≡ (no_error, length (take n (mode_ids conn)), take n (mode_ids conn))
unfolding list_display_configs
list_display_configs_lem n conn = rw (fill_configs-take n n 0 conn.modes (omega arith))

-- When SurfaceFlinger asks for the size of the display's name and then for the name, with a buffer
-- of that size, it gets the name without its last character.
pub get_display_name_short :
    (name : List ℕ)
    → 0 < length name
    → length name < 2 ^ 32
    → get_display_name name (display_name_size name)
      ≡ (length name - 1, take (length name - 1) name)
unfolding get_display_name display_name_size
get_display_name_short name h k =
    let short : min (length name - 1) (length name % 2 ^ 32) ≡ length name - 1 = omega arith in
    rw short
