-- ===== src/Importer/Create.antt =====
-- What a platform makes at the start: its importer and its planner (platformdrmgeneric.cpp,
-- platformhisi.cpp and platformminigbm.cpp).
use drm_hwcomposer.Base.{Option, none, some, List, [], ◌∷◌, ℤ, pos, if◌then◌else◌, is_set}
use drm_hwcomposer.Planner.{Stage, greedy_stage}

-- The class of an importer.
pub data Platform : Type 0 where
  generic hisi minigbm : Platform

-- Init, over the result of hw_get_module. The author of the module is only logged.
unfoldable pub init_generic : ℤ → ℤ
init_generic module_ret = if is_set module_ret then module_ret else pos 0

unfoldable pub init_hisi : ℤ → ℤ
init_hisi module_ret = if is_set module_ret then module_ret else pos 0

unfoldable pub init_minigbm : ℤ → ℤ
init_minigbm module_ret = if is_set module_ret then module_ret else pos 0

-- Importer::CreateInstance; a null pointer is `none`.
unfoldable pub create_generic : ℤ → Option Platform
unfolding init_generic
create_generic module_ret = if is_set (init_generic module_ret) then none else some generic

unfoldable pub create_hisi : ℤ → Option Platform
unfolding init_hisi
create_hisi module_ret = if is_set (init_hisi module_ret) then none else some hisi

unfoldable pub create_minigbm : ℤ → Option Platform
unfolding init_minigbm
create_minigbm module_ret = if is_set (init_minigbm module_ret) then none else some minigbm

-- Planner::CreateInstance.
abbrev pub planner_generic : List Stage
planner_generic = greedy_stage ∷ []

abbrev pub planner_hisi : List Stage
planner_hisi = greedy_stage ∷ []

abbrev pub planner_minigbm : List Stage
planner_minigbm = greedy_stage ∷ []
