-- ===== src/Params/Level.antt =====
-- vsc_log.c: what the level of the log can be set to.
use vsc.Base.{ℕ, ◌^◌, ◌<◌, ◌≤◌, ◌≡◌, ◌⊎◌, inl, refl, Option, none, some, arith}
use vsc.Codes.{ok, err, einval}
use vsc.Params.{set_log_level, type_count}

-- The level of the log is one of the three, or an `int` that is negative.
set_log_level_lem :
    (val : Option (Option ℕ)) (level : ℕ)
    → (((set_log_level val level).0 ≡ err einval) × ((set_log_level val level).1 ≡ level))
      ⊎ (((set_log_level val level).0 ≡ ok 0)
          × (((set_log_level val level).1 < type_count) ⊎ (2 ^ 31 ≤ (set_log_level val level).1)))
unfolding set_log_level
set_log_level_lem none level = inl (refl, refl)
set_log_level_lem (some none) level = inl (refl, refl)
set_log_level_lem (some (some v)) level = ground arith
