-- ===== src/LocCfg/Tests.antt =====
-- The theorems on gps/utils/loc_cfg.cpp for two lines of a file.
use android_device_generic_m.Base.{
  ℕ, ◌-◌, ◌≡◌, refl, some, List, [], ◌∷◌, ◌++◌, get_or, ◌==◌, arith,
}
use android_device_generic_m.LocCfg.Conf.{
  Clib, debug_level, loc_parameter_table, loc_default_parameters, operands, loc_read_gps_conf,
}
use android_device_generic_m.LocCfg.Settings
use android_device_generic_m.LocCfg.Settings.{field, latest, set_to}
use android_device_generic_m.LocCfg.Operands
use android_device_generic_m.LocCfg.Operands.{clean}

-- Numbers have one digit.
abbrev one_digit : Clib
one_digit = record {
  isspace = λ b. b == 32;
  tolower = λ b. b;
  strtol16 = λ s. get_or s 0 0 - 48;
  atof = λ s. get_or s 0 0 - 48;
  atoi = λ s. get_or s 0 0 - 48;
}

-- "A = 5 "
operands_trimmed_example :
    operands one_digit ((65 ∷ (32 ∷ [])) ++ 61 ∷ (32 ∷ (53 ∷ (32 ∷ []))))
    ≡ some (clean one_digit (65 ∷ (32 ∷ [])), clean one_digit (32 ∷ (53 ∷ (32 ∷ []))))
operands_trimmed_example =
    Operands.operands_trimmed one_digit 65 (32 ∷ []) 32 (53 ∷ (32 ∷ []))
      (omega arith, (omega arith, tt)) (omega arith, (omega arith, (omega arith, tt)))
      (omega arith, (omega arith, tt)) (omega arith, (omega arith, (omega arith, tt)))

-- "DEBUG_LEVEL=5", and "DEBUG_LEVEL=4" behind it.
abbrev lines : List (List ℕ)
lines = (debug_level ++ 61 ∷ (53 ∷ [])) ∷ ((debug_level ++ 61 ∷ (52 ∷ [])) ∷ [])

last_line_counts_example :
    field debug_level loc_parameter_table (loc_read_gps_conf one_digit (some lines)).params
    ≡ set_to
        (latest one_digit debug_level lines)
        (field debug_level loc_parameter_table loc_default_parameters.params)
last_line_counts_example = Settings.last_line_counts one_digit lines debug_level refl refl
