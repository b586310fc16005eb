-- ===== src/LocCfg/Conf.antt =====
-- gps/utils/loc_cfg.cpp: the parameters and the reader of gps.conf. A C string is the list of its bytes
-- without the NUL; the file is the list of what fgets returns, a piece of at most 79 bytes each.
use android_device_generic_m.Base.{
  ℕ, Bool, true, false, ◌&&◌, ◌||◌, Option, none, some, List, [], ◌∷◌, ◌++◌, get_or, ◌==◌,
  if◌then◌else◌,
}
use android_device_generic_m.Power.{c_string}
use android_device_generic_m.LocCfg.{trim_space}

pub data ParamType : Type 0 where
  number real : ParamType

pub record LocParam : Type 0 where
  pub param_name : List ℕ
  pub param_type : ParamType

-- INTERMEDIATE_POS
abbrev pub intermediate_pos : List ℕ
intermediate_pos =
    73 ∷ 78 ∷ 84 ∷ 69 ∷ 82 ∷ 77 ∷ 69 ∷ 68 ∷ 73 ∷ 65 ∷ 84 ∷ 69 ∷ 95 ∷ 80 ∷ 79 ∷ 83 ∷ []

-- ACCURACY_THRES
abbrev pub accuracy_thres : List ℕ
accuracy_thres = 65 ∷ 67 ∷ 67 ∷ 85 ∷ 82 ∷ 65 ∷ 67 ∷ 89 ∷ 95 ∷ 84 ∷ 72 ∷ 82 ∷ 69 ∷ 83 ∷ []

-- ENABLE_WIPER
abbrev pub enable_wiper : List ℕ
enable_wiper = 69 ∷ 78 ∷ 65 ∷ 66 ∷ 76 ∷ 69 ∷ 95 ∷ 87 ∷ 73 ∷ 80 ∷ 69 ∷ 82 ∷ []

-- DEBUG_LEVEL
abbrev pub debug_level : List ℕ
debug_level = 68 ∷ 69 ∷ 66 ∷ 85 ∷ 71 ∷ 95 ∷ 76 ∷ 69 ∷ 86 ∷ 69 ∷ 76 ∷ []

-- SUPL_VER
abbrev pub supl_ver : List ℕ
supl_ver = 83 ∷ 85 ∷ 80 ∷ 76 ∷ 95 ∷ 86 ∷ 69 ∷ 82 ∷ []

-- CAPABILITIES
abbrev pub capabilities : List ℕ
capabilities = 67 ∷ 65 ∷ 80 ∷ 65 ∷ 66 ∷ 73 ∷ 76 ∷ 73 ∷ 84 ∷ 73 ∷ 69 ∷ 83 ∷ []

-- TIMESTAMP
abbrev pub timestamp : List ℕ
timestamp = 84 ∷ 73 ∷ 77 ∷ 69 ∷ 83 ∷ 84 ∷ 65 ∷ 77 ∷ 80 ∷ []

-- GYRO_BIAS_RANDOM_WALK
abbrev pub gyro_bias_random_walk : List ℕ
gyro_bias_random_walk =
    71 ∷ 89 ∷ 82 ∷ 79 ∷ 95 ∷ 66 ∷ 73 ∷ 65 ∷ 83 ∷ 95 ∷ 82 ∷ 65 ∷ 78 ∷ 68 ∷ 79 ∷ 77 ∷ 95 ∷ 87 ∷ 65
    ∷ 76 ∷ 75 ∷ []

-- SENSOR_ACCEL_BATCHES_PER_SEC
abbrev pub sensor_accel_batches_per_sec : List ℕ
sensor_accel_batches_per_sec =
    83 ∷ 69 ∷ 78 ∷ 83 ∷ 79 ∷ 82 ∷ 95 ∷ 65 ∷ 67 ∷ 67 ∷ 69 ∷ 76 ∷ 95 ∷ 66 ∷ 65 ∷ 84 ∷ 67 ∷ 72 ∷ 69
    ∷ 83 ∷ 95 ∷ 80 ∷ 69 ∷ 82 ∷ 95 ∷ 83 ∷ 69 ∷ 67 ∷ []

-- SENSOR_ACCEL_SAMPLES_PER_BATCH
abbrev pub sensor_accel_samples_per_batch : List ℕ
sensor_accel_samples_per_batch =
    83 ∷ 69 ∷ 78 ∷ 83 ∷ 79 ∷ 82 ∷ 95 ∷ 65 ∷ 67 ∷ 67 ∷ 69 ∷ 76 ∷ 95 ∷ 83 ∷ 65 ∷ 77 ∷ 80 ∷ 76 ∷ 69
    ∷ 83 ∷ 95 ∷ 80 ∷ 69 ∷ 82 ∷ 95 ∷ 66 ∷ 65 ∷ 84 ∷ 67 ∷ 72 ∷ []

-- SENSOR_GYRO_BATCHES_PER_SEC
abbrev pub sensor_gyro_batches_per_sec : List ℕ
sensor_gyro_batches_per_sec =
    83 ∷ 69 ∷ 78 ∷ 83 ∷ 79 ∷ 82 ∷ 95 ∷ 71 ∷ 89 ∷ 82 ∷ 79 ∷ 95 ∷ 66 ∷ 65 ∷ 84 ∷ 67 ∷ 72 ∷ 69 ∷ 83
    ∷ 95 ∷ 80 ∷ 69 ∷ 82 ∷ 95 ∷ 83 ∷ 69 ∷ 67 ∷ []

-- SENSOR_GYRO_SAMPLES_PER_BATCH
abbrev pub sensor_gyro_samples_per_batch : List ℕ
sensor_gyro_samples_per_batch =
    83 ∷ 69 ∷ 78 ∷ 83 ∷ 79 ∷ 82 ∷ 95 ∷ 71 ∷ 89 ∷ 82 ∷ 79 ∷ 95 ∷ 83 ∷ 65 ∷ 77 ∷ 80 ∷ 76 ∷ 69 ∷ 83
    ∷ 95 ∷ 80 ∷ 69 ∷ 82 ∷ 95 ∷ 66 ∷ 65 ∷ 84 ∷ 67 ∷ 72 ∷ []

-- SENSOR_CONTROL_MODE
abbrev pub sensor_control_mode : List ℕ
sensor_control_mode =
    83 ∷ 69 ∷ 78 ∷ 83 ∷ 79 ∷ 82 ∷ 95 ∷ 67 ∷ 79 ∷ 78 ∷ 84 ∷ 82 ∷ 79 ∷ 76 ∷ 95 ∷ 77 ∷ 79 ∷ 68 ∷ 69
    ∷ []

-- SENSOR_USAGE
abbrev pub sensor_usage : List ℕ
sensor_usage = 83 ∷ 69 ∷ 78 ∷ 83 ∷ 79 ∷ 82 ∷ 95 ∷ 85 ∷ 83 ∷ 65 ∷ 71 ∷ 69 ∷ []

abbrev pub loc_parameter_table : List LocParam
loc_parameter_table =
    record { param_name = intermediate_pos; param_type = number }
    ∷ record { param_name = accuracy_thres; param_type = number }
    ∷ record { param_name = enable_wiper; param_type = number }
    ∷ record { param_name = debug_level; param_type = number }
    ∷ record { param_name = supl_ver; param_type = number }
    ∷ record { param_name = capabilities; param_type = number }
    ∷ record { param_name = timestamp; param_type = number }
    ∷ record { param_name = gyro_bias_random_walk; param_type = real }
    ∷ record { param_name = sensor_accel_batches_per_sec; param_type = number }
    ∷ record { param_name = sensor_accel_samples_per_batch; param_type = number }
    ∷ record { param_name = sensor_gyro_batches_per_sec; param_type = number }
    ∷ record { param_name = sensor_gyro_samples_per_batch; param_type = number }
    ∷ record { param_name = sensor_control_mode; param_type = number }
    ∷ record { param_name = sensor_usage; param_type = number }
    ∷ []

-- `gps_conf`: what the pointers of the table lead to, in its order, and GYRO_BIAS_RANDOM_WALK_VALID. An
-- integer is its 32-bit pattern, a double is known by a number, 0 for 0.0.
pub record GpsConf : Type 0 where
  pub params : List ℕ
  pub gyro_bias_random_walk_valid : Bool

abbrev pub loc_default_parameters : GpsConf
loc_default_parameters = record {
  params = 0 ∷ 0 ∷ 0 ∷ 3 ∷ 65536 ∷ 7 ∷ 0 ∷ 0 ∷ 2 ∷ 5 ∷ 2 ∷ 5 ∷ 0 ∷ 0 ∷ [];
  gyro_bias_random_walk_valid = false;
}

-- The C library: the two classes of characters, and numbers from strings.
pub record Clib : Type 0 where
  pub isspace : ℕ → Bool
  pub tolower : ℕ → ℕ
  pub strtol16 : List ℕ → ℕ
  pub atof : List ℕ → ℕ
  pub atoi : List ℕ → ℕ

-- The variables of loc_read_gps_conf that live from line to line.
pub record Reader : Type 0 where
  pub gps_conf : GpsConf
  pub param_int_value : ℕ
  pub param_double_value : ℕ

-- strtok_r for the delimiter '=', which is 61: a token, and what is left behind its end.
abbrev pub skip_delims : List ℕ → List ℕ
skip_delims [] = []
skip_delims (b ∷ bs) = let rest = skip_delims bs in if b == 61 then rest else b ∷ bs

abbrev pub token_of : List ℕ → List ℕ
token_of [] = []
token_of (b ∷ bs) = let rest = token_of bs in if b == 61 then [] else b ∷ rest

abbrev pub behind_token : List ℕ → List ℕ
behind_token [] = []
behind_token (b ∷ bs) = let rest = behind_token bs in if b == 61 then bs else rest

abbrev pub token_in : List ℕ → Option (List ℕ × List ℕ)
token_in [] = none
token_in (b ∷ bs) = some (token_of (b ∷ bs), behind_token (b ∷ bs))

abbrev pub strtok_r : List ℕ → Option (List ℕ × List ℕ)
strtok_r s = token_in (skip_delims s)

-- A token is trimmed in its place, the bytes behind its NUL being out of reach.
abbrev pub trimmed_token : Clib → List ℕ → List ℕ
trimmed_token c s = c_string (trim_space c.isspace (s ++ 0 ∷ []))

abbrev pub value_token :
    Clib → (name : List ℕ) → Option (List ℕ × List ℕ) → Option (List ℕ × List ℕ)
value_token c name none = none
value_token c name (some (value, lasts)) = some (trimmed_token c name, trimmed_token c value)

abbrev pub name_token : Clib → Option (List ℕ × List ℕ) → Option (List ℕ × List ℕ)
name_token c none = none
name_token c (some (name, lasts)) = value_token c name (strtok_r lasts)

-- The name and the value of a line.
unfoldable pub operands : Clib → (input_buf : List ℕ) → Option (List ℕ × List ℕ)
operands c input_buf = name_token c (strtok_r input_buf)

-- '0' is 48, 'x' is 120.
abbrev pub is_hex : Clib → List ℕ → Bool
is_hex c value = get_or value 0 0 == 48 && c.tolower (get_or value 1 0) == 120

abbrev pub behind_prefix : List ℕ → List ℕ
behind_prefix (a ∷ (b ∷ bs)) = bs
behind_prefix bs = []

abbrev pub int_of : Clib → List ℕ → ℕ
int_of c value = if is_hex c value then c.strtol16 (behind_prefix value) else c.atoi value

-- A hexadecimal value leaves the double of before.
abbrev pub double_of : Clib → List ℕ → (before : ℕ) → ℕ
double_of c value before = if is_hex c value then before else c.atof value

-- `strcmp(a, b) == 0`
abbrev pub same_string : List ℕ → List ℕ → Bool
same_string [] [] = true
same_string [] (b ∷ bs) = false
same_string (a ∷ xs) [] = false
same_string (a ∷ xs) (b ∷ ys) = a == b && same_string xs ys

abbrev pub typed : ParamType → (int double : ℕ) → ℕ
typed number i d = i
typed real i d = d

-- The loop over the table, on the entries and what they point to.
unfoldable pub assign : (name : List ℕ) → (int double : ℕ) → List LocParam → List ℕ → List ℕ
assign name i d [] vs = vs
assign name i d (e ∷ es) [] = []
assign name i d (e ∷ es) (v ∷ vs) =
    (if same_string e.param_name name then typed e.param_type i d else v) ∷ assign name i d es vs

abbrev pub set_param : Clib → (table : List LocParam) → (name value : List ℕ) → Reader → Reader
set_param c table name value r =
    let i = int_of c value in
    let d = double_of c value r.param_double_value in
    record {
      gps_conf = record {
        params = assign name i d table r.gps_conf.params;
        gyro_bias_random_walk_valid =
            same_string gyro_bias_random_walk name || r.gps_conf.gyro_bias_random_walk_valid;
      };
      param_int_value = i;
      param_double_value = d;
    }

abbrev pub set_operands : Clib → List LocParam → Option (List ℕ × List ℕ) → Reader → Reader
set_operands c table none r = r
set_operands c table (some (name, value)) r = set_param c table name value r

-- One line, and the loop over the lines.
unfoldable pub read_line : Clib → List LocParam → (input_buf : List ℕ) → Reader → Reader
read_line c table input_buf r = set_operands c table (operands c input_buf) r

unfoldable pub read_lines : Clib → List LocParam → List (List ℕ) → Reader → Reader
read_lines c table [] r = r
read_lines c table (l ∷ ls) r = read_lines c table ls (read_line c table l r)

abbrev pub read_file : Clib → Option (List (List ℕ)) → Reader → Reader
read_file c none r = r
read_file c (some ls) r = read_lines c loc_parameter_table ls r

-- Without a file, none, the defaults hold.
unfoldable pub loc_read_gps_conf : Clib → Option (List (List ℕ)) → GpsConf
loc_read_gps_conf c file =
    (read_file c file (record {
      gps_conf = loc_default_parameters;
      param_int_value = 0;
      param_double_value = 0;
    })).gps_conf
