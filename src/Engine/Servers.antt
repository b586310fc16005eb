-- ===== src/Engine/Servers.antt =====
-- gps/libloc/libloc_api/loc_eng.cpp: the addresses of the assistance servers, kept until the engine is initialised,
-- and the position mode, which depends on them. A C string is the list of its bytes without the NUL.
pub mod Sent
pub mod Reach
pub mod Modes
mod Tests
use android_device_generic_m.Base.{
  ℕ, Bool, true, false, not, ◌||◌, Option, none, some, List, [], ◌∷◌, ◌++◌, length, take, ltb,
  if◌then◌else◌,
}

-- `AGpsType`
pub data AgpsType : Type 0 where
  agps_type_supl agps_type_c2k agps_type_other : AgpsType

pub data PositionMode : Type 0 where
  standalone ms_based ms_assisted : PositionMode

pub data Recurrence : Type 0 where
  periodic single : Recurrence

-- A field of the fix criteria counts where its bit of valid_mask is set. The bits of the mode and of the
-- recurrence always are.
pub record FixCriteria : Type 0 where
  pub preferred_operation_mode : PositionMode
  pub recurrence_type : Recurrence
  pub min_interval : ℕ
  pub preferred_accuracy : ℕ
  pub preferred_response_time : ℕ
  pub valid_min_interval : Bool
  pub valid_preferred_accuracy : Bool
  pub valid_preferred_response_time : Bool

-- The data of an ioctl to the modem.
pub data Ioctl : Type 0 where
  umts_slp_server : (len : ℕ) (url : List ℕ) → Ioctl
  cdma_pde_server : (addr port : ℕ) → Ioctl
  fix_criteria : FixCriteria → Ioctl

-- `loc_eng_inited`, the buffers for addresses that come before, and `loc_c2k_addr_is_set`.
pub record Servers : Type 0 where
  pub loc_eng_inited : Bool
  pub supl_host_set : Bool
  pub supl_host_buf : List ℕ
  pub supl_port_buf : ℕ
  pub c2k_host_set : Bool
  pub c2k_host_buf : List ℕ
  pub c2k_port_buf : ℕ
  pub loc_c2k_addr_is_set : Bool

-- What the C library answers: the two ways to resolve a name, none where they fail, and a port in decimal.
pub record Libc : Type 0 where
  pub gethostbyname : List ℕ → Option ℕ
  pub inet_aton : List ℕ → Option ℕ
  pub htonl : ℕ → ℕ
  pub print_unsigned : ℕ → List ℕ

abbrev pub or_else : Option ℕ → Option ℕ → Option ℕ
or_else (some a) b = some a
or_else none b = b

unfoldable pub resolve_in_addr : Libc → (host_addr : List ℕ) → Option ℕ
resolve_in_addr c host_addr = or_else (c.gethostbyname host_addr) (c.inet_aton host_addr)

-- `"%s:%u"`, the ':' is 58.
abbrev pub url_of : Libc → (hostname : List ℕ) → (port : ℕ) → List ℕ
url_of c hostname port = hostname ++ (58 ∷ c.print_unsigned port)

abbrev pub ServerOp : Type 0
ServerOp = Servers → Servers × List Ioctl

abbrev pub set_c2k : Libc → (port : ℕ) → Option ℕ → ServerOp
set_c2k c port none s = (s, [])
set_c2k c port (some addr) s =
    (record s { loc_c2k_addr_is_set = true }, cdma_pde_server (c.htonl addr) port ∷ [])

abbrev pub set_typed : Libc → AgpsType → (hostname : List ℕ) → (port : ℕ) → ServerOp
set_typed c agps_type_supl hostname port s =
    (s, umts_slp_server (length (url_of c hostname port)) (url_of c hostname port) ∷ [])
set_typed c agps_type_c2k hostname port s = set_c2k c port (resolve_in_addr c hostname) s
set_typed c agps_type_other hostname port s = (s, [])

-- An address that does not fit into url is given up, and none of the callers looks at the result.
unfoldable pub loc_eng_set_server : Libc → AgpsType → (hostname : List ℕ) → (port : ℕ) → ServerOp
loc_eng_set_server c type hostname port s =
    if ltb (length (url_of c hostname port)) 256 then set_typed c type hostname port s else (s, [])

-- The address is cut to the 99 bytes that strlcpy leaves.
abbrev pub keep_server : AgpsType → (hostname : List ℕ) → (port : ℕ) → Servers → Servers
keep_server agps_type_supl hostname port s = record s {
  supl_host_set = true;
  supl_host_buf = take 99 hostname;
  supl_port_buf = port;
}
keep_server agps_type_c2k hostname port s = record s {
  c2k_host_set = true;
  c2k_host_buf = take 99 hostname;
  c2k_port_buf = port;
}
keep_server agps_type_other hostname port s = s

unfoldable pub loc_eng_set_server_proxy :
    Libc → AgpsType → (hostname : List ℕ) → (port : ℕ) → ServerOp
loc_eng_set_server_proxy c type hostname port s =
    if s.loc_eng_inited
    then loc_eng_set_server c type hostname port s
    else (keep_server type hostname port s, [])

abbrev pub set_if : Libc → Bool → AgpsType → (hostname : List ℕ) → (port : ℕ) → ServerOp
set_if c kept type hostname port s =
    if kept then loc_eng_set_server c type hostname port s else (s, [])

infixl 5 ◌then_op◌
abbrev pub ◌then_op◌ : ServerOp → ServerOp → ServerOp
(f then_op g) s = ((g (f s).0).0, (f s).1 ++ (g (f s).0).1)

abbrev pub c2k_unset : ServerOp
c2k_unset s = (record s { loc_c2k_addr_is_set = false }, [])

-- The servers of `loc_eng_agps_init`, which sets the status callback too.
unfoldable pub loc_eng_agps_init : Libc → ServerOp
loc_eng_agps_init c =
    c2k_unset
    then_op (λ s. set_if c s.supl_host_set agps_type_supl s.supl_host_buf s.supl_port_buf s)
    then_op (λ s. set_if c s.c2k_host_set agps_type_c2k s.c2k_host_buf s.c2k_port_buf s)

abbrev pub response_time : PositionMode → ℕ
response_time standalone = 60
response_time mode = 89

abbrev pub allowed_mode : (host_set : Bool) → PositionMode → PositionMode
allowed_mode host_set mode = if host_set then mode else standalone

abbrev pub over : (asked otherwise : ℕ) → ℕ
over asked otherwise = if ltb 0 asked then asked else otherwise

-- The interval of 0 becomes MIN_POSSIBLE_FIX_INTERVAL.
abbrev pub criteria_of :
    PositionMode → Recurrence → (min_interval preferred_accuracy preferred_time : ℕ) → FixCriteria
criteria_of mode recurrence min_interval preferred_accuracy preferred_time = record {
  preferred_operation_mode = mode;
  recurrence_type = recurrence;
  min_interval = over min_interval 1000;
  preferred_accuracy = over preferred_accuracy 50;
  preferred_response_time = over preferred_time (response_time mode);
  valid_min_interval = ltb 0 min_interval;
  valid_preferred_accuracy = ltb 0 preferred_accuracy;
  valid_preferred_response_time = ltb 0 preferred_time;
}

-- LIBLOC_USE_DEFAULT_RESPONSE_TIME_AND_ACCURACY is not defined by the build files.
unfoldable pub loc_eng_set_position_mode :
    PositionMode → Recurrence → (min_interval preferred_accuracy preferred_time : ℕ) → ServerOp
loc_eng_set_position_mode mode recurrence min_interval preferred_accuracy preferred_time s =
    if s.loc_eng_inited
    then (
      s,
      fix_criteria (
            criteria_of (allowed_mode (s.supl_host_set || s.c2k_host_set) mode) recurrence
              min_interval preferred_accuracy preferred_time)
          ∷ [],
    )
    else (s, [])
