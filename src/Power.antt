-- ===== src/Power.antt =====
-- power/power.c: the governor's name, its settings, and the boost pulse. What the file system answers is
-- an argument; what the code does to it is a list of events.
pub mod Governor
pub mod Boost
mod Tests
use android_device_generic_m.Base.{
  ℕ, zero, suc, ◌-◌, Bool, true, false, not, ◌&&◌, ◌||◌, Option, none, some, List, [], ◌∷◌, ◌++◌,
  length, take, get_or, ◌==◌, if◌then◌else◌,
}

-- The files below /sys/devices/system/cpu/cpufreq that configure_governor writes.
pub data Node : Type 0 where
  ondemand_sampling_rate ondemand_up_threshold ondemand_io_is_busy : Node
  ondemand_sampling_down_factor ondemand_down_differential : Node
  interactive_timer_rate interactive_min_sample_time interactive_io_is_busy : Node
  interactive_hispeed_freq interactive_above_hispeed_delay : Node

pub data Event : Type 0 where
  stored : Node → ℕ → Event
  opened : (fd : ℕ) → Event
  pulsed : (fd duration : ℕ) → Event
  closed : (fd : ℕ) → Event

-- The answers of the system to one call: what opening SCALING_GOVERNOR_PATH gives (none is -1) and the bytes
-- read from it (none where the read fails), what opening each of the nodes and the boost file gives, and
-- whether the write to a node and that of a pulse succeed.
pub record World : Type 0 where
  pub governor_fd : Option ℕ
  pub governor_file : Option (List ℕ)
  pub node_fd : Node → Option ℕ
  pub node_ok : Node → Bool
  pub boost_file : Option ℕ
  pub pulse_ok : Bool

-- `cm_power_module`, with the static `governor`, a string without its NUL. A negative fd is none.
pub record Power : Type 0 where
  pub boostpulse_fd : Option ℕ
  pub boostpulse_warned : Bool
  pub governor : List ℕ

-- The string that starts at a buffer: the bytes up to the first NUL.
unfoldable pub c_string : List ℕ → List ℕ
c_string [] = []
c_string (c ∷ cs) = let rest = c_string cs in if c == 0 then [] else c ∷ rest

abbrev pub read_into : Option (List ℕ) → (num_bytes : ℕ) → Option (List ℕ)
read_into none num_bytes = none
read_into (some bytes) num_bytes = some (c_string (take (num_bytes - 1) bytes))

-- The buffer afterwards, where the read succeeds. The descriptor is closed where it does not, too.
unfoldable pub sysfs_read :
    (fd : Option ℕ) → Option (List ℕ) → (num_bytes : ℕ) → Option (List ℕ) × List Event
sysfs_read none file num_bytes = (none, [])
sysfs_read (some fd) file num_bytes = (read_into file num_bytes, opened fd ∷ (closed fd ∷ []))

abbrev pub write_to : (fd : Option ℕ) → (ok : Bool) → Node → ℕ → List Event
write_to none ok n v = []
write_to (some fd) ok n v = opened fd ∷ ((if ok then stored n v ∷ [] else []) ++ closed fd ∷ [])

unfoldable pub sysfs_write : World → Node → ℕ → List Event
sysfs_write w n v = write_to (w.node_fd n) (w.node_ok n) n v

-- '\n' and '\r'
abbrev pub is_newline : ℕ → Bool
is_newline c = c == 10 || c == 13

-- The loop with `len` one more than in the source; a NUL at an index cuts the string there.
unfoldable pub strip : (len : ℕ) → List ℕ → List ℕ
strip zero g = g
strip (suc len) g =
    let rest = strip len (take len g) in if is_newline (get_or g len 0) then rest else g

abbrev pub governor_read : Power → Option (List ℕ) × List Event → Bool × Power × List Event
governor_read cm (none, es) = (false, cm, es)
governor_read cm (some g, es) = (true, record cm { governor = strip (length g) g }, es)

-- True is 0, and false -1.
unfoldable pub get_scaling_governor : World → Power → Bool × Power × List Event
get_scaling_governor w cm = governor_read cm (sysfs_read w.governor_fd w.governor_file 20)

-- `strncmp(s, prefix, strlen(prefix)) == 0`
abbrev pub starts_with : (prefix s : List ℕ) → Bool
starts_with [] s = true
starts_with (c ∷ prefix) [] = false
starts_with (c ∷ prefix) (d ∷ s) = c == d && starts_with prefix s

abbrev pub ondemand : List ℕ
ondemand = 111 ∷ 110 ∷ 100 ∷ 101 ∷ 109 ∷ 97 ∷ 110 ∷ 100 ∷ []

abbrev pub interactive : List ℕ
interactive = 105 ∷ 110 ∷ 116 ∷ 101 ∷ 114 ∷ 97 ∷ 99 ∷ 116 ∷ 105 ∷ 118 ∷ 101 ∷ []

unfoldable pub configure_governor : World → (governor : List ℕ) → List Event
configure_governor w g =
    if starts_with ondemand g
    then sysfs_write w ondemand_sampling_rate 50000
      ++ (sysfs_write w ondemand_up_threshold 90
          ++ (sysfs_write w ondemand_io_is_busy 0
              ++ (sysfs_write w ondemand_sampling_down_factor 4
                  ++ sysfs_write w ondemand_down_differential 10)))
    else if starts_with interactive g
    then sysfs_write w interactive_timer_rate 30000
      ++ (sysfs_write w interactive_min_sample_time 90000
          ++ (sysfs_write w interactive_io_is_busy 0
              ++ (sysfs_write w interactive_hispeed_freq 1008000
                  ++ sysfs_write w interactive_above_hispeed_delay 30000)))
    else []

-- After the attempt to open the boost file.
unfoldable pub boost_opened : World → Power → Option ℕ → Power × List Event
boost_opened w cm none = (record cm { boostpulse_fd = none; boostpulse_warned = true }, [])
boost_opened w cm (some zero) = (record cm { boostpulse_fd = some zero }, opened zero ∷ [])
boost_opened w cm (some (suc fd)) = (
  record cm { boostpulse_fd = some (suc fd) },
  opened (suc fd) ∷ configure_governor w cm.governor,
)

abbrev pub has_boost : List ℕ → Bool
has_boost g = starts_with ondemand g || starts_with interactive g

abbrev pub and_then : List Event → Power × List Event → Power × List Event
and_then es (cm, fs) = (cm, es ++ fs)

abbrev pub governor_known : World → Bool × Power × List Event → Power × List Event
governor_known w (false, cm, es) = (record cm { boostpulse_warned = true }, es)
governor_known w (true, cm, es) =
    and_then es (boost_opened w cm (if has_boost cm.governor then w.boost_file else none))

abbrev pub boost_kept : World → Power → Option ℕ → Power × List Event
boost_kept w cm none = governor_known w (get_scaling_governor w cm)
boost_kept w cm (some fd) = (cm, [])

-- The answer is `boostpulse_fd` afterwards.
unfoldable pub boostpulse_open : World → Power → Power × List Event
boostpulse_open w cm = boost_kept w cm cm.boostpulse_fd

pub data Hint : Type 0 where
  interaction cpu_boost vsync other_hint : Hint

abbrev pub pulse : World → (duration : ℕ) → Power → Option ℕ → Power × List Event
pulse w duration cm none = (cm, [])
pulse w duration cm (some fd) =
    if w.pulse_ok
    then (cm, pulsed fd duration ∷ [])
    else (record cm { boostpulse_fd = none; boostpulse_warned = false }, closed fd ∷ [])

abbrev pub boost : World → (duration : ℕ) → Power × List Event → Power × List Event
boost w duration (cm, es) = and_then es (pulse w duration cm cm.boostpulse_fd)

-- `data` is none when NULL; the duration is then 1.
abbrev pub duration_of : Option ℕ → ℕ
duration_of none = 1
duration_of (some d) = d

unfoldable pub cm_power_hint : World → Hint → (hint_data : Option ℕ) → Power → Power × List Event
cm_power_hint w interaction hint_data cm = boost w (duration_of hint_data) (boostpulse_open w cm)
cm_power_hint w cpu_boost hint_data cm = boost w (duration_of hint_data) (boostpulse_open w cm)
cm_power_hint w vsync hint_data cm = (cm, [])
cm_power_hint w other_hint hint_data cm = (cm, [])

abbrev pub configured : World → Bool × Power × List Event → Power × List Event
configured w (ok, cm, es) = (cm, es ++ configure_governor w cm.governor)

unfoldable pub cm_power_init : World → Power → Power × List Event
cm_power_init w cm = configured w (get_scaling_governor w cm)
