-- ===== src/LocCfg.antt =====
-- gps/utils/loc_cfg.cpp: trim_space, which shortens a string in its own buffer. A buffer is a list of
-- bytes, a pointer into it an index, and isspace of the C library an argument.
pub mod Copying
pub mod Trim
pub mod Conf
pub mod Settings
pub mod Operands
mod Tests
use android_device_generic_m.Base.{
  ℕ, zero, suc, Bool, true, false, Option, none, some, List, length, get_or, set, ◌==◌,
  if◌then◌else◌,
}

-- The variables of trim_space, with the buffer of `org_string`. A NULL pointer is none.
pub record Scan : Type 0 where
  pub org_string : List ℕ
  pub scan_ptr : ℕ
  pub write_ptr : ℕ
  pub first_nonspace : Option ℕ
  pub last_nonspace : Option ℕ

-- `*scan_ptr`
abbrev pub scanned : Scan → ℕ
scanned t = get_or t.org_string t.scan_ptr 0

-- The first test of the loop, on what isspace says of the byte.
abbrev pub find_first : Bool → Option ℕ → Scan → Scan
find_first space (some first) t = t
find_first true none t = t
find_first false none t = record t { first_nonspace = some t.scan_ptr }

-- The second test of the loop: the byte is written, and the pointer behind it is kept.
abbrev pub copy : Bool → Option ℕ → Scan → Scan
copy space none t = t
copy space (some first) t = record t {
  org_string = set t.org_string t.write_ptr (scanned t);
  write_ptr = suc t.write_ptr;
  last_nonspace = if space then t.last_nonspace else some (suc t.write_ptr);
}

abbrev pub advance : Scan → Scan
advance t = record t { scan_ptr = suc t.scan_ptr }

abbrev pub copy_found : Bool → Scan → Scan
copy_found space t = copy space t.first_nonspace t

-- One round of the loop. The test behind the write reads the same byte: the write pointer is never ahead
-- of the scan pointer, and where they are equal the byte is written onto itself.
abbrev pub scan_step : (isspace : ℕ → Bool) → Scan → Scan
scan_step isspace t =
    advance (copy_found (isspace (scanned t)) (find_first (isspace (scanned t)) t.first_nonspace t))

-- The loop, up to the NUL.
unfoldable pub scan_all : (isspace : ℕ → Bool) → (fuel : ℕ) → Scan → Scan
scan_all isspace zero t = t
scan_all isspace (suc fuel) t =
    let rest = scan_all isspace fuel (scan_step isspace t) in if scanned t == 0 then t else rest

abbrev pub cut : Option ℕ → List ℕ → List ℕ
cut none string = string
cut (some last) string = set string last 0

abbrev pub finish : Scan → List ℕ
finish t = cut t.last_nonspace t.org_string

-- The buffer afterwards. The loop ends at the NUL, within as many rounds as the buffer has bytes.
unfoldable pub trim_space : (isspace : ℕ → Bool) → (org_string : List ℕ) → List ℕ
trim_space isspace org_string = finish (
    scan_all isspace (length org_string) (record {
      org_string = org_string;
      scan_ptr = 0;
      write_ptr = 0;
      first_nonspace = none;
      last_nonspace = none;
    }))
