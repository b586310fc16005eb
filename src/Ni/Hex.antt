-- ===== src/Ni/Hex.antt =====
-- gps/libloc/libloc_api/loc_eng_ni.cpp: hexcode, which writes bytes as hexadecimal digits. The string is
-- the list of characters in front of the NUL; the buffer is cleared before the call.
use android_device_generic_m.Base.{
  ℕ, zero, suc, ◌+◌, ◌-◌, ◌*◌, ◌/◌, ◌%◌, ◌≤◌, ◌<◌, ◌≡◌, refl, true, false, List, [], ◌∷◌, length,
  take, ltb, leb, if◌then◌else◌, arith,
}
use mathlib.Core.Path.{ap₂}

-- A digit of "%02X".
unfoldable pub hex_digit : ℕ → ℕ
hex_digit n = if ltb n 10 then n + 48 else n + 55

-- The loop from `i` on, with what it writes from there.
unfoldable pub hexcode_from : (i string_size : ℕ) → (bytes : List ℕ) → List ℕ
hexcode_from i string_size [] = []
hexcode_from i string_size (ch ∷ bytes) =
    let rest = hexcode_from (suc i) string_size bytes in
    if leb (i * 2 + 3) string_size then hex_digit (ch / 16) ∷ hex_digit (ch % 16) ∷ rest else []

unfoldable pub hexcode : (string_size : ℕ) → (bytes : List ℕ) → List ℕ
hexcode string_size bytes = hexcode_from 0 string_size bytes

-- The value of a digit.
abbrev pub unhex_digit : ℕ → ℕ
unhex_digit c = if ltb c 58 then c - 48 else c - 55

-- The bytes that a string of digits stands for.
abbrev pub unhex : List ℕ → List ℕ
unhex [] = []
unhex (c ∷ []) = []
unhex (c ∷ d ∷ s) = (unhex_digit c * 16 + unhex_digit d) ∷ unhex s

abbrev pub AreBytes : List ℕ → Type 0
AreBytes [] = Unit
AreBytes (b ∷ bs) = (b < 256) × AreBytes bs

unhex-hex_digit : (n : ℕ) → n < 16 → unhex_digit (hex_digit n) ≡ n
unfolding hex_digit
unhex-hex_digit n h = ground arith

byte_digits :
    (b : ℕ) → b < 256 → unhex_digit (hex_digit (b / 16)) * 16 + unhex_digit (hex_digit (b % 16)) ≡ b
byte_digits b h =
    let hi = unhex-hex_digit (b / 16) (omega (arith, h)) in
    let lo = unhex-hex_digit (b % 16) (omega arith) in omega (arith, hi, lo)

-- `k` more bytes fit behind the first `i`.
unhex-hexcode_from :
    (i string_size k : ℕ) (bs : List ℕ)
    → AreBytes bs
    → k ≡ (string_size - 1) / 2 - i
    → (unhex (hexcode_from i string_size bs) ≡ take k bs)
      × (length (hexcode_from i string_size bs) ≤ 2 * k)
unfolding hexcode_from
unhex-hexcode_from i n zero [] a e = (refl, omega arith)
unhex-hexcode_from i n (suc k) [] a e = (refl, omega arith)
unhex-hexcode_from i n zero (b ∷ bs) (h, a) e =
    let full : leb (i * 2 + 3) n ≡ false = ground (arith, e) in
    (rw full refl, rw full (omega arith))
unhex-hexcode_from i n (suc k) (b ∷ bs) (h, a) e =
    let room : leb (i * 2 + 3) n ≡ true = ground (arith, e) in
    let (p, q) = unhex-hexcode_from (suc i) n k bs a (omega (arith, e)) in
    (rw room (ap₂ (λ c cs. c ∷ cs) (byte_digits b h) p), rw room (omega (arith, q)))

-- The digits that hexcode writes into a buffer of `string_size` stand for as many of the first bytes as
-- fit, two digits for each and room for the NUL, and no digit is written beyond that.
pub hexcode_roundtrip :
    (string_size : ℕ) (bs : List ℕ)
    → AreBytes bs
    → 0 < string_size
    → (unhex (hexcode string_size bs) ≡ take ((string_size - 1) / 2) bs)
      × (length (hexcode string_size bs) < string_size)
unfolding hexcode
hexcode_roundtrip n bs a h =
    let (p, q) = unhex-hexcode_from 0 n ((n - 1) / 2) bs a (omega arith) in (p, omega (arith, q, h))
