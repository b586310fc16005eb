-- ===== src/Ni/Address.antt =====
-- gps/libloc/libloc_api/loc_eng_ni.cpp: decode_address, which reads a telephone number in packed digits.
use android_device_generic_m.Base.{
  ℕ, ◌+◌, ◌-◌, ◌*◌, ◌/◌, ◌%◌, ◌≤◌, ◌<◌, ◌≡◌, refl, ap, ◌&&◌, List, [], ◌∷◌, ◌++◌, map, length, ltb,
  leb, ◌==◌, if◌then◌else◌, arith,
}

-- What one half of a byte adds behind `idx` characters.
unfoldable pub put_digit : (string_size idx digit : ℕ) → List ℕ
put_digit string_size idx digit =
    if leb digit 9 && ltb idx (string_size - 1) then (digit + 48) ∷ [] else []

unfoldable pub decode_digits : (string_size idx : ℕ) → (bytes : List ℕ) → List ℕ
decode_digits string_size idx [] = []
decode_digits string_size idx (ch ∷ bytes) =
    let low = put_digit string_size idx (ch % 16) in
    let hi = put_digit string_size (idx + length low) (ch / 16) in
    low ++ (hi ++ decode_digits string_size (idx + length low + length hi) bytes)

-- The string without its NUL. The caller has tested that there is a first byte.
unfoldable pub decode_address : (string_size : ℕ) → (bytes : List ℕ) → List ℕ
decode_address string_size [] = []
decode_address string_size (prefix ∷ bytes) =
    if prefix == 0x91 then decode_digits string_size 0 bytes else []

-- Digits packed two to a byte, the first one low, with 0xF where one is missing.
abbrev pub pack : List ℕ → List ℕ
pack [] = []
pack (d ∷ []) = (d + 240) ∷ []
pack (d ∷ e ∷ ds) = (e * 16 + d) ∷ pack ds

abbrev pub AreDigits : List ℕ → Type 0
AreDigits [] = Unit
AreDigits (d ∷ ds) = (d ≤ 9) × AreDigits ds

put_digit_lem : (n idx d : ℕ) → d ≤ 9 → idx + 1 < n → put_digit n idx d ≡ (d + 48) ∷ []
unfolding put_digit
put_digit_lem n idx d h k = ground arith

put_digit-none : (n idx d : ℕ) → 9 < d → put_digit n idx d ≡ []
unfolding put_digit
put_digit-none n idx d h = ground arith

decode_pack :
    (n idx : ℕ) (ds : List ℕ)
    → AreDigits ds
    → idx + length ds < n
    → decode_digits n idx (pack ds) ≡ map (λ d. d + 48) ds
unfolding decode_digits
decode_pack n idx [] a k = refl
decode_pack n idx (d ∷ []) (h, a) k =
    let low : (d + 240) % 16 ≡ d = omega (arith, h) in
    let hi : (d + 240) / 16 ≡ 15 = omega (arith, h) in
    rw (low, put_digit_lem n idx d h (omega (arith, k)), hi)
      (rw (put_digit-none n (idx + 1) 15 (omega arith)) refl)
decode_pack n idx (d ∷ e ∷ ds) (h, (k, a)) m =
    let low : (e * 16 + d) % 16 ≡ d = omega (arith, h) in
    let hi : (e * 16 + d) / 16 ≡ e = omega (arith, h) in
    rw (low, put_digit_lem n idx d h (omega (arith, m)), hi)
      (rw (put_digit_lem n (idx + 1) e k (omega (arith, m)))
        (ap (λ s. (d + 48) ∷ (e + 48) ∷ s) (decode_pack n (idx + 1 + 1) ds a (omega (arith, m)))))

-- A number of decimal digits that fits its buffer, packed behind the prefix 0x91, is decoded into the
-- characters of these digits. Behind any other prefix the address is empty.
pub address_roundtrip :
    (string_size prefix : ℕ) (ds : List ℕ)
    → AreDigits ds
    → length ds < string_size
    → decode_address string_size (prefix ∷ pack ds)
      ≡ (if prefix == 0x91 then map (λ d. d + 48) ds else [])
unfolding decode_address
address_roundtrip n prefix ds a h =
    ap (λ s. if prefix == 0x91 then s else []) (decode_pack n 0 ds a (omega (arith, h)))
