-- ===== src/Engine/Xtra.antt =====
-- gps/libloc/libloc_api/loc_eng_xtra.cpp: predicted orbits are handed to the modem in parts.
use android_device_generic_m.Base
use android_device_generic_m.Base.{
  ℕ, zero, suc, ◌+◌, ◌-◌, ◌*◌, ◌/◌, ◌%◌, ◌^◌, Bool, true, false, List, [], ◌∷◌, ◌++◌, length, take,
  ltb, leb, if◌then◌else◌,
}

-- `rpc_loc_predicted_orbits_data_s_type`, the members that differ from part to part.
pub record Part : Type 0 where
  pub part : ℕ
  pub bytes : List ℕ

abbrev pub drop : ℕ → List ℕ → List ℕ
drop zero bs = bs
drop (suc n) [] = []
drop (suc n) (b ∷ bs) = drop n bs

-- XTRA_BLOCK_SIZE
abbrev pub xtra_block_size : ℕ
xtra_block_size = 1024

-- The bytes of a part.
abbrev pub block : (bytes : List ℕ) → (length len_injected : ℕ) → List ℕ
block bytes length len_injected =
    take
      (if ltb (length - len_injected) xtra_block_size
        then length - len_injected
        else xtra_block_size)
      (drop len_injected bytes)

abbrev pub and_part : Part → List Part × Bool → List Part × Bool
and_part p (ps, ok) = (p ∷ ps, ok)

-- The loop: the parts that are sent, and whether no call failed. `part` has 8 bits and `len_injected` 16.
-- `ok` is what the call for a part answers.
unfoldable pub inject_parts :
    (ok : ℕ → Bool) (bytes : List ℕ) (length total_parts fuel part len_injected : ℕ)
    → List Part × Bool
inject_parts ok bytes length total_parts zero part len_injected = ([], false)
inject_parts ok bytes length total_parts (suc fuel) part len_injected =
    let b = block bytes length len_injected in
    let p : Part = record { part = part; bytes = b } in
    let rest =
      inject_parts ok bytes length total_parts fuel ((part + 1) % 2 ^ 8)
        ((len_injected + Base.length b) % 2 ^ 16) in
    if ltb total_parts part
    then ([], true)
    else if ltb part total_parts
    then if ok part then and_part p rest else (p ∷ [], false)
    else (p ∷ [], ok part)

-- `(length - 1) / XTRA_BLOCK_SIZE + 1`, for a length that is not 0.
abbrev pub parts_of : (length : ℕ) → ℕ
parts_of length = (length - 1) / xtra_block_size + 1

-- True is the return value 0. The loop ends within `total_parts` rounds where these are fewer than 2 ^ 8.
unfoldable pub qct_loc_eng_inject_xtra_data_one :
    (ok : ℕ → Bool) → (bytes : List ℕ) → List Part × Bool
qct_loc_eng_inject_xtra_data_one ok bytes =
    inject_parts ok bytes (length bytes) (parts_of (length bytes)) (parts_of (length bytes)) 1 0

abbrev pub or_again : List Part × Bool → List Part × Bool → List Part × Bool
or_again (ps, true) again = (ps, true)
or_again (ps, false) (qs, ok) = (ps ++ qs, ok)

-- Three tries, until one succeeds. `ok` has the number of the try as well.
unfoldable pub qct_loc_eng_inject_xtra_data :
    (ok : (tries part : ℕ) → Bool) → (bytes : List ℕ) → List Part × Bool
qct_loc_eng_inject_xtra_data ok bytes = or_again (qct_loc_eng_inject_xtra_data_one (ok 1) bytes) (
    or_again (qct_loc_eng_inject_xtra_data_one (ok 2) bytes)
      (qct_loc_eng_inject_xtra_data_one (ok 3) bytes))
