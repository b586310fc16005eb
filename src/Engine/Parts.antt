-- ===== src/Engine/Parts.antt =====
-- gps/libloc/libloc_api/loc_eng_xtra.cpp: the parts that are handed to the modem make up the data.
use android_device_generic_m.Base.{
  ℕ, zero, suc, ◌+◌, ◌-◌, ◌*◌, ◌%◌, ◌^◌, ◌≤◌, ◌<◌, ◌≡◌, refl, sym, ap, ◌∙◌, Bool, true, false, List,
  [], ◌∷◌, ◌++◌, length, take, append-nil, ltb, lt→ltb, Bool-cases, inl, inr, if◌then◌else◌, arith,
}
use mathlib.Core.Path.{ap₂}
use android_device_generic_m.Engine.Xtra.{
  Part, drop, block, and_part, inject_parts, parts_of, qct_loc_eng_inject_xtra_data_one,
}

-- The bytes of all parts, one after the other.
abbrev pub joined : List Part → List ℕ
joined [] = []
joined (p ∷ ps) = p.bytes ++ joined ps

-- The parts carry the numbers from `k` on.
abbrev pub Numbered : (k : ℕ) → List Part → Type 0
Numbered k [] = Unit
Numbered k (p ∷ ps) = (p.part ≡ k) × (length p.bytes ≤ 1024) × Numbered (suc k) ps

take-drop : (n : ℕ) (bs : List ℕ) → take n bs ++ drop n bs ≡ bs
take-drop zero bs = refl
take-drop (suc n) [] = refl
take-drop (suc n) (b ∷ bs) = ap (λ l. b ∷ l) (take-drop n bs)

drop-drop : (i n : ℕ) (bs : List ℕ) → drop n (drop i bs) ≡ drop (i + n) bs
drop-drop zero n bs = let e : n ≡ 0 + n = omega arith in ap (λ k. drop k bs) e
drop-drop (suc i) zero [] = let e : suc i + 0 ≡ suc i = omega arith in rw e refl
drop-drop (suc i) (suc n) [] = let e : suc i + suc n ≡ suc (i + suc n) = omega arith in rw e refl
drop-drop (suc i) n (b ∷ bs) =
    let e : suc i + n ≡ suc (i + n) = omega arith in rw e (drop-drop i n bs)

length-drop : (n : ℕ) (bs : List ℕ) → length (drop n bs) ≡ length bs - n
length-drop zero bs = omega arith
length-drop (suc n) [] = omega arith
length-drop (suc n) (b ∷ bs) = omega (arith, length-drop n bs)

length-take : (n : ℕ) (bs : List ℕ) → n ≤ length bs → length (take n bs) ≡ n
length-take zero bs h = refl
length-take (suc n) [] h = absurd (omega arith)
length-take (suc n) (b ∷ bs) h = ap suc (length-take n bs (omega arith))

take-all : (n : ℕ) (bs : List ℕ) → length bs ≤ n → take n bs ≡ bs
take-all zero [] h = refl
take-all zero (b ∷ bs) h = absurd (omega arith)
take-all (suc n) [] h = refl
take-all (suc n) (b ∷ bs) h = ap (λ l. b ∷ l) (take-all n bs (omega arith))

-- A block that is not the last one, and the last one.
block-full :
    (bs : List ℕ) (i : ℕ)
    → i + 1024 ≤ length bs
    → (length (block bs (length bs) i) ≡ 1024)
      × (block bs (length bs) i ++ drop (i + 1024) bs ≡ drop i bs)
block-full bs i h =
    let n : ltb (length bs - i) 1024 ≡ false = ground (arith, h) in
    (
      rw n (length-take 1024 (drop i bs) (omega (arith, h, length-drop i bs))),
      rw n (
          ap (λ l. take 1024 (drop i bs) ++ l) (sym (drop-drop i 1024 bs))
          ∙ take-drop 1024 (drop i bs)),
    )

block-last : (bs : List ℕ) (i : ℕ) → length bs ≤ i + 1024 → block bs (length bs) i ≡ drop i bs
block-last bs i h =
    take-all (if ltb (length bs - i) 1024 then length bs - i else 1024) (drop i bs)
      (ground (arith, length-drop i bs, h))

-- The parts from number `p` on, with the first `i` bytes sent before.
abbrev Complete : (bs : List ℕ) (total p i : ℕ) → List Part × Bool → Type 0
Complete bs total p i r =
    r.1 ≡ true → (joined r.0 ≡ drop i bs) × Numbered p r.0 × (length r.0 + p ≡ suc total)

module _ (ok : ℕ → Bool) (bs : List ℕ) (total : ℕ) (is_total : total ≡ parts_of (length bs))
    (some_bytes : 0 < length bs) (short : length bs ≤ 65536) where
  abbrev part_at : (p i : ℕ) → Part
  part_at p i = record { part = p; bytes = block bs (length bs) i }

  last-part :
      (fuel p i : ℕ)
      → p ≡ total
      → inject_parts ok bs (length bs) total (suc fuel) p i ≡ (part_at p i ∷ [], ok p)
  unfolding inject_parts
  last-part fuel p i h =
      let n : ltb total p ≡ false = ground arith in
      let m : ltb p total ≡ false = ground arith in rw (n, m) refl

  failed-part :
      (fuel p i : ℕ)
      → p < total
      → ok p ≡ false
      → inject_parts ok bs (length bs) total (suc fuel) p i ≡ (part_at p i ∷ [], false)
  unfolding inject_parts
  failed-part fuel p i h o =
      let n : ltb total p ≡ false = ground arith in rw (n, lt→ltb p total h, o) refl

  next-part :
      (fuel p i : ℕ)
      → p < total
      → i + 1024 ≡ p * 1024
      → ok p ≡ true
      → inject_parts ok bs (length bs) total (suc fuel) p i
        ≡ and_part (part_at p i) (inject_parts ok bs (length bs) total fuel (suc p) (i + 1024))
  unfolding inject_parts
  next-part fuel p i h e o =
      let n : ltb total p ≡ false = ground arith in
      let f = (block-full bs i (omega (arith, e, is_total, some_bytes, h))).0 in
      let s : (p + 1) % 2 ^ 8 ≡ suc p = omega (arith, is_total, short, h) in
      let t : (i + length (block bs (length bs) i)) % 2 ^ 16 ≡ i + 1024 =
        omega (arith, f, e, is_total, short, h) in
      rw (n, lt→ltb p total h, o)
        (ap₂ (λ q j. and_part (part_at p i) (inject_parts ok bs (length bs) total fuel q j)) s t)

  -- Where the loop succeeds, its parts make up what was left.
  parts-Complete :
      (fuel p i : ℕ)
      → p ≤ total
      → i + 1024 ≡ p * 1024
      → total < p + fuel
      → Complete bs total p i (inject_parts ok bs (length bs) total fuel p i)
  parts-Complete zero p i h e f r = absurd (omega arith)
  parts-Complete (suc fuel) p i h e f r = elim (Bool-cases (ltb p total)) [
    | inl more ↦
        let lt : p < total = ground (arith, more) in
        elim (Bool-cases (ok p)) [
          | inl fine ↦
              let q = next-part fuel p i lt e fine in
              let (a, b, c) =
                parts-Complete fuel (suc p) (i + 1024) (omega (arith, lt)) (omega (arith, e))
                  (omega (arith, f)) (rw q at r) in
              let (g, j) = block-full bs i (omega (arith, e, is_total, some_bytes, lt)) in
              rw q (
                ap (λ l. block bs (length bs) i ++ l) a ∙ j,
                (refl, omega (arith, g), b),
                omega (arith, c),
              )
          | inr bad ↦
              let z : false ≡ true = sym (ap (λ o. o.1) (failed-part fuel p i lt bad)) ∙ r in cc
        ]
    | inr done ↦
        let same : p ≡ total = ground (arith, done, h) in
        let b = block-last bs i (omega (arith, e, is_total, some_bytes, same)) in
        rw (last-part fuel p i same) (
          append-nil (block bs (length bs) i) ∙ b,
          (refl, omega (arith, ap length b, length-drop i bs, e, is_total, some_bytes, same), tt),
          omega (arith, same),
        )
  ]

  -- Where no call fails, the loop succeeds.
  parts-succeed :
      (fuel p i : ℕ)
      → ((q : ℕ) → ok q ≡ true)
      → p ≤ total
      → i + 1024 ≡ p * 1024
      → total < p + fuel
      → (inject_parts ok bs (length bs) total fuel p i).1 ≡ true
  parts-succeed zero p i g h e f = absurd (omega arith)
  parts-succeed (suc fuel) p i g h e f = elim (Bool-cases (ltb p total)) [
    | inl more ↦
        let lt : p < total = ground (arith, more) in
        ap (λ o. o.1) (next-part fuel p i lt e (g p))
        ∙ parts-succeed fuel (suc p) (i + 1024) g (omega (arith, lt)) (omega (arith, e))
            (omega (arith, f))
    | inr done ↦
        let same : p ≡ total = ground (arith, done, h) in
        ap (λ o. o.1) (last-part fuel p i same) ∙ g p
  ]

-- Data of at most 65536 bytes, at least one. Where an injection succeeds, its parts are numbered from 1,
-- have at most 1024 bytes each, are as many as total_parts says and make up the data. Where no call fails
-- an injection does succeed.
pub injected_whole :
    (ok ok' : ℕ → Bool) (bs : List ℕ)
    → 0 < length bs
    → length bs ≤ 65536
    → (qct_loc_eng_inject_xtra_data_one ok bs).1 ≡ true
    → ((q : ℕ) → ok' q ≡ true)
    → (joined (qct_loc_eng_inject_xtra_data_one ok bs).0 ≡ bs)
      × Numbered 1 (qct_loc_eng_inject_xtra_data_one ok bs).0
      × (length (qct_loc_eng_inject_xtra_data_one ok bs).0 ≡ parts_of (length bs))
      × ((qct_loc_eng_inject_xtra_data_one ok' bs).1 ≡ true)
unfolding qct_loc_eng_inject_xtra_data_one
injected_whole ok ok' bs h k r g =
    let t = parts_of (length bs) in
    let (a, b, c) =
      parts-Complete ok bs t refl h k t 1 0 (omega arith) (omega arith) (omega arith) r in
    (
      a,
      b,
      omega (arith, c),
      parts-succeed ok' bs t refl h k t 1 0 g (omega arith) (omega arith) (omega arith),
    )
