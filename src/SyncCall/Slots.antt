-- ===== src/SyncCall/Slots.antt =====
-- gps/libloc/libloc_api-rpc/src/loc_api_sync_call.c: the allocation of slots, and the flag in_use.
use android_device_generic_m.Base.{
  ℕ, suc, ◌+◌, ◌≡◌, refl, sym, ap, ◌∙◌, Bool, true, false, none, some, List, [], ◌∷◌, ◌++◌, length,
  get_or, set, if◌then◌else◌, arith,
}
use android_device_generic_m.SyncCall.{
  Entry, SyncData, any_used, unused, set_use, first_free, claim_slot, loc_alloc_slot, loc_free_slot,
}
use android_device_generic_m.SyncCall.Scan.{IsSound}

-- All of these slots are taken.
abbrev pub AllUsed : List Entry → Type 0
AllUsed [] = Unit
AllUsed (e ∷ es) = (e.slot_in_use ≡ true) × AllUsed es

pub get_or-at :
    (xs : List Entry) (e : Entry) (ys : List Entry) → get_or (xs ++ e ∷ ys) (length xs) unused ≡ e
get_or-at [] e ys = refl
get_or-at (x ∷ xs) e ys = get_or-at xs e ys

pub set-at :
    (xs : List Entry) (e f : Entry) (ys : List Entry)
    → set (xs ++ e ∷ ys) (length xs) f ≡ xs ++ f ∷ ys
set-at [] e f ys = refl
set-at (x ∷ xs) e f ys = ap (λ l. x ∷ l) (set-at xs e f ys)

pub set_use-at :
    (b : Bool) (xs : List Entry) (e : Entry) (ys : List Entry)
    → set_use b (length xs) (xs ++ e ∷ ys) ≡ xs ++ record e { slot_in_use = b } ∷ ys
set_use-at b xs e ys =
    ap (λ f. set (xs ++ e ∷ ys) (length xs) (record f { slot_in_use = b })) (get_or-at xs e ys)
    ∙ set-at xs e (record e { slot_in_use = b }) ys

first_free-at :
    (i : ℕ) (xs : List Entry) (e : Entry) (ys : List Entry)
    → AllUsed xs
    → e.slot_in_use ≡ false
    → first_free i (xs ++ e ∷ ys) ≡ some (i + length xs)
unfolding first_free
first_free-at i [] e ys k f = let z : i ≡ i + 0 = omega arith in simp f (ap some z)
first_free-at i (x ∷ xs) e ys (k, ks) f =
    let z : suc i + length xs ≡ i + suc (length xs) = omega arith in
    simp k (first_free-at (suc i) xs e ys ks f ∙ ap some z)

first_free-none : (i : ℕ) (es : List Entry) → AllUsed es → first_free i es ≡ none
unfolding first_free
first_free-none i [] k = refl
first_free-none i (e ∷ es) (k, ks) = simp k (first_free-none (suc i) es ks)

-- loc_alloc_slot takes the first free slot and changes no other, and raises in_use.
pub alloc_first :
    (d : SyncData) (xs : List Entry) (e : Entry) (ys : List Entry)
    → d.entries ≡ xs ++ e ∷ ys
    → AllUsed xs
    → e.slot_in_use ≡ false
    → loc_alloc_slot d ≡ (
      some (length xs),
      record { in_use = true; entries = xs ++ record e { slot_in_use = true } ∷ ys },
    )
unfolding loc_alloc_slot
alloc_first d xs e ys at k f =
    let z : 0 + length xs ≡ length xs = omega arith in
    ap (λ es. claim_slot d (first_free 0 es)) at
    ∙ ap (claim_slot d) (first_free-at 0 xs e ys k f ∙ ap some z)
    ∙ ap (λ es. (some (length xs), record { in_use = true; entries = es }))
        (ap (set_use true (length xs)) at ∙ set_use-at true xs e ys)

-- With every slot taken loc_alloc_slot answers -1 and changes nothing.
pub alloc_full : (d : SyncData) → AllUsed d.entries → loc_alloc_slot d ≡ (none, d)
unfolding loc_alloc_slot
alloc_full d k = ap (claim_slot d) (first_free-none 0 d.entries k)

if_same : (b : Bool) → (if b then true else false) ≡ b
if_same true = refl
if_same false = refl

-- Where in_use is right and a slot is free, freeing the slot that loc_alloc_slot gave restores all.
pub free-alloc :
    (d : SyncData) (xs : List Entry) (e : Entry) (ys : List Entry)
    → IsSound d
    → d.entries ≡ xs ++ e ∷ ys
    → AllUsed xs
    → e.slot_in_use ≡ false
    → loc_free_slot (length xs) (loc_alloc_slot d).1 ≡ d
unfolding loc_free_slot
free-alloc d xs e ys s at k f =
    let used = record e { slot_in_use = true } in
    let same : xs ++ record e { slot_in_use = false } ∷ ys ≡ d.entries =
      ap (λ b. xs ++ record e { slot_in_use = b } ∷ ys) (sym f) ∙ sym at in
    let flag : (if any_used d.entries then true else false) ≡ d.in_use =
      if_same (any_used d.entries) ∙ sym s in
    ap (λ o. loc_free_slot (length xs) o.1) (alloc_first d xs e ys at k f)
    ∙ ap (λ es. record { in_use = if any_used es then true else false; entries = es })
        (set_use-at false xs used ys ∙ same)
    ∙ ap (λ b. record d { in_use = b }) flag
