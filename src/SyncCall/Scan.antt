-- ===== src/SyncCall/Scan.antt =====
-- gps/libloc/libloc_api-rpc/src/loc_api_sync_call.c: which slot takes a callback.
use mathlib.Core.Bool.{true≢false}
use mathlib.Core.Path.{ap₂}
use android_device_generic_m.Base.{
  ℕ, suc, ◌+◌, ◌≡◌, refl, sym, ap, ◌∙◌, Bool, Bool-cases, inl, inr, true, false, ◌||◌, Option, none,
  some, List, [], ◌∷◌, ◌++◌, length, if◌then◌else◌, arith,
}
use android_device_generic_m.SyncCall.{
  Payload, Entry, SyncData, Scanned, wants, take_callback, scan, pass, store_scan, any_used,
  loc_api_callback_process_sync_call,
}

-- The flag says whether some slot is in use.
abbrev pub IsSound : SyncData → Type 0
IsSound d = d.in_use ≡ any_used d.entries

-- No slot of these takes the callback.
abbrev pub Passes : (loc_handle loc_event : ℕ) → Payload → List Entry → Type 0
Passes h ev p [] = Unit
Passes h ev p (e ∷ es) = (wants h ev p e ≡ false) × Passes h ev p es

abbrev pub taken : (loc_event : ℕ) → Payload → Entry → Entry
taken ev p e = record e { slot = take_callback ev p e.slot }

abbrev pub woken : Entry → ℕ → Option ℕ
woken e i = if e.slot.loc_cb_is_waiting then some i else none

pub or_assoc : (a b c : Bool) → ((a || b) || c) ≡ (a || (b || c))
or_assoc true b c = refl
or_assoc false b c = refl

pub or_true : (a : Bool) → (a || true) ≡ true
or_true true = refl
or_true false = refl

or_false : (a : Bool) → a ≡ (a || false)
or_false true = refl
or_false false = refl

pub wants-in_use :
    (h ev : ℕ) (p : Payload) (e : Entry) → wants h ev p e ≡ true → e.slot_in_use ≡ true
unfolding wants
wants-in_use h ev p e w = elim (Bool-cases e.slot_in_use) [
  | inl y ↦ y
  | inr n ↦ absurd (true≢false (sym w ∙ simp n))
]

pub any_used-at :
    (xs : List Entry) (e : Entry) (ys : List Entry)
    → e.slot_in_use ≡ true
    → any_used (xs ++ e ∷ ys) ≡ true
unfolding any_used
any_used-at [] e ys y = simp y
any_used-at (x ∷ xs) e ys y = simp (any_used-at xs e ys y, or_true x.slot_in_use)

scan-none :
    (h ev : ℕ) (p : Payload) (i : ℕ) (u : Bool) (es : List Entry)
    → Passes h ev p es
    → scan h ev p i u es ≡ record { scanned = es; seen_in_use = u || any_used es; signalled = none }
unfolding scan any_used
scan-none h ev p i u [] k =
    ap (λ b. record { scanned = []; seen_in_use = b; signalled = none }) (or_false u)
scan-none h ev p i u (e ∷ es) (k, ks) =
    simp (
      k,
      scan-none h ev p (suc i) (u || e.slot_in_use) es ks,
      or_assoc u e.slot_in_use (any_used es),
    )

scan_first :
    (h ev : ℕ) (p : Payload) (i : ℕ) (u : Bool) (xs : List Entry) (e : Entry) (ys : List Entry)
    → Passes h ev p xs
    → wants h ev p e ≡ true
    → scan h ev p i u (xs ++ e ∷ ys) ≡ record {
      scanned = xs ++ taken ev p e ∷ ys;
      seen_in_use = true;
      signalled = woken e (i + length xs);
    }
unfolding scan
scan_first h ev p i u [] e ys k w =
    let z : i ≡ i + 0 = omega arith in
    let hit : Bool → ℕ → Scanned =
      λ b n. record { scanned = taken ev p e ∷ ys; seen_in_use = b; signalled = woken e n } in
    let rest = scan h ev p (suc i) (u || e.slot_in_use) ys in
    ap (λ b. if b then hit (u || e.slot_in_use) i else pass e rest) w
    ∙ ap₂ hit (ap (λ b. u || b) (wants-in_use h ev p e w) ∙ or_true u) z
scan_first h ev p i u (x ∷ xs) e ys (k, ks) w =
    let z : suc i + length xs ≡ i + suc (length xs) = omega arith in
    let tail = scan_first h ev p (suc i) (u || x.slot_in_use) xs e ys ks w in
    simp k (
      ap (pass x) tail
      ∙ ap
          (λ n. record {
            scanned = x ∷ (xs ++ taken ev p e ∷ ys);
            seen_in_use = true;
            signalled = woken e n;
          })
          z)

-- A callback that some slot in use waits for is taken by the first such slot, and by no other; its
-- thread is signalled if it sleeps.
pub callback_taken :
    (h ev : ℕ) (p : Payload) (d : SyncData) (xs : List Entry) (e : Entry) (ys : List Entry)
    → IsSound d
    → d.entries ≡ xs ++ e ∷ ys
    → Passes h ev p xs
    → wants h ev p e ≡ true
    → loc_api_callback_process_sync_call h ev p d
      ≡ (record d { entries = xs ++ taken ev p e ∷ ys }, woken e (length xs))
unfolding loc_api_callback_process_sync_call
callback_taken h ev p d xs e ys s at k w =
    let on : d.in_use ≡ true = s ∙ ap any_used at ∙ any_used-at xs e ys (wants-in_use h ev p e w) in
    let z : 0 + length xs ≡ length xs = omega arith in
    ap (λ b. if b then store_scan d (scan h ev p 0 false d.entries) else (d, none)) on
    ∙ ap (λ es. store_scan d (scan h ev p 0 false es)) at
    ∙ ap (store_scan d) (scan_first h ev p 0 false xs e ys k w)
    ∙ ap (λ n. (record d { entries = xs ++ taken ev p e ∷ ys }, woken e n)) z

-- A callback that no slot in use waits for changes nothing.
pub callback_ignored :
    (h ev : ℕ) (p : Payload) (d : SyncData)
    → IsSound d
    → Passes h ev p d.entries
    → loc_api_callback_process_sync_call h ev p d ≡ (d, none)
unfolding loc_api_callback_process_sync_call
callback_ignored h ev p d s k =
    let step : Bool → SyncData × Option ℕ =
      λ b. if b then store_scan d (scan h ev p 0 false d.entries) else (d, none) in
    elim (Bool-cases d.in_use) [
      | inl on ↦
          ap step on
          ∙ ap (store_scan d) (scan-none h ev p 0 false d.entries k)
          ∙ ap (λ b. (record d { in_use = if b then d.in_use else false }, none)) (sym s ∙ on)
      | inr off ↦ ap step off
    ]
