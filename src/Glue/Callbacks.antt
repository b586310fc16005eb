-- ===== src/Glue/Callbacks.antt =====
-- gps/libloc/libloc_api-rpc/gen-50000/loc_api_rpc_glue.c: which function a callback reaches.
use android_device_generic_m.Base.{
  ℕ, zero, suc, ◌+◌, ◌%◌, ◌^◌, ◌<◌, ◌≡◌, refl, sym, ap, ◌∙◌, true, false, Option, none, some, List,
  [], ◌∷◌, length, set, length-set, ltb, Bool-cases, inl, inr, if◌then◌else◌, arith,
}
use mathlib.Core.Bool.{true≢false}
use android_device_generic_m.SyncCall.{Payload, loc_api_callback_process_sync_call}
use android_device_generic_m.Glue.{
  CbEntry, Glue, max_clients, callback_id, fresh_table, same_func, index_of_func, entry_at,
  Callback, past_table, forwarded, forward, rpc_loc_event_cb_f_type_svc,
}

-- The callback ids of the entries from `i` on.
abbrev pub Numbered : (pid i : ℕ) → List CbEntry → Type 0
Numbered pid i [] = Unit
Numbered pid i (e ∷ es) = (e.cb_id ≡ callback_id pid i) × Numbered pid (suc i) es

-- A table as the initialisation makes it, but for its functions and handles.
pub record IsTable (pid : ℕ) (es : List CbEntry) : Type 0 where
  pub full : length es ≡ max_clients
  pub ids : Numbered pid 0 es

fresh-Numbered : (pid i n : ℕ) → Numbered pid i (fresh_table pid i n)
unfolding fresh_table
fresh-Numbered pid i zero = tt
fresh-Numbered pid i (suc n) = (refl, fresh-Numbered pid (suc i) n)

pub fresh-IsTable : (pid : ℕ) → IsTable pid (fresh_table pid 0 max_clients)
unfolding fresh_table
fresh-IsTable pid = record { full = refl; ids = fresh-Numbered pid 0 16 }

set-Numbered :
    (pid k i : ℕ) (es : List CbEntry) (e : CbEntry)
    → e.cb_id ≡ (entry_at es i).cb_id
    → Numbered pid k es
    → Numbered pid k (set es i e)
set-Numbered pid k i [] e h n = tt
set-Numbered pid k zero (b ∷ es) e h (n, ns) = (h ∙ n, ns)
set-Numbered pid k (suc i) (b ∷ es) e h (n, ns) = (n, set-Numbered pid (suc k) i es e h ns)

pub set-IsTable :
    (pid i : ℕ) (es : List CbEntry) (e : CbEntry)
    → e.cb_id ≡ (entry_at es i).cb_id
    → IsTable pid es
    → IsTable pid (set es i e)
set-IsTable pid i es e h t = record {
  full = length-set es i e ∙ t.full;
  ids = set-Numbered pid 0 i es e h t.ids;
}

pub Numbered-at :
    (pid k i : ℕ) (es : List CbEntry)
    → i < length es
    → Numbered pid k es
    → (entry_at es i).cb_id ≡ callback_id pid (k + i)
Numbered-at pid k i [] h n = absurd (omega (arith, h))
Numbered-at pid k zero (e ∷ es) h (n, ns) =
    let z : k ≡ k + 0 = omega arith in n ∙ ap (callback_id pid) z
Numbered-at pid k (suc i) (e ∷ es) h (n, ns) =
    let z : suc k + i ≡ k + suc i = omega arith in
    Numbered-at pid (suc k) i es (omega (arith, h)) ns ∙ ap (callback_id pid) z

same_func_lem : (f g : Option ℕ) → same_func f g ≡ true → f ≡ g
same_func_lem none none h = refl
same_func_lem none (some g) h = absurd (true≢false (sym h))
same_func_lem (some f) none h = absurd (true≢false (sym h))
same_func_lem (some f) (some g) h = let e : f ≡ g = ground (arith, h) in ap some e

-- The entry at the index that was found has the function that was looked for.
pub func_at :
    (f : Option ℕ) (es : List CbEntry)
    → index_of_func f es < length es
    → (entry_at es (index_of_func f es)).cb_func ≡ f
unfolding index_of_func
func_at f [] h = absurd (omega (arith, h))
func_at f (e ∷ es) h = elim (Bool-cases (same_func e.cb_func f)) [
  | inl y ↦ rw y (same_func_lem e.cb_func f y)
  | inr n ↦ rw n (
      func_at f es
        (let k : suc (index_of_func f es) < suc (length es) = rw n at h in omega (arith, k)))
]

pub ltb_lem : (a b : ℕ) → ltb a b ≡ true → a < b
ltb_lem a b h = ground (arith, h)

-- A callback with the id of an entry goes to the function of that entry.
pub svc_reaches :
    (pid i h ev f : ℕ) (p : Payload) (g : Glue)
    → i < max_clients
    → length g.callback_table ≡ max_clients
    → (entry_at g.callback_table i).cb_func ≡ some f
    → rpc_loc_event_cb_f_type_svc (callback_id pid i) h ev p g
      ≡ forwarded f
          (loc_api_callback_process_sync_call h ev p g.sync).0
          (loc_api_callback_process_sync_call h ev p g.sync).1
unfolding rpc_loc_event_cb_f_type_svc
svc_reaches pid i h ev f p g small full e =
    let es = g.callback_table in
    let index : callback_id pid i % 2 ^ 16 ≡ i = omega (arith, small) in
    let low : ltb max_clients i ≡ false = ground (arith, small) in
    let inside : ltb i (length es) ≡ true = ground (arith, small, full) in
    let go = λ (k : ℕ). forward h ev p g.sync (entry_at es k).cb_func in
    ap
      (λ k.
        if ltb max_clients k
        then Callback.no_handler
        else if ltb k (length es)
        then go k
        else past_table)
      index
    ∙ ap (λ b. if b then Callback.no_handler else if ltb i (length es) then go i else past_table)
        low
    ∙ ap (λ b. if b then go i else past_table) inside
    ∙ ap (forward h ev p g.sync) e

-- The lower half of the id decides. With the index 16 the test of the code passes, and the entry is read
-- from behind the table.
pub past_table_lem :
    (cb_id h ev pid : ℕ) (p : Payload) (g : Glue)
    → IsTable pid g.callback_table
    → cb_id % 2 ^ 16 ≡ max_clients
    → rpc_loc_event_cb_f_type_svc cb_id h ev p g ≡ past_table
unfolding rpc_loc_event_cb_f_type_svc
past_table_lem cb_id h ev pid p g t e =
    let es = g.callback_table in
    let low : ltb max_clients (cb_id % 2 ^ 16) ≡ false = ground (arith, e) in
    let full = t.full in
    let out : ltb (cb_id % 2 ^ 16) (length es) ≡ false = ground (arith, e, full) in
    rw (low, out) refl
