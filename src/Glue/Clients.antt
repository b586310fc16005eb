-- ===== src/Glue/Clients.antt =====
-- gps/libloc/libloc_api-rpc/gen-50000/loc_api_rpc_glue.c: the clients of the location API, opened and
-- closed over one RPC client.
use android_device_generic_m.Base.{
  ℕ, ◌+◌, ◌<◌, ◌≡◌, refl, sym, ap, ◌∙◌, true, Option, none, some, List, length, set, length-set,
  get_or-set_self, ◌==◌, ltb, Bool-cases, inl, inr, arith,
}
use mathlib.Core.Option.{some-injective, none-ne-some}
use android_device_generic_m.SyncCall.{Payload, loc_api_callback_process_sync_call}
use android_device_generic_m.Glue.{
  CbEntry, Glue, max_clients, if_client, answer_of, rpc_failure, callback_id, loc_api_glue_init,
  init_with, index_of_func, index_of_handle, Remote, Opened, entry_at, blank_entry, open_entry,
  take_entry, open_slot, loc_open, clear_handle, close_at, loc_close, loc_start_fix, loc_stop_fix,
  forwarded, rpc_loc_event_cb_f_type_svc,
}
use android_device_generic_m.Glue.Callbacks.{
  IsTable, fresh-IsTable, set-IsTable, Numbered-at, func_at, ltb_lem, svc_reaches,
}

if_client_lem :
    {A : Type 0} (P : A → Type 0) (o : Option ℕ) {a b : A}
    → (o ≡ none → P a)
    → ((c : ℕ) → o ≡ some c → P b)
    → P (if_client o a b)
if_client_lem P none p q = p refl
if_client_lem P (some c) p q = q c refl

-- The id that was sent is that of an entry with this function.
record Registered (pid cb : ℕ) (o : Opened) : Type 0 where
  index : ℕ
  small : index < max_clients
  sent : o.event_callback ≡ some (callback_id pid index)
  full : length o.glue.callback_table ≡ max_clients
  func : (entry_at o.glue.callback_table index).cb_func ≡ some cb

open_entry-Registered :
    (pid cb i : ℕ) (r : Remote) (g : Glue)
    → IsTable pid g.callback_table
    → i < max_clients
    → (entry_at g.callback_table i).cb_func ≡ some cb
    → Registered pid cb (open_entry r i g)
open_entry-Registered pid cb i r g t small f =
    let es = g.callback_table in
    let full = t.full in
    let inside : i < length es = omega (arith, small, full) in
    let zero : 0 + i ≡ i = omega arith in
    let id = ap some (Numbered-at pid 0 i es inside t.ids ∙ ap (callback_id pid) zero) in
    elim (Bool-cases (r.stat == 0)) [
      | inr n ↦ simp n (record { index = i; small = small; sent = id; full = full; func = f })
      | inl y ↦
          let e = record (entry_at es i) { handle = r.result } in
          simp y (record {
            index = i;
            small = small;
            sent = id;
            full = length-set es i e ∙ full;
            func = ap (λ (q : CbEntry). q.cb_func) (get_or-set_self es i e blank_entry inside) ∙ f;
          })
    ]

take_entry-Registered :
    (pid cb i id : ℕ) (r : Remote) (g : Glue)
    → IsTable pid g.callback_table
    → (take_entry r (some cb) i g).event_callback ≡ some id
    → Registered pid cb (take_entry r (some cb) i g)
take_entry-Registered pid cb i id r g t s =
    let es = g.callback_table in
    let full = t.full in
    let e = record (entry_at es i) { cb_func = some cb } in
    elim (Bool-cases (ltb i (length es))) [
      | inr n ↦ absurd (none-ne-some id (simp n at s))
      | inl y ↦
          let inside = ltb_lem i (length es) y in
          let h = record g { callback_table = set es i e } in
          simp y (
            open_entry-Registered pid cb i r h (set-IsTable pid i es e refl t)
              (omega (arith, inside, full))
              (ap (λ (q : CbEntry). q.cb_func) (get_or-set_self es i e blank_entry inside)))
    ]

slot-Registered :
    (pid cb id : ℕ) (r : Remote) (g : Glue)
    → IsTable pid g.callback_table
    → (open_slot r (some cb) g).event_callback ≡ some id
    → Registered pid cb (open_slot r (some cb) g)
slot-Registered pid cb id r g t s =
    let es = g.callback_table in
    let i = index_of_func (some cb) es in
    let full = t.full in
    elim (Bool-cases (ltb i (length es))) [
      | inl y ↦
          let inside = ltb_lem i (length es) y in
          simp y (
            open_entry-Registered pid cb i r g t (omega (arith, inside, full))
              (func_at (some cb) es inside))
      | inr n ↦ simp n (take_entry-Registered pid cb (index_of_func none es) id r g t (simp n at s))
    ]

-- What happens in a process with this pid, from a time when it has no client.
pub data Reached (pid : ℕ) : Glue → Type 0 where
  cold : (g : Glue) → g.loc_api_clnt ≡ none → Reached pid g
  after_init :
      (clnt : Option ℕ) (app_init : ℕ) {g : Glue}
      → Reached pid g
      → Reached pid (loc_api_glue_init pid clnt app_init g).1
  after_open :
      (r : Remote) (cb : Option ℕ) {g : Glue} → Reached pid g → Reached pid (loc_open r cb g).glue
  after_close : (r : Remote) (h : ℕ) {g : Glue} → Reached pid g → Reached pid (loc_close r h g).1

-- While there is a client the table is in order.
abbrev pub Ready : (pid : ℕ) → Glue → Type 0
Ready pid g = (c : ℕ) → g.loc_api_clnt ≡ some c → IsTable pid g.callback_table

entry-IsTable :
    (pid i : ℕ) (r : Remote) (g : Glue)
    → IsTable pid g.callback_table
    → IsTable pid (open_entry r i g).glue.callback_table
entry-IsTable pid i r g t = elim (Bool-cases (r.stat == 0)) [
  | inr n ↦ simp n t
  | inl y ↦ simp y (set-IsTable pid i g.callback_table _ refl t)
]

take-IsTable :
    (pid i : ℕ) (r : Remote) (cb : Option ℕ) (g : Glue)
    → IsTable pid g.callback_table
    → IsTable pid (take_entry r cb i g).glue.callback_table
take-IsTable pid i r cb g t = elim (Bool-cases (ltb i (length g.callback_table))) [
  | inr n ↦ simp n t
  | inl y ↦
      let e = record (entry_at g.callback_table i) { cb_func = cb } in
      simp y (
        entry-IsTable pid i r (record g { callback_table = set g.callback_table i e })
          (set-IsTable pid i g.callback_table e refl t))
]

slot-IsTable :
    (pid : ℕ) (r : Remote) (cb : Option ℕ) (g : Glue)
    → IsTable pid g.callback_table
    → IsTable pid (open_slot r cb g).glue.callback_table
slot-IsTable pid r cb g t =
    let es = g.callback_table in
    elim (Bool-cases (ltb (index_of_func cb es) (length es))) [
      | inl y ↦ simp y (entry-IsTable pid (index_of_func cb es) r g t)
      | inr n ↦ simp n (take-IsTable pid (index_of_func none es) r cb g t)
    ]

clear-IsTable : (pid h : ℕ) (es : List CbEntry) → IsTable pid es → IsTable pid (clear_handle h es)
clear-IsTable pid h es t = elim (Bool-cases (ltb (index_of_handle h es) (length es))) [
  | inl y ↦ simp y (set-IsTable pid (index_of_handle h es) es _ refl t)
  | inr n ↦ simp n t
]

init-Ready :
    (pid : ℕ) (clnt : Option ℕ) (app_init : ℕ) (g : Glue)
    → Ready pid (init_with pid clnt app_init g).1
init-Ready pid none app_init g c e = fresh-IsTable pid
init-Ready pid (some d) app_init g c e = fresh-IsTable pid

close-Ready :
    (pid : ℕ) (r : Remote) (h : ℕ) (g : Glue)
    → IsTable pid g.callback_table
    → Ready pid (close_at r h g).1
close-Ready pid r h g t = elim (Bool-cases (r.stat == 0)) [
  | inl y ↦ simp y (λ c e. clear-IsTable pid h g.callback_table t)
  | inr n ↦ simp n (λ c e. clear-IsTable pid h g.callback_table t)
]

-- Whatever was initialised, opened and closed, while there is a client its table has sixteen entries
-- with the ids of this process.
pub Reached-Ready : {pid : ℕ} {g : Glue} → Reached pid g → Ready pid g
unfolding loc_api_glue_init loc_open loc_close
Reached-Ready (cold g none_yet) = λ c e. absurd (none-ne-some c (sym none_yet ∙ e))
Reached-Ready {pid} (after_init clnt app_init {g} k) =
    if_client_lem (λ (o : ℕ × Glue). Ready pid o.1) g.loc_api_clnt
      (λ e. init-Ready pid clnt app_init g) (λ c e. Reached-Ready k)
Reached-Ready {pid} (after_open r cb {g} k) =
    if_client_lem (λ (o : Opened). Ready pid o.glue) g.loc_api_clnt (λ e. Reached-Ready k)
      (λ c e d f. slot-IsTable pid r cb g (Reached-Ready k c e))
Reached-Ready {pid} (after_close r h {g} k) =
    if_client_lem (λ (o : ℕ × Glue). Ready pid o.1) g.loc_api_clnt (λ e. Reached-Ready k)
      (λ c e. close-Ready pid r h g (Reached-Ready k c e))

-- In a process that was set up and used in any way, once loc_open has sent a callback id for a function,
-- a callback with that id is given to the synchronous calls and then to that function.
pub opened_reaches :
    {pid : ℕ} {g : Glue} (r : Remote) (cb id h ev : ℕ) (p : Payload)
    → Reached pid g
    → (loc_open r (some cb) g).event_callback ≡ some id
    → rpc_loc_event_cb_f_type_svc id h ev p (loc_open r (some cb) g).glue
      ≡ forwarded cb
          (loc_api_callback_process_sync_call h ev p (loc_open r (some cb) g).glue.sync).0
          (loc_api_callback_process_sync_call h ev p (loc_open r (some cb) g).glue.sync).1
unfolding loc_open
opened_reaches {pid} {g} r cb id h ev p k =
    if_client_lem
      (λ (o : Opened).
        o.event_callback ≡ some id
        → rpc_loc_event_cb_f_type_svc id h ev p o.glue
          ≡ forwarded cb (loc_api_callback_process_sync_call h ev p o.glue.sync).0
              (loc_api_callback_process_sync_call h ev p o.glue.sync).1)
      g.loc_api_clnt (λ e s. absurd (none-ne-some id s))
      (λ c e s.
        let t = slot-Registered pid cb id r g (Reached-Ready k c e) s in
        let o = open_slot r (some cb) g in
        let same : id ≡ callback_id pid t.index = some-injective _ _ (sym s ∙ t.sent) in
        ap (λ i. rpc_loc_event_cb_f_type_svc i h ev p o.glue) same
        ∙ svc_reaches pid t.index h ev cb p o.glue t.small t.full t.func)

-- A close that succeeds takes the one RPC client away: every operation of every other client then
-- answers RPC_LOC_API_RPC_FAILURE without a call, whatever the engine would say.
pub close_closes_all :
    (r q : Remote) (h c : ℕ) (cb : Option ℕ) (g : Glue)
    → g.loc_api_clnt ≡ some c
    → r.stat ≡ 0
    → (loc_start_fix q (loc_close r h g).1 ≡ rpc_failure)
      × (loc_stop_fix q (loc_close r h g).1 ≡ rpc_failure)
      × ((loc_close q h (loc_close r h g).1).0 ≡ rpc_failure)
      × ((loc_open q cb (loc_close r h g).1).answer ≡ rpc_failure)
unfolding loc_start_fix loc_stop_fix loc_close loc_open
close_closes_all r q h c cb g e z =
    let d : Glue = (loc_close r h g).1 in
    let gone : d.loc_api_clnt ≡ none =
      ap (λ o. (if_client o (rpc_failure, g) (close_at r h g)).1.loc_api_clnt) e
      ∙ (let y : (r.stat == 0) ≡ true = ground (arith, z) in rw y refl) in
    (
      ap (λ o. if_client o rpc_failure (answer_of q)) gone,
      ap (λ o. if_client o rpc_failure (answer_of q)) gone,
      ap (λ o. (if_client o (rpc_failure, d) (close_at q h d)).0) gone,
      ap
          (λ o.
            (if_client o (record { answer = rpc_failure; glue = d; event_callback = none })
              (open_slot q cb d)).answer)
          gone,
    )
