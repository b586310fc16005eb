-- ===== src/Glue.antt =====
-- gps/libloc/libloc_api-rpc/gen-50000/loc_api_rpc_glue.c: the location API over remote calls. A remote
-- call is an argument: the status that its stub returns and the result that it fills in. A callback
-- function is known by its address; an int is its 32-bit pattern.
pub mod Callbacks
pub mod Clients
mod Tests
use android_device_generic_m.Base.{
  ℕ, zero, suc, ◌+◌, ◌-◌, ◌*◌, ◌%◌, ◌^◌, Bool, true, false, ◌||◌, Option, none, some, List, [], ◌∷◌,
  length, get_or, set, ◌==◌, ltb, if◌then◌else◌,
}
use android_device_generic_m.Xdr.{int_lt, minus_one}
use android_device_generic_m.SyncCall.{
  Payload, SyncData, loc_api_sync_call_init, loc_api_callback_process_sync_call,
}

-- `loc_api_clnt == NULL`, and otherwise.
abbrev pub if_client {ℓ} : {A : Type ℓ} → Option ℕ → A → A → A
if_client none a b = a
if_client (some c) a b = b

-- `loc_glue_cb_entry_s_type`
pub record CbEntry : Type 0 where
  pub cb_id : ℕ
  pub cb_func : Option ℕ
  pub handle : ℕ

-- The callback table, the client, and the data of the synchronous calls.
pub record Glue : Type 0 where
  pub callback_table : List CbEntry
  pub loc_api_clnt : Option ℕ
  pub sync : SyncData

-- LOC_API_CB_MAX_CLIENTS
abbrev pub max_clients : ℕ
max_clients = 16

-- RPC_LOC_API_RPC_FAILURE
abbrev pub rpc_failure : ℕ
rpc_failure = 2 ^ 32 - 1234

-- RPC_LOC_CLIENT_HANDLE_INVALID
abbrev pub handle_invalid : ℕ
handle_invalid = minus_one

-- `i | (pid << 16)` for an index below 2^16.
abbrev pub callback_id : (pid i : ℕ) → ℕ
callback_id pid i = i + pid % 2 ^ 16 * 2 ^ 16

-- The entries from `i` on, `n` of them.
unfoldable pub fresh_table : (pid i n : ℕ) → List CbEntry
fresh_table pid i zero = []
fresh_table pid i (suc n) =
    record { cb_id = callback_id pid i; cb_func = none; handle = minus_one }
    ∷ fresh_table pid (suc i) n

abbrev pub init_with : (pid : ℕ) → Option ℕ → (app_init : ℕ) → Glue → ℕ × Glue
init_with pid none app_init g = (0, record g { callback_table = fresh_table pid 0 max_clients })
init_with pid (some clnt) app_init g = (
  if int_lt app_init 0 then 0 else 1,
  record {
    callback_table = fresh_table pid 0 max_clients;
    loc_api_clnt = some clnt;
    sync = loc_api_sync_call_init g.sync;
  },
)

-- `pid`, `clnt` and `app_init` are what getpid, clnt_create and loc_apicb_app_init return.
unfoldable pub loc_api_glue_init : (pid : ℕ) (clnt : Option ℕ) (app_init : ℕ) → Glue → ℕ × Glue
loc_api_glue_init pid clnt app_init g =
    if_client g.loc_api_clnt (init_with pid clnt app_init g) (1, g)

abbrev pub same_func : Option ℕ → Option ℕ → Bool
same_func none none = true
same_func none (some g) = false
same_func (some f) none = false
same_func (some f) (some g) = f == g

-- The first index with this function, or the length.
unfoldable pub index_of_func : Option ℕ → List CbEntry → ℕ
index_of_func f [] = 0
index_of_func f (e ∷ es) =
    let rest = index_of_func f es in if same_func e.cb_func f then 0 else suc rest

unfoldable pub index_of_handle : ℕ → List CbEntry → ℕ
index_of_handle h [] = 0
index_of_handle h (e ∷ es) =
    let rest = index_of_handle h es in if e.handle == h then 0 else suc rest

-- The status of a remote call and what it returned.
pub record Remote : Type 0 where
  pub stat : ℕ
  pub result : ℕ

-- The answer, the state, and the callback id that was sent.
pub record Opened : Type 0 where
  pub answer : ℕ
  pub glue : Glue
  pub event_callback : Option ℕ

abbrev pub blank_entry : CbEntry
blank_entry = record { cb_id = 0; cb_func = none; handle = minus_one }

abbrev pub entry_at : List CbEntry → ℕ → CbEntry
entry_at es i = get_or es i blank_entry

abbrev pub open_entry : Remote → (i : ℕ) → Glue → Opened
open_entry r i g =
    let e = entry_at g.callback_table i in
    if r.stat == 0
    then record {
      answer = r.result;
      glue = record g { callback_table = set g.callback_table i (record e { handle = r.result }) };
      event_callback = some e.cb_id;
    }
    else record { answer = rpc_failure; glue = g; event_callback = some e.cb_id }

abbrev pub take_entry : Remote → Option ℕ → (i : ℕ) → Glue → Opened
take_entry r cb i g =
    let es = g.callback_table in
    if ltb i (length es)
    then open_entry r i
        (record g { callback_table = set es i (record (entry_at es i) { cb_func = cb }) })
    else record { answer = handle_invalid; glue = g; event_callback = none }

abbrev pub open_slot : Remote → Option ℕ → Glue → Opened
open_slot r cb g =
    let es = g.callback_table in
    let i = index_of_func cb es in
    if ltb i (length es) then open_entry r i g else take_entry r cb (index_of_func none es) g

-- `r` is what the stub rpc_loc_open answers; the event mask only goes to it.
unfoldable pub loc_open : Remote → (event_callback : Option ℕ) → Glue → Opened
loc_open r cb g =
    if_client g.loc_api_clnt (record { answer = rpc_failure; glue = g; event_callback = none })
      (open_slot r cb g)

abbrev pub clear_handle : ℕ → List CbEntry → List CbEntry
clear_handle h es =
    let i = index_of_handle h es in
    if ltb i (length es)
    then set es i (record (entry_at es i) { cb_func = none; handle = minus_one })
    else es

abbrev pub close_at : Remote → (handle : ℕ) → Glue → ℕ × Glue
close_at r h g =
    let d = record g { callback_table = clear_handle h g.callback_table } in
    if r.stat == 0 then (r.result, record d { loc_api_clnt = none }) else (rpc_failure, d)

unfoldable pub loc_close : Remote → (handle : ℕ) → Glue → ℕ × Glue
loc_close r h g = if_client g.loc_api_clnt (rpc_failure, g) (close_at r h g)

abbrev pub answer_of : Remote → ℕ
answer_of r = if r.stat == 0 then r.result else rpc_failure

unfoldable pub loc_start_fix : Remote → Glue → ℕ
loc_start_fix r g = if_client g.loc_api_clnt rpc_failure (answer_of r)

unfoldable pub loc_stop_fix : Remote → Glue → ℕ
loc_stop_fix r g = if_client g.loc_api_clnt rpc_failure (answer_of r)

unfoldable pub loc_api_null : Remote → Glue → ℕ
loc_api_null r g = if_client g.loc_api_clnt rpc_failure (answer_of r)

-- `rpc_loc_ioctl_data_u_type`: its discriminator and, of a server address, the kind of address and the
-- discriminator of the address.
pub record IoctlData : Type 0 where
  pub disc : ℕ
  pub addr_type : ℕ
  pub addr_info_disc : ℕ

-- RPC_LOC_IOCTL_SET_CDMA_PDE_SERVER_ADDR, _CDMA_MPC_, _UMTS_SLP_ and _CUSTOM_PDE_
abbrev pub sets_server_addr : ℕ → Bool
sets_server_addr t = t == 806 || (t == 808 || (t == 810 || t == 1001))

abbrev pub fill_disc : (ioctl_type : ℕ) → Option IoctlData → Option IoctlData
fill_disc t none = none
fill_disc t (some d) = some (
    if sets_server_addr t
    then record d { disc = t; addr_info_disc = d.addr_type }
    else record d { disc = t })

-- With the data that is sent.
unfoldable pub loc_ioctl :
    Remote → (ioctl_type : ℕ) → Option IoctlData → Glue → ℕ × Option IoctlData
loc_ioctl r t d g = if_client g.loc_api_clnt (rpc_failure, d) (answer_of r, fill_disc t d)

-- What becomes of a callback: it reads past the table, there is no function, or the synchronous calls
-- and then the function are given it.
pub data Callback : Type 0 where
  past_table : Callback
  no_handler : Callback
  forwarded : (func : ℕ) (sync : SyncData) (signalled : Option ℕ) → Callback

abbrev pub forward : (loc_handle loc_event : ℕ) → Payload → SyncData → Option ℕ → Callback
forward loc_handle loc_event p d none = no_handler
forward loc_handle loc_event p d (some f) =
    let s = loc_api_callback_process_sync_call loc_handle loc_event p d in forwarded f s.0 s.1

unfoldable pub rpc_loc_event_cb_f_type_svc :
    (cb_id loc_handle loc_event : ℕ) → Payload → Glue → Callback
rpc_loc_event_cb_f_type_svc cb_id loc_handle loc_event p g =
    let i = cb_id % 2 ^ 16 in
    if ltb max_clients i
    then no_handler
    else if ltb i (length g.callback_table)
    then forward loc_handle loc_event p g.sync (entry_at g.callback_table i).cb_func
    else past_table
