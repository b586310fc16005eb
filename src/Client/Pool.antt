-- ===== src/Client/Pool.antt =====
-- gps/libloc/librpc/clnt.c: the list of clients and the receive thread that serves them. `rx_mutex` is
-- held from the first test of num_clients on, so a creation or a destruction is one step.
pub mod Members
use android_device_generic_m.Base.{
  ℕ, ◌*◌, ◌/◌, ◌^◌, Bool, true, false, not, ◌&&◌, ◌||◌, Option, none, some, List, [], ◌∷◌, ◌++◌,
  ◌==◌, if◌then◌else◌,
}
use android_device_generic_m.Xdr.{int_lt, add32, minus_one}
use android_device_generic_m.Rpc.Channel.{Channel, xdr_init_common}
use android_device_generic_m.Client.{Client}

-- A client at its address.
pub record Member : Type 0 where
  pub address : ℕ
  pub client : Client

-- `clients`, `num_clients`, and whether the router device, the wake-up pipe and the receive thread are
-- there.
pub record Pool : Type 0 where
  pub clients : List Member
  pub num_clients : ℕ
  pub router_open : Bool
  pub pipe_open : Bool
  pub rx_running : Bool

pub data PoolEvent : Type 0 where
  router_opened router_closed rx_started rx_woken rx_joined cb_joined : PoolEvent
  xdr_opened xdr_closed : (fd : ℕ) → PoolEvent

abbrev pub no_clients : Pool
no_clients = record {
  clients = [];
  num_clients = 0;
  router_open = false;
  pipe_open = false;
  rx_running = false;
}

-- `vers & 0xFFFF0000` of a 32-bit pattern.
abbrev pub major : ℕ → ℕ
major vers = vers / 2 ^ 16 * 2 ^ 16

-- The tests are `vers & 0xFFF00000` and `vers & 0x80000000` of a 32-bit pattern.
unfoldable pub client_version : ℕ → ℕ
client_version vers =
    let v = if vers / 2 ^ 20 == 0 then major vers else vers in
    if v / 2 ^ 31 == 0 then major v else v

pub record Created : Type 0 where
  pub made : Option Member
  pub pool : Pool
  pub events : List PoolEvent

abbrev pub not_made : Pool → List PoolEvent → Created
not_made p es = record { made = none; pool = p; events = es }

abbrev pub new_member : (address prog vers : ℕ) → Channel → Member
new_member address prog vers k = record {
  address = address;
  client = record {
    xdr = record k { wire = record k.wire { x_prog = prog; x_vers = vers } };
    input_xdr_busy = false;
    got_cb = false;
    cb_stop = minus_one;
    in_reset = 0;
    reset_cb = none;
  };
}

-- What is opened or started for the first client only. Nobody looks at what pthread_create says.
abbrev pub for_first : Pool → (now before : Bool) → Bool
for_first p now before = if p.num_clients == 0 then now else before

abbrev pub join_pool : (thread_ok : Bool) → Member → Pool → List PoolEvent → Created
join_pool thread_ok m p es = record {
  made = some m;
  pool = record {
    clients = m ∷ p.clients;
    num_clients = add32 p.num_clients 1;
    router_open = for_first p true p.router_open;
    pipe_open = for_first p true p.pipe_open;
    rx_running = for_first p thread_ok p.rx_running;
  };
  events =
      es
      ++ (if p.num_clients == 0
          then (if thread_ok then rx_started ∷ [] else [])
          else rx_woken ∷ []);
}

abbrev pub when_first : Pool → PoolEvent → List PoolEvent
when_first p e = if p.num_clients == 0 then e ∷ [] else []

abbrev pub create_open :
    (address prog vers : ℕ) (pipe_ok thread_ok : Bool) → Option Channel → Pool → Created
create_open address prog vers pipe_ok thread_ok none p =
    not_made p (when_first p router_opened ++ when_first p router_closed)
create_open address prog vers pipe_ok thread_ok (some k) p =
    let opened = when_first p router_opened ++ xdr_opened k.fd ∷ [] in
    if p.num_clients == 0 && not pipe_ok
    then not_made p (opened ++ router_closed ∷ [])
    else join_pool thread_ok (new_member address prog vers k) p opened

-- `calloc` is the address of the new client; `router` and `opened` are what the two r_open return, and
-- `pipe_ok` and `thread_ok` say whether pipe and pthread_create succeed.
unfoldable pub clnt_create :
    (calloc : Option ℕ) (router opened : ℕ) (pipe_ok thread_ok : Bool) (prog vers : ℕ)
    → Pool
    → Created
clnt_create none router opened pipe_ok thread_ok prog vers p = not_made p []
clnt_create (some address) router opened pipe_ok thread_ok prog vers p =
    if p.num_clients == 0 && int_lt router 0
    then not_made p []
    else create_open address prog (client_version vers) pipe_ok thread_ok
        (xdr_init_common opened true) p

unfoldable pub is_member : (address : ℕ) → List Member → Bool
is_member address [] = false
is_member address (m ∷ ms) = m.address == address || is_member address ms

unfoldable pub drop_member : (address : ℕ) → List Member → List Member
drop_member address [] = []
drop_member address (m ∷ ms) =
    let rest = drop_member address ms in if m.address == address then ms else m ∷ rest

abbrev pub leave : (address : ℕ) → Pool → Pool
leave address p =
    if is_member address p.clients
    then record p {
      clients = drop_member address p.clients;
      num_clients = add32 p.num_clients minus_one;
    }
    else p

abbrev pub close_empty : Pool → Pool × List PoolEvent
close_empty p =
    if p.num_clients == 0
    then (
      record p { router_open = false; pipe_open = false; rx_running = false },
      rx_woken ∷ (rx_joined ∷ (router_closed ∷ [])),
    )
    else (p, [])

abbrev pub stop_cb : Member → List PoolEvent
stop_cb m = if m.client.cb_stop == 0 then cb_joined ∷ [] else []

-- None is the null pointer.
unfoldable pub clnt_destroy : Option Member → Pool → Pool × List PoolEvent
clnt_destroy none p = (p, [])
clnt_destroy (some m) p =
    let (q, es) = close_empty (leave m.address p) in
    (q, stop_cb m ++ (es ++ xdr_closed m.client.xdr.fd ∷ []))

unfoldable pub clnt_register_reset_notification_cb : (cb : ℕ) → Option Client → ℕ × Option Client
clnt_register_reset_notification_cb cb none = (1, none)
clnt_register_reset_notification_cb cb (some c) = (0, some (record c { reset_cb = some cb }))

unfoldable pub clnt_unregister_reset_notification_cb : Option Client → Option ℕ × Option Client
clnt_unregister_reset_notification_cb none = (none, none)
clnt_unregister_reset_notification_cb (some c) = (c.reset_cb, some (record c { reset_cb = none }))
