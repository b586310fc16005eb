-- ===== src/Server.antt =====
-- gps/libloc/librpc/svc.c: the services that a process offers over the router. A section that holds
-- `xprt->lock` is one step; what r_open, r_control and read answer is an argument. malloc succeeds.
pub mod Registry
pub mod Dispatch
pub mod Invariant
pub mod Kept
pub mod Reply
pub mod Answers
pub mod Served
pub mod Refcount
pub mod Threads
mod Tests
use Prim.Native.Nat.{bit_and}
use android_device_generic_m.Base.{
  ℕ, ◌+◌, ◌^◌, Bool, true, false, not, ◌&&◌, Option, none, some, List, [], ◌∷◌, ◌++◌, ◌==◌,
  if◌then◌else◌,
}
use android_device_generic_m.Xdr.{int_lt, add32, minus_one}
use android_device_generic_m.Rpc.Channel.{Channel, xdr_init_common}

-- `registered_server`; a dispatch function is known by its address.
pub record RegisteredServer : Type 0 where
  pub xdr : Option Channel
  pub x_prog : ℕ
  pub x_vers : ℕ
  pub active : ℕ
  pub dispatch : ℕ

-- `struct SVCXPRT`, without the attributes of its lock and its thread.
pub record SvcXprt : Type 0 where
  pub fdset : ℕ → Bool
  pub max_fd : ℕ
  pub servers : List RegisteredServer
  pub num_cb_servers : ℕ
  pub num_servers : ℕ
  pub in_reset : ℕ
  pub reset_cb : Option ℕ

-- What is asked of the kernel and of the thread library.
pub data SvcEvent : Type 0 where
  register_server : (fd prog vers : ℕ) → SvcEvent
  unregister_server : (fd prog vers : ℕ) → SvcEvent
  xdr_destroyed : (fd : ℕ) → SvcEvent
  thread_created : SvcEvent

-- `calloc`ed transport of svcrtr_create.
abbrev pub new_xprt : SvcXprt
new_xprt = record {
  fdset = λ n. false;
  max_fd = 0;
  servers = [];
  num_cb_servers = 0;
  num_servers = 0;
  in_reset = 0;
  reset_cb = none;
}

-- `prog & 0x01000000`
abbrev pub is_callback : ℕ → Bool
is_callback prog = not (bit_and prog (2 ^ 24) == 0)

abbrev pub names : (prog vers : ℕ) → RegisteredServer → Bool
names prog vers s = s.x_prog == prog && s.x_vers == vers

unfoldable pub svc_find_nosync : (prog vers : ℕ) → List RegisteredServer → Option RegisteredServer
svc_find_nosync prog vers [] = none
svc_find_nosync prog vers (s ∷ ss) =
    let rest = svc_find_nosync prog vers ss in if names prog vers s then some s else rest

unfoldable pub svc_find : (prog vers : ℕ) → SvcXprt → Option RegisteredServer
svc_find prog vers t = svc_find_nosync prog vers t.servers

-- The answer of svc_register, the transport it leaves and what it asked for.
pub record Registered : Type 0 where
  pub answer : Bool
  pub xprt : SvcXprt
  pub events : List SvcEvent

abbrev pub refused : SvcXprt → List SvcEvent → Registered
refused t es = record { answer = false; xprt = t; events = es }

abbrev pub count_in : Option Channel → SvcXprt → SvcXprt
count_in (some c) t = record t { num_servers = add32 t.num_servers 1 }
count_in none t = record t { num_cb_servers = add32 t.num_cb_servers 1 }

abbrev pub thread_events : ℕ → List SvcEvent
thread_events n = if n == 1 then thread_created ∷ [] else []

-- The new entry becomes the first one.
abbrev pub enlist : RegisteredServer → SvcXprt → List SvcEvent → Registered
enlist s t es =
    let u = count_in s.xdr (record t { servers = s ∷ t.servers }) in
    record { answer = true; xprt = u; events = es ++ thread_events u.num_servers }

abbrev pub fd_put : ℕ → Bool → (ℕ → Bool) → ℕ → Bool
fd_put fd b fds n = if n == fd then b else fds n

abbrev pub real_entry : (prog vers dispatch : ℕ) → Channel → RegisteredServer
real_entry prog vers dispatch c = record {
  xdr = some (record c { wire = record c.wire { x_prog = prog; x_vers = vers } });
  x_prog = prog;
  x_vers = vers;
  active = 0;
  dispatch = dispatch;
}

abbrev pub callback_entry : (prog vers dispatch : ℕ) → RegisteredServer
callback_entry prog vers dispatch = record {
  xdr = none;
  x_prog = prog;
  x_vers = vers;
  active = 0;
  dispatch = dispatch;
}

abbrev pub watch : Channel → SvcXprt → SvcXprt
watch c t = record t {
  fdset = fd_put c.fd true t.fdset;
  max_fd = if int_lt t.max_fd c.fd then c.fd else t.max_fd;
}

-- `control` is what the ioctl returned.
abbrev pub register_real : (prog vers dispatch control : ℕ) → Option Channel → SvcXprt → Registered
register_real prog vers dispatch control none t = refused t []
register_real prog vers dispatch control (some c) t =
    if int_lt control 0
    then refused t (register_server c.fd prog vers ∷ (xdr_destroyed c.fd ∷ []))
    else enlist (real_entry prog vers dispatch c) (watch c t) (register_server c.fd prog vers ∷ [])

abbrev pub register_new : (prog vers dispatch control : ℕ) → Option Channel → SvcXprt → Registered
register_new prog vers dispatch control opened t =
    if is_callback prog
    then enlist (callback_entry prog vers dispatch) t []
    else register_real prog vers dispatch control opened t

abbrev pub register_found :
    (prog vers dispatch control : ℕ)
    → Option Channel
    → SvcXprt
    → Option RegisteredServer
    → Registered
register_found prog vers dispatch control opened t (some s) = record {
  answer = s.dispatch == dispatch;
  xprt = t;
  events = [];
}
register_found prog vers dispatch control opened t none =
    register_new prog vers dispatch control opened t

-- `opened` is what r_open returned.
unfoldable pub svc_register : (prog vers dispatch control opened : ℕ) → SvcXprt → Registered
svc_register prog vers dispatch control opened t =
    register_found prog vers dispatch control (xdr_init_common opened false) t
      (svc_find_nosync prog vers t.servers)

-- The list without the first entry of that name.
unfoldable pub unlink : (prog vers : ℕ) → List RegisteredServer → List RegisteredServer
unlink prog vers [] = []
unlink prog vers (s ∷ ss) =
    let rest = unlink prog vers ss in if names prog vers s then ss else s ∷ rest

abbrev pub close : (prog vers : ℕ) → Option Channel → SvcXprt → SvcXprt × List SvcEvent
close prog vers none t = (record t { num_cb_servers = add32 t.num_cb_servers minus_one }, [])
close prog vers (some c) t =
    let u = record t { num_servers = add32 t.num_servers minus_one } in
    if is_callback prog then (u, xdr_destroyed c.fd ∷ []) else (
      record u { fdset = fd_put c.fd false t.fdset },
      unregister_server c.fd prog vers ∷ (xdr_destroyed c.fd ∷ []),
    )

abbrev pub unregister_found :
    (prog vers : ℕ) → SvcXprt → Option RegisteredServer → SvcXprt × List SvcEvent
unregister_found prog vers t none = (t, [])
unregister_found prog vers t (some s) =
    close prog vers s.xdr (record t { servers = unlink prog vers t.servers })

-- The answer of the ioctl is only logged.
unfoldable pub svc_unregister : (prog vers : ℕ) → SvcXprt → SvcXprt × List SvcEvent
svc_unregister prog vers t = unregister_found prog vers t (svc_find_nosync prog vers t.servers)

unfoldable pub svc_is_in_reset : SvcXprt → ℕ
svc_is_in_reset t = t.in_reset

unfoldable pub svc_set_in_reset : (val : ℕ) → SvcXprt → SvcXprt
svc_set_in_reset val t = record t { in_reset = val }

-- The callback that is called.
unfoldable pub svc_reset_cb : SvcXprt → Option ℕ
svc_reset_cb t = t.reset_cb

-- None is the null pointer.
unfoldable pub svc_register_reset_notification_cb : (cb : ℕ) → Option SvcXprt → ℕ × Option SvcXprt
svc_register_reset_notification_cb cb none = (1, none)
svc_register_reset_notification_cb cb (some t) = (0, some (record t { reset_cb = some cb }))

unfoldable pub svc_unregister_reset_notification_cb : Option SvcXprt → Option ℕ × Option SvcXprt
svc_unregister_reset_notification_cb none = (none, none)
svc_unregister_reset_notification_cb (some t) = (t.reset_cb, some (record t { reset_cb = none }))
