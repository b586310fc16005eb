-- ===== src/Server/Dispatch.antt =====
-- gps/libloc/librpc/svc.c: the thread that serves, and the dispatch of one call.
use android_device_generic_m.Base.{
  ℕ, zero, suc, ◌+◌, ◌*◌, Bool, true, false, not, ◌||◌, Option, none, some, List, [], ◌∷◌, ◌==◌,
  if◌then◌else◌,
}
use android_device_generic_m.Xdr.{Xdr, decode, word_at, rpc_offset, Send}
use android_device_generic_m.Rpc.Channel.{Channel}
use android_device_generic_m.Server.{RegisteredServer}

-- `struct svc_req`, without the transport.
pub record SvcReq : Type 0 where
  pub rq_prog : ℕ
  pub rq_vers : ℕ
  pub rq_proc : ℕ

-- What a dispatch function, known by its address, does to the entry it is called on.
abbrev pub Handlers : Type 0
Handlers = ℕ → SvcReq → RegisteredServer → RegisteredServer

-- The words of the message in `in_msg`.
abbrev pub in_word : ℕ → Xdr → ℕ
in_word i x = word_at x.in_msg ((rpc_offset + i) * 4)

abbrev pub request : Xdr → SvcReq
request x = record { rq_prog = in_word 3 x; rq_vers = in_word 4 x; rq_proc = in_word 5 x }

abbrev pub args_ready : Xdr → Xdr
args_ready x = record x { in_next = (rpc_offset + 6 + 4) * 4; x_op = decode }

-- The message is no call, or a call of another program or version.
abbrev pub misdirected : RegisteredServer → Xdr → Bool
misdirected s x =
    not (in_word 1 x == 0) || (not (in_word 3 x == s.x_prog) || not (in_word 4 x == x.x_vers))

abbrev pub entered : (pid : ℕ) → RegisteredServer → Channel → RegisteredServer
entered pid s c = record s { active = pid; xdr = some (record c { wire = args_ready c.wire }) }

abbrev pub dispatch_on :
    Handlers → (pid : ℕ) → RegisteredServer → Option Channel → Option RegisteredServer
dispatch_on run pid s none = none
dispatch_on run pid s (some c) =
    if misdirected s c.wire
    then some s
    else some (record (run s.dispatch (request c.wire) (entered pid s c)) { active = 0 })

-- `pid` is what getpid returns. None is the crash on an entry without an XDR.
unfoldable pub svc_dispatch : Handlers → (pid : ℕ) → RegisteredServer → Option RegisteredServer
svc_dispatch run pid s = dispatch_on run pid s s.xdr

abbrev pub on_fd : ℕ → Option Channel → Bool
on_fd n none = false
on_fd n (some c) = c.fd == n

-- `trav->xdr->xops->read` and the call; `read` is what read does to the XDR of the descriptor.
abbrev pub read_on :
    Handlers → (pid : ℕ) → RegisteredServer → Channel → Bool × Xdr → Option RegisteredServer
read_on run pid s c (false, x) = none
read_on run pid s c (true, x) =
    svc_dispatch run pid (record s { xdr = some (record c { wire = x }) })

abbrev pub receive_on :
    Handlers → (pid : ℕ) (read : Send) → RegisteredServer → Option Channel → Option RegisteredServer
receive_on run pid read s none = none
receive_on run pid read s (some c) = read_on run pid s c (read c.wire)

abbrev pub put_first :
    List RegisteredServer → Option RegisteredServer → Option (List RegisteredServer)
put_first ss none = none
put_first ss (some s) = some (s ∷ ss)

abbrev pub put_rest :
    RegisteredServer → Option (List RegisteredServer) → Option (List RegisteredServer)
put_rest s none = none
put_rest s (some ss) = some (s ∷ ss)

-- The loop over the list for one descriptor; none is abort().
unfoldable pub serve_fd :
    Handlers
    → (pid : ℕ) (read : Send) (n : ℕ) → List RegisteredServer
    → Option (List RegisteredServer)
serve_fd run pid read n [] = some []
serve_fd run pid read n (s ∷ ss) =
    let rest = serve_fd run pid read n ss in
    if on_fd n s.xdr then put_first ss (receive_on run pid read s s.xdr) else put_rest s rest

abbrev pub next_fds :
    (List RegisteredServer → Option (List RegisteredServer))
    → Option (List RegisteredServer)
    → Option (List RegisteredServer)
next_fds f none = none
next_fds f (some ss) = f ss

-- `for (n = 0; n <= max_fd; n++)`, `count` descriptors from `n` on.
unfoldable pub serve_from :
    Handlers
    → (pid : ℕ) (read : ℕ → Send) (rfds : ℕ → Bool) (count n : ℕ) → List RegisteredServer
    → Option (List RegisteredServer)
serve_from run pid read rfds zero n ss = some ss
serve_from run pid read rfds (suc k) n ss =
    next_fds (serve_from run pid read rfds k (suc n))
      (if rfds n then serve_fd run pid (read n) n ss else some ss)

-- One round of svc_context after select answered more than 0 with `rfds`.
unfoldable pub svc_round :
    Handlers
    → (pid : ℕ) (read : ℕ → Send) (rfds : ℕ → Bool) (max_fd : ℕ) → List RegisteredServer
    → Option (List RegisteredServer)
svc_round run pid read rfds max_fd ss = serve_from run pid read rfds (suc max_fd) 0 ss
