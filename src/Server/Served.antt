-- ===== src/Server/Served.antt =====
-- gps/libloc/librpc/svc.c: which service a message reaches.
use android_device_generic_m.Base.{
  ℕ, ◌≡◌, refl, sym, ap, ◌∙◌, Bool, true, false, Option, none, some, List, [], ◌∷◌, ◌++◌, ◌==◌, not,
  ◌&&◌, ◌||◌, if◌then◌else◌, ==_refl, arith,
}
use android_device_generic_m.Xdr.{Xdr, decode, word_at, Send}
use android_device_generic_m.Rpc.Channel.{Channel}
use android_device_generic_m.Server.{RegisteredServer}
use android_device_generic_m.Server.Dispatch.{
  Handlers, SvcReq, svc_dispatch, on_fd, read_on, receive_on, put_first, put_rest, serve_fd,
}
use android_device_generic_m.Server.Invariant.{Unused, Apart, Tidy}

-- The entry after it has read `x`.
abbrev pub with_message : RegisteredServer → Channel → Xdr → RegisteredServer
with_message s c x = record s { xdr = some (record c { wire = x }) }

-- The message is a call, of the program and the version of the entry: its words at bytes 4, 12 and 16.
abbrev pub calls_own : RegisteredServer → Xdr → Bool
calls_own s x =
    word_at x.in_msg 4 == 0 && (word_at x.in_msg 12 == s.x_prog && word_at x.in_msg 16 == x.x_vers)

-- The entry after the message `x` is done with: its dispatch function has run with the request, on the entry
-- that is active in the process `pid` and reads on behind the ten words of the header.
abbrev pub handled : Handlers → (pid : ℕ) → RegisteredServer → Channel → Xdr → RegisteredServer
handled run pid s c x =
    let q : SvcReq = record {
      rq_prog = word_at x.in_msg 12;
      rq_vers = word_at x.in_msg 16;
      rq_proc = word_at x.in_msg 20;
    } in
    let busy : RegisteredServer = record s {
      active = pid;
      xdr = some (record c { wire = record x { in_next = 40; x_op = decode } });
    } in
    if calls_own s x then record (run s.dispatch q busy) { active = 0 } else with_message s c x

by_tests :
    {A : Type 0} (a b c : Bool) (hit miss : A)
    → (if not a || (not b || not c) then some miss else some hit)
      ≡ some (if a && (b && c) then hit else miss)
by_tests true true true hit miss = refl
by_tests true true false hit miss = refl
by_tests true false c hit miss = refl
by_tests false b c hit miss = refl

-- Exactly the calls of the own program and version run the dispatch function of an entry, with the
-- request named and the arguments next to be read, and it is active for that long. Any other message
-- leaves it as it was.
pub dispatch_lem :
    (run : Handlers) (pid : ℕ) (s : RegisteredServer) (c : Channel) (x : Xdr)
    → svc_dispatch run pid (with_message s c x) ≡ some (handled run pid s c x)
unfolding svc_dispatch
dispatch_lem run pid s c x =
    by_tests (word_at x.in_msg 4 == 0) (word_at x.in_msg 12 == s.x_prog)
      (word_at x.in_msg 16 == x.x_vers) _ _

Unused-middle :
    (fd : ℕ) (before : List RegisteredServer) (s : RegisteredServer) (after : List RegisteredServer)
    → Unused fd (before ++ s ∷ after)
    → on_fd fd s.xdr ≡ false
Unused-middle fd [] s after u = u.0
Unused-middle fd (b ∷ before) s after u = Unused-middle fd before s after u.1

yes_no : (a : ℕ) → (a == a) ≡ false → ⊥
yes_no a h = ground arith

flip_not : (a b : ℕ) → (b == a) ≡ false → (a == b) ≡ false
flip_not a b h = ground arith

earlier :
    (fds : ℕ → Bool) (o : Option Channel) (before after : List RegisteredServer)
    → (s : RegisteredServer) (c : Channel) → s.xdr ≡ some c
    → Apart o (before ++ s ∷ after)
    → on_fd c.fd o ≡ false
earlier fds none before after s c e a = refl
earlier fds (some b) before after s c e a =
    flip_not b.fd c.fd (ap (on_fd b.fd) (sym e) ∙ Unused-middle b.fd before s after a)

-- Among registered services that are in order, a whole message on a descriptor reaches the one service
-- that reads from it and changes no other. A call of its program and version runs its dispatch function, on
-- the request that the message names and with the arguments next to be read, and the service is active for
-- that long; any other message leaves it as it was, with that message.
pub served :
    (run : Handlers) (pid : ℕ) (read : Send) (fds : ℕ → Bool)
    → (before : List RegisteredServer) (s : RegisteredServer) (after : List RegisteredServer)
    → (c : Channel) (x : Xdr) → Tidy fds (before ++ s ∷ after)
    → s.xdr ≡ some c
    → read c.wire ≡ (true, x)
    → serve_fd run pid read c.fd (before ++ s ∷ after)
      ≡ some (before ++ handled run pid s c x ∷ after)
unfolding serve_fd
served run pid read fds [] s after c x t e r =
    ap
      (λ o.
        if on_fd c.fd o
        then put_first after (receive_on run pid read s o)
        else put_rest s (serve_fd run pid read c.fd after))
      e
    ∙ rw (==_refl c.fd) (
        ap (λ o. put_first after (read_on run pid s c o)) r
        ∙ ap (put_first after) (dispatch_lem run pid s c x))
served run pid read fds (b ∷ before) s after c x (i, a, t) e r =
    ap
      (λ q.
        if q
        then put_first (before ++ s ∷ after) (receive_on run pid read b b.xdr)
        else put_rest b (serve_fd run pid read c.fd (before ++ s ∷ after)))
      (earlier fds b.xdr before after s c e a)
    ∙ ap (put_rest b) (served run pid read fds before s after c x t e r)
