-- ===== src/Client/Callback.antt =====
-- gps/libloc/librpc/clnt.c: a call that arrives for a callback program, from the callback thread to the
-- service of svc.c.
use android_device_generic_m.Base.{
  ℕ, suc, ◌+◌, ◌^◌, ◌≤◌, ◌<◌, ◌≡◌, refl, sym, ap, ◌∙◌, true, false, not, none, some, ◌==◌, ltb,
  if◌then◌else◌, arith,
}
use mathlib.Core.Path.{ap₂}
use android_device_generic_m.Xdr.{Bytes, Xdr, int_lt, word_at}
use android_device_generic_m.Rpc.Channel.{Channel, no_auth, zero_xdr, xdr_clone}
use android_device_generic_m.Server.{
  RegisteredServer, SvcXprt, svc_find, svc_is_in_reset, svc_set_in_reset,
}
use android_device_generic_m.Server.Registry.{found-names, same_name}
use android_device_generic_m.Server.Dispatch.{
  Handlers, SvcReq, in_word, request, entered, misdirected, svc_dispatch,
}
use android_device_generic_m.Server.Served.{with_message}
use android_device_generic_m.Client.{Client, wire_of}
use android_device_generic_m.Client.Receive.{
  restart_begin, restart_end, reset_told, no_data, dispatched, bad_length, clip, clone_wire,
  transplant, without_xdr, cb_cloned, cb_found, cb_round,
}

-- A word inside what was copied.
word_at-clip : (n i : ℕ) (b : Bytes) → i + 4 ≤ n → word_at (clip n b) i ≡ word_at b i
unfolding word_at
word_at-clip n i b h =
    let p : ltb i n ≡ true = ground (arith, h) in
    let q : ltb (suc i) n ≡ true = ground (arith, h) in
    let r : ltb (suc (suc i)) n ≡ true = ground (arith, h) in
    let s : ltb (suc (suc (suc i))) n ≡ true = ground (arith, h) in rw (p, q, r, s) refl

-- The channel that was cloned, with the message.
abbrev pub cloned_channel : (dup : ℕ) → Client → Channel
cloned_channel dup c = record {
  fd = dup;
  is_client = c.xdr.is_client;
  verf = no_auth;
  wire = record zero_xdr { x_prog = (wire_of c).x_prog; x_vers = (wire_of c).x_vers };
}

same : {a b : ℕ} → a ≡ b → (a == b) ≡ true
same h = ground arith

-- A message that reached its service by name, and is a call, is not misdirected.
directed :
    (c : Client) (s : RegisteredServer) (k : Channel) (t : SvcXprt)
    → svc_find (in_word 3 (wire_of c)) (in_word 4 (wire_of c)) t ≡ some s
    → in_word 1 (wire_of c) ≡ 0
    → 24 ≤ (wire_of c).in_len
    → misdirected (with_message s k (clone_wire c k.wire)) (clone_wire c k.wire) ≡ false
unfolding svc_find
directed c s k t e call long =
    let x = wire_of c in
    let (p, v) =
      same_name s.x_prog s.x_vers (in_word 3 x) (in_word 4 x)
        (found-names (in_word 3 x) (in_word 4 x) t.servers s e) in
    let kind = same (word_at-clip x.in_len 4 x.in_msg (omega (arith, long)) ∙ call) in
    let prog = same (word_at-clip x.in_len 12 x.in_msg (omega (arith, long)) ∙ sym p) in
    let vers = same (word_at-clip x.in_len 16 x.in_msg (omega (arith, long))) in
    rw (kind, prog, vers) refl

request-clone :
    (c : Client) (y : Xdr)
    → 24 ≤ (wire_of c).in_len
    → request (clone_wire c y) ≡ request (wire_of c)
request-clone c y long =
    let x = wire_of c in
    let w = λ (i : ℕ) (h : i + 4 ≤ x.in_len). word_at-clip x.in_len i x.in_msg h in
    ap₂ (λ a b. record { rq_prog = a; rq_vers = b; rq_proc = in_word 5 (clone_wire c y) })
      (w 12 (omega (arith, long))) (w 16 (omega (arith, long)))
    ∙ ap (λ a. record { rq_prog = in_word 3 x; rq_vers = in_word 4 x; rq_proc = a })
        (w 20 (omega (arith, long)))

-- What the service of a callback program becomes: its function has run on the request, and the XDR that
-- was lent to it is taken away.
abbrev pub called_back : Handlers → (pid dup : ℕ) → Client → RegisteredServer → RegisteredServer
called_back run pid dup c s =
    let k = cloned_channel dup c in
    let y = clone_wire c k.wire in
    record (run s.dispatch (request (wire_of c))
      (entered pid (with_message s k y) (record k { wire = y }))) { active = 0; xdr = none }

dispatch-clone :
    (run : Handlers) (pid dup : ℕ) (c : Client) (s : RegisteredServer) (t : SvcXprt)
    → svc_find (in_word 3 (wire_of c)) (in_word 4 (wire_of c)) t ≡ some s
    → in_word 1 (wire_of c) ≡ 0
    → 24 ≤ (wire_of c).in_len
    → without_xdr (svc_dispatch run pid (transplant c s (cloned_channel dup c)))
      ≡ some (called_back run pid dup c s)
unfolding svc_dispatch
dispatch-clone run pid dup c s t e call long =
    let k = cloned_channel dup c in
    let y = clone_wire c k.wire in
    let r = with_message s k y in
    let d = λ (q : SvcReq). run s.dispatch q (entered pid r (record k { wire = y })) in
    ap (λ b. without_xdr (if b then some r else some (record (d (request y)) { active = 0 })))
      (directed c s k t e call long)
    ∙ ap (λ q. some (record (d q) { active = 0; xdr = none })) (request-clone c k.wire long)

not_negative : (n : ℕ) → n < 2 ^ 31 → int_lt n 0 ≡ false
not_negative n h = ground (arith, h)

-- A call that has arrived on a client, for a program and a version that the process has registered, is
-- handed to the function of that service with a clone of the XDR of the client: the request is the one
-- of the message, an XDR that the service still had is destroyed, the clone is gone afterwards, and the
-- input buffer of the client is free again.
pub callback_served :
    (run : Handlers) (pid dup : ℕ) (t : SvcXprt) (c : Client) (s : RegisteredServer)
    → c.got_cb ≡ true
    → c.in_reset ≡ svc_is_in_reset t
    → svc_find (in_word 3 (wire_of c)) (in_word 4 (wire_of c)) t ≡ some s
    → in_word 1 (wire_of c) ≡ 0
    → 24 ≤ (wire_of c).in_len
    → (wire_of c).in_len < 2 ^ 31
    → (wire_of c).out_next < 2 ^ 31
    → dup < 2 ^ 31
    → cb_round run pid dup t c
      ≡ dispatched s.xdr
          (record c { got_cb = false; input_xdr_busy = false })
          (some (called_back run pid dup c s))
unfolding cb_round xdr_clone
callback_served run pid dup t c s got calm found call long short out descriptor =
    let x = wire_of c in
    let d = record c { got_cb = false } in
    let ready = not_negative x.in_len short in
    let clear = not_negative x.out_next out in
    let alive = not_negative dup descriptor in
    ap
      (λ b.
        if not b
        then reset_told (if c.in_reset == 0 then restart_end else restart_begin)
            (svc_set_in_reset c.in_reset t)
        else if not c.got_cb
        then no_data
        else cb_found run pid dup d (svc_find (in_word 3 x) (in_word 4 x) t))
      (same calm)
    ∙ ap
        (λ b.
          if not b
          then no_data
          else cb_found run pid dup d (svc_find (in_word 3 x) (in_word 4 x) t))
        got
    ∙ ap (cb_found run pid dup d) found
    ∙ ap
        (λ b.
          if b
          then bad_length s.xdr d
          else if int_lt x.out_next 0
          then bad_length s.xdr d
          else cb_cloned run pid d s (xdr_clone dup d.xdr))
        ready
    ∙ ap (λ b. if b then bad_length s.xdr d else cb_cloned run pid d s (xdr_clone dup d.xdr)) clear
    ∙ ap (λ b. cb_cloned run pid d s (if b then none else some (cloned_channel dup c))) alive
    ∙ ap (dispatched s.xdr (record d { input_xdr_busy = false }))
        (dispatch-clone run pid dup d s t found call long)
