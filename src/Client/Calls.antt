-- ===== src/Client/Calls.antt =====
-- gps/libloc/librpc/clnt.c: the bytes of a call, and the messages that answer it.
use android_device_generic_m.Base.{
  ℕ, ◌≤◌, ◌≡◌, refl, ap, ◌∙◌, true, Option, none, some, List, ◌++◌, length, ◌==◌, Bool-cases, inl,
  inr, arith,
}
use android_device_generic_m.Xdr.{
  Bytes, Xdr, encode, decode, be32, emit, add32, word_at, Send, Recv,
}
use android_device_generic_m.Xdr.Transport.{call, msg_start}
use android_device_generic_m.Xdr.Wire.{Sends, Sends-both}
use android_device_generic_m.Rpc.{
  OpaqueAuth, prog_mismatch, other_accept, ReplyHeader, accepted, denied, other_reply,
  xdr_call_msg_start, xdr_recv_reply_header,
}
use android_device_generic_m.Rpc.Channel.{no_auth}
use android_device_generic_m.Rpc.CallHeader.{call_wire, call-Sends, start-emit}
use android_device_generic_m.Server.Answers.{both_assoc}
use android_device_generic_m.Client.{
  Client, wire_of, with_wire, encoded, call_encode, header_stat, decoded, header_read, same_xid,
  call_receive,
}

decoded-stat :
    {A : Type 0} (d : Client) (o : Option A × Xdr)
    → (decoded d o).stat ≡ 0
    → (a : A) × ((decoded d o).results ≡ some a)
decoded-stat d (none, x) e = absurd (omega (arith, e))
decoded-stat d (some a, x) e = (a, refl)

header-stat :
    {A : Type 0} (get : Recv A) (d : Client) (o : Option ReplyHeader × Xdr)
    → (header_read get d o).stat ≡ 0
    → ((h : ReplyHeader) × (o.0 ≡ some h) × (header_stat h ≡ 0))
      × ((a : A) × ((header_read get d o).results ≡ some a))
header-stat get d (none, x) e = absurd (omega (arith, e))
header-stat get d (some h, x) e = elim (Bool-cases (header_stat h == 0)) [
  | inl y ↦
      let (a, f) = decoded-stat d (get (record x { x_op = decode })) (rw y at e) in
      ((h, refl, ground arith), (a, rw y f))
  | inr n ↦ absurd (let f : header_stat h ≡ 0 = rw n at e in ground arith)
]

accepted_done :
    (h : ReplyHeader)
    → header_stat h ≡ 0
    → (verf : OpaqueAuth) × (h ≡ accepted verf (other_accept 0))
unfolding header_stat
accepted_done (accepted verf (prog_mismatch low high)) e = absurd (omega (arith, e))
accepted_done (accepted verf (other_accept stat)) e =
    (verf, ap (λ s. accepted verf (other_accept s)) (ground (arith, e)))
accepted_done (denied body) e = absurd (omega (arith, e))
accepted_done (other_reply stat) e = absurd (omega (arith, e))

-- A call ends with RPC_SUCCESS only for a message that begins with the xid of the call, whose header is
-- RPC_MSG_ACCEPTED with the status RPC_ACCEPT_SUCCESS, which is 0, and while the modem is not in reset; the
-- results were decoded.
pub success_own :
    {A : Type 0} (base : Bytes) (get : Recv A) (d : Client)
    → (call_receive base get d).stat ≡ 0
    → (d.in_reset ≡ 0)
      × (word_at (wire_of d).out_msg 0 ≡ word_at (wire_of d).in_msg 0)
      × ((verf : OpaqueAuth) × ((xdr_recv_reply_header base (wire_of d)).0
            ≡ some (accepted verf (other_accept 0))))
      × ((a : A) × ((call_receive base get d).results ≡ some a))
unfolding call_receive
success_own base get d e = elim (Bool-cases (d.in_reset == 0)) [
  | inr n ↦ absurd (let f : 26 ≡ 0 = rw n at e in omega (arith, f))
  | inl y ↦ elim (Bool-cases (same_xid (wire_of d))) [
    | inr n ↦ absurd (let f : 4 ≡ 0 = rw (y, n) at e in omega (arith, f))
    | inl q ↦
        let (h, r) = header-stat get d (xdr_recv_reply_header base (wire_of d)) (rw (y, q) at e) in
        let (verf, done) = accepted_done h.0 h.2 in
        (ground arith, ground (arith, q), (verf, h.1 ∙ ap some done), rw (y, q) r)
  ]
]

-- The bytes of a call with these arguments.
abbrev pub call_bytes : (proc : ℕ) → Client → List ℕ → List ℕ
call_bytes proc c ws =
    let x = wire_of c in
    be32 (add32 x.xid 1) ++ (be32 0 ++ (call_wire x.x_prog x.x_vers proc no_auth no_auth ++ ws))

short_call :
    (prog vers proc : ℕ) (ws : List ℕ)
    → length ws ≤ 18392
    → length (call_wire prog vers proc no_auth no_auth ++ ws) ≤ 18424
unfolding be32
short_call prog vers proc ws h = omega (arith, h)

abbrev call_start : (proc : ℕ) → Client → Xdr
call_start proc c =
    let x = wire_of c in
    record x { x_op = encode; x_proc = proc; xid = add32 x.xid 1; out_next = 0 }

-- A call whose arguments fit is always encoded.
pub encode-emit :
    {args : Send} {ws : List ℕ} (proc : ℕ) (c : Client)
    → c.in_reset ≡ 0
    → Sends args ws
    → length ws ≤ 18392
    → call_encode proc args c
      ≡ (none, with_wire c (emit (call_bytes proc c ws) (call_start proc c)))
unfolding call_encode xdr_call_msg_start be32
encode-emit {args} {ws} proc c r p h =
    let x = wire_of c in
    let y : Xdr = record x { x_op = encode; x_proc = proc } in
    let sends = Sends-both (call-Sends x.x_prog x.x_vers proc no_auth no_auth refl refl) p in
    let zero : (c.in_reset == 0) ≡ true = ground (arith, r) in
    let e =
      both_assoc (msg_start call y) _ args
      ∙ start-emit call y sends (short_call x.x_prog x.x_vers proc ws h) in
    rw zero (ap (encoded c) e)
