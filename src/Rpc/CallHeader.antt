-- ===== src/Rpc/CallHeader.antt =====
-- gps/libloc/librpc/rpc.c: the words at the head of a call and of a reply.
use android_device_generic_m.Base.{
  ℕ, ◌≤◌, ◌≡◌, refl, sym, ap, ◌∙◌, Bool, true, List, ◌++◌, length, length-append, arith,
}
use mathlib.Core.Path.{subst}
use android_device_generic_m.Xdr.{Xdr, window, be32, emit, add32, both, Send, ◌&&&◌}
use android_device_generic_m.Xdr.Transport.{
  RpcMsg, call, reply, msg_start, msg_code, next_xid, send_uint32, send_int32,
}
use android_device_generic_m.Xdr.Wire.{
  Sends, Room, length-be32, send_uint32-Sends, Sends-both, emit-append, window-put,
}
use android_device_generic_m.Rpc.{
  OpaqueAuth, rpc_msg_version, xdr_send_auth, xdr_call_msg_start, xdr_reply_msg_start,
}
use android_device_generic_m.Rpc.RoundTrip.{auth_wire, auth-Sends}

-- The outgoing message is exactly these bytes.
pub record Message (x : Xdr) (bs : List ℕ) : Type 0 where
  pub stop : x.out_next ≡ length bs
  pub bytes : window x.out_msg 0 (length bs) ≡ bs

abbrev pub start_wire : RpcMsg → Xdr → List ℕ
start_wire t x = be32 (next_xid t x.xid) ++ be32 (msg_code t)

msg_start_lem :
    (t : RpcMsg) (x : Xdr)
    → msg_start t x
      ≡ (true, emit (start_wire t x) (record x { xid = next_xid t x.xid; out_next = 0 }))
unfolding msg_start
msg_start_lem t x = refl

-- What is started and then written.
pub start-emit :
    {s : Send} {bs : List ℕ} (t : RpcMsg) (x : Xdr)
    → Sends s bs
    → length bs ≤ 18424
    → (msg_start t &&& s) x
      ≡ (true, emit (start_wire t x ++ bs) (record x { xid = next_xid t x.xid; out_next = 0 }))
start-emit {s} {bs} t x p h =
    let empty : Xdr = record x { xid = next_xid t x.xid; out_next = 0 } in
    let head = start_wire t x in
    let n : length head ≡ 8 = omega (
      arith,
      length-append (be32 (next_xid t x.xid)) (be32 (msg_code t)),
      length-be32 (next_xid t x.xid),
      length-be32 (msg_code t),
    ) in
    let room : Room (emit head empty) (length bs) = record {
      aligned = omega (arith, n);
      inside = omega (arith, n, h);
    } in
    ap (λ o. both o s) (msg_start_lem t x)
    ∙ p.sends (emit head empty) room
    ∙ ap (λ y. (true, y)) (emit-append head bs empty)

-- A message that was emitted into an empty buffer.
pub emit-Message : (bs : List ℕ) (x : Xdr) → x.out_next ≡ 0 → Message (emit bs x) bs
emit-Message bs x e = record { stop = omega (arith, e); bytes = rw e (window-put x.out_msg 0 bs) }

pub started :
    {s : Send} {bs : List ℕ} (t : RpcMsg) (x : Xdr)
    → Sends s bs
    → length bs ≤ 18424
    → (((msg_start t &&& s) x).0 ≡ true) × Message ((msg_start t &&& s) x).1 (start_wire t x ++ bs)
started {s} {bs} t x p h =
    let e = start-emit t x p h in
    (
      ap (λ o. o.0) e,
      subst (λ (o : Bool × Xdr). Message o.1 (start_wire t x ++ bs)) (sym e)
          (emit-Message (start_wire t x ++ bs) _ refl),
    )

-- The ten words of a call whose credential and verifier carry no bytes.
abbrev pub call_wire : (prog ver proc : ℕ) (cred verf : OpaqueAuth) → List ℕ
call_wire prog ver proc cred verf =
    be32 rpc_msg_version
    ++ (be32 prog ++ (be32 ver ++ (be32 proc ++ (auth_wire cred ++ auth_wire verf))))

abbrev pub reply_start_wire : OpaqueAuth → List ℕ
reply_start_wire verf = be32 0 ++ (auth_wire verf ++ be32 0)

pub call-Sends :
    (prog ver proc : ℕ) (cred verf : OpaqueAuth)
    → cred.oa_length ≡ 0
    → verf.oa_length ≡ 0
    → Sends
        (send_uint32 rpc_msg_version
          &&& send_uint32 prog
          &&& send_uint32 ver
          &&& send_uint32 proc
          &&& xdr_send_auth cred
          &&& xdr_send_auth verf)
        (call_wire prog ver proc cred verf)
call-Sends prog ver proc cred verf c v = Sends-both (send_uint32-Sends 2) (
    Sends-both (send_uint32-Sends prog) (
      Sends-both (send_uint32-Sends ver)
        (Sends-both (send_uint32-Sends proc) (Sends-both (auth-Sends cred c) (auth-Sends verf v)))))

pub call_wire_short :
    (prog ver proc : ℕ) (cred verf : OpaqueAuth)
    → length (call_wire prog ver proc cred verf) ≤ 18424
unfolding be32
call_wire_short prog ver proc cred verf = omega arith

pub reply_wire_short : (verf : OpaqueAuth) → length (reply_start_wire verf) ≤ 18424
unfolding be32
reply_wire_short verf = omega arith

-- A call whose credential and verifier have no body is always written, whatever the buffer held: the
-- next xid, CALL, version 2, the program, its version, the procedure, and the two authenticators.
pub call_header :
    (prog ver proc : ℕ) (cred verf : OpaqueAuth) (x : Xdr)
    → cred.oa_length ≡ 0
    → verf.oa_length ≡ 0
    → ((xdr_call_msg_start prog ver proc cred verf x).0 ≡ true)
      × Message
          (xdr_call_msg_start prog ver proc cred verf x).1
          (be32 (add32 x.xid 1) ++ be32 0 ++ call_wire prog ver proc cred verf)
unfolding xdr_call_msg_start
call_header prog ver proc cred verf x c v =
    started call (record x { x_prog = prog; x_proc = proc })
      (call-Sends prog ver proc cred verf c v) (call_wire_short prog ver proc cred verf)

-- A reply start with a verifier without a body is always written: the caller's xid, REPLY, accepted,
-- the verifier, success.
pub reply_header :
    (verf : OpaqueAuth) (x : Xdr)
    → verf.oa_length ≡ 0
    → ((xdr_reply_msg_start verf x).0 ≡ true)
      × Message (xdr_reply_msg_start verf x).1 (be32 x.xid ++ be32 1 ++ reply_start_wire verf)
unfolding xdr_reply_msg_start send_int32
reply_header verf x v =
    started reply x
      (Sends-both (send_uint32-Sends 0) (Sends-both (auth-Sends verf v) (send_uint32-Sends 0)))
      (reply_wire_short verf)
