-- ===== src/Server/Answers.antt =====
-- gps/libloc/librpc/svc.c: the bytes of the replies.
use android_device_generic_m.Base.{
  ℕ, ◌≤◌, ◌≡◌, ◌≢◌, refl, sym, ap, ◌∙◌, Bool, true, false, List, ◌++◌, length, length-append, ◌==◌,
  Bool-cases, inl, inr, ne→not_eq, arith,
}
use mathlib.Core.Path.{subst}
use android_device_generic_m.Xdr.{Xdr, encode, window, be32, emit, both, Send, ◌&&&◌}
use android_device_generic_m.Xdr.Transport.{reply, msg_start, msg_send, msg_abort, send_int32}
use android_device_generic_m.Xdr.Wire.{
  Sends, Sends-both, length-be32, length-window, send_uint32-Sends,
}
use android_device_generic_m.Xdr.Patch.{window-patch}
use android_device_generic_m.Rpc.{OpaqueAuth, accepted, other_accept, xdr_reply_msg_start}
use android_device_generic_m.Rpc.RoundTrip.{auth_wire, auth-Sends, reply-Sends, Bare, IsWord}
use android_device_generic_m.Rpc.CallHeader.{Message, start-emit, emit-Message, reply_start_wire}
use android_device_generic_m.Rpc.Channel.{no_auth}
use android_device_generic_m.Server.Reply.{
  copy_xid, reply_with, svc_sendreply, svcerr_xdr_send, or_abort, svcerr_decode, svcerr_systemerr,
  svcerr_noproc,
}

pub both_assoc : (o : Bool × Xdr) (s t : Send) → both (both o s) t ≡ both o (s &&& t)
both_assoc (true, x) s t = refl
both_assoc (false, x) s t = refl

-- A reply behind its xid: REPLY, accepted, no verifier, success, and the results.
abbrev pub success_wire : List ℕ → List ℕ
success_wire bs = be32 1 ++ (reply_start_wire no_auth ++ bs)

short_wire : (bs : List ℕ) → length bs ≤ 18408 → length (reply_start_wire no_auth ++ bs) ≤ 18424
unfolding be32
short_wire bs h = omega (arith, h)

-- The reply before the xid of the call is copied.
reply-emit :
    (results : Send) (bs : List ℕ) (x : Xdr)
    → Sends results bs
    → length bs ≤ 18408
    → (xdr_reply_msg_start no_auth &&& results) x
      ≡ (true, emit (be32 x.xid ++ success_wire bs) (record x { out_next = 0 }))
unfolding xdr_reply_msg_start send_int32 be32
reply-emit results bs x p h =
    let start =
      Sends-both (send_uint32-Sends 0)
        (Sends-both (auth-Sends no_auth refl) (send_uint32-Sends 0)) in
    both_assoc (msg_start reply x) _ results
    ∙ start-emit reply x (Sends-both start p) (short_wire bs h)

-- `bs` behind the xid of the call in `in_msg`.
abbrev pub answer_wire : Xdr → List ℕ → List ℕ
answer_wire x bs = window x.in_msg 0 4 ++ success_wire bs

copied-Message :
    (xid : ℕ) (bs : List ℕ) (ret : ℕ) (x : Xdr)
    → Message
        (msg_send ret (copy_xid (emit (be32 xid ++ success_wire bs) (record x { out_next = 0 })))).1
        (answer_wire x bs)
unfolding msg_send
copied-Message xid bs ret x =
    let n : length (be32 xid) ≡ length (window x.in_msg 0 4) =
      length-be32 xid ∙ sym (length-window x.in_msg 0 4) in
    record {
      stop = omega (
        arith,
        n,
        length-append (be32 xid) (success_wire bs),
        length-append (window x.in_msg 0 4) (success_wire bs),
      );
      bytes = window-patch x.out_msg (be32 xid) (window x.in_msg 0 4) (success_wire bs) n;
    }

-- While a call is served, results that fit are always sent, behind the xid of that call, REPLY,
-- accepted, an empty verifier and success; what the router device answers does not matter.
pub sendreply_lem :
    (ret : ℕ) (results : Send) (bs : List ℕ) (active : ℕ) (x : Xdr)
    → active ≢ 0
    → Sends results bs
    → length bs ≤ 18408
    → ((svc_sendreply ret results active x).0 ≡ true)
      × Message (svc_sendreply ret results active x).1 (answer_wire x bs)
unfolding svc_sendreply
sendreply_lem ret results bs active x a p h =
    let e = ap (reply_with ret) (reply-emit results bs (record x { x_op = encode }) p h) in
    rw (ne→not_eq a) (
      ap (λ (o : Bool × Xdr). o.0) e,
      subst (λ (o : Bool × Xdr). Message o.1 (answer_wire x bs)) (sym e)
          (copied-Message x.xid bs ret (record x { x_op = encode })),
    )

-- The reply that names an error: the xid that the XDR has, REPLY, accepted, the verifier, the status.
abbrev pub error_wire : (xid stat : ℕ) → OpaqueAuth → List ℕ
error_wire xid stat verf = (be32 xid ++ be32 1) ++ (be32 0 ++ (auth_wire verf ++ be32 stat))

or_abort-msg_send : (ret : ℕ) (x : Xdr) → or_abort (msg_send ret x) ≡ record x { xdr_err = ret }
unfolding msg_send msg_abort
or_abort-msg_send ret x = elim (Bool-cases (ret == x.out_next)) [
  | inl y ↦ rw y refl
  | inr n ↦ rw n refl
]

error_short :
    (stat : ℕ) (verf : OpaqueAuth) → length (be32 0 ++ (auth_wire verf ++ be32 stat)) ≤ 18424
unfolding be32
error_short stat verf = omega arith

-- What the router device answered is kept: the message was handed to it.
error_sent :
    (ret stat : ℕ) (verf : OpaqueAuth) (x : Xdr)
    → verf.oa_length ≡ 0
    → IsWord verf.oa_flavor
    → stat ≤ 6
    → stat ≢ 2
    → (or_abort (svcerr_xdr_send ret stat verf x)).xdr_err ≡ ret
unfolding svcerr_xdr_send
error_sent ret stat verf x v w k n =
    let bare : Bare verf.oa_base verf = record { flavor = w; none_follow = v; kept = refl } in
    let sends = reply-Sends verf.oa_base (accepted verf (other_accept stat)) (bare, (k, n)) in
    let e =
      sym (both_assoc (msg_start reply x) _ (msg_send ret))
      ∙ ap (λ o. both o (msg_send ret)) (start-emit reply x sends (error_short stat verf)) in
    ap (λ (y : Xdr). y.xdr_err) (ap or_abort e ∙ or_abort-msg_send ret _)

error_lem :
    (ret stat : ℕ) (verf : OpaqueAuth) (x : Xdr)
    → verf.oa_length ≡ 0
    → IsWord verf.oa_flavor
    → stat ≤ 6
    → stat ≢ 2
    → Message (or_abort (svcerr_xdr_send ret stat verf x)) (error_wire x.xid stat verf)
unfolding svcerr_xdr_send
error_lem ret stat verf x v w k n =
    let bare : Bare verf.oa_base verf = record { flavor = w; none_follow = v; kept = refl } in
    let sends = reply-Sends verf.oa_base (accepted verf (other_accept stat)) (bare, (k, n)) in
    let e =
      sym (both_assoc (msg_start reply x) _ (msg_send ret))
      ∙ ap (λ o. both o (msg_send ret)) (start-emit reply x sends (error_short stat verf)) in
    let f = ap or_abort e ∙ or_abort-msg_send ret _ in
    subst (λ (y : Xdr). Message y (error_wire x.xid stat verf)) (sym f)
      (let m = emit-Message (error_wire x.xid stat verf) (record x { out_next = 0 }) refl in
        record { stop = m.stop; bytes = m.bytes })

-- While a call is served, each of the three errors under a verifier without a body is written, as accepted
-- with its status and behind the xid that the XDR has, and handed to the router device, whatever that
-- answers: its answer is what the XDR keeps.
pub errors_reported :
    (ret active : ℕ) (verf : OpaqueAuth) (x : Xdr)
    → active ≢ 0
    → verf.oa_length ≡ 0
    → IsWord verf.oa_flavor
    → Message (svcerr_decode ret verf active x) (error_wire x.xid 4 verf)
      × Message (svcerr_systemerr ret verf active x) (error_wire x.xid 5 verf)
      × Message (svcerr_noproc ret verf active x) (error_wire x.xid 3 verf)
      × ((svcerr_decode ret verf active x).xdr_err ≡ ret)
      × ((svcerr_systemerr ret verf active x).xdr_err ≡ ret)
      × ((svcerr_noproc ret verf active x).xdr_err ≡ ret)
unfolding svcerr_decode svcerr_systemerr svcerr_noproc
errors_reported ret active verf x a v w = rw (ne→not_eq a) (
  error_lem ret 4 verf x v w (omega arith) (omega arith),
  error_lem ret 5 verf x v w (omega arith) (omega arith),
  error_lem ret 3 verf x v w (omega arith) (omega arith),
  error_sent ret 4 verf x v w (omega arith) (omega arith),
  error_sent ret 5 verf x v w (omega arith) (omega arith),
  error_sent ret 3 verf x v w (omega arith) (omega arith),
)
