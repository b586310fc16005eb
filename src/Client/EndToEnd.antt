-- ===== src/Client/EndToEnd.antt =====
-- gps/libloc/librpc: a call through clnt.c, svc.c and back.
use android_device_generic_m.Base.{
  ℕ, ◌≤◌, ◌≡◌, ◌≢◌, refl, sym, ap, ◌∙◌, true, false, Option, some, List, ◌++◌, length,
  length-append, append_assoc, ◌==◌, ne→not_eq, arith,
}
use mathlib.Core.Path.{subst}
use android_device_generic_m.Xdr.{Bytes, Xdr, decode, window, be32, word_at, add32, Send, Recv}
use android_device_generic_m.Xdr.Wire.{
  Pending-split, Sends, Receives, Pending, skip, length-window, window-split,
}
use android_device_generic_m.Rpc.{accepted, other_accept, OpaqueAuth, xdr_recv_reply_header}
use android_device_generic_m.Rpc.RoundTrip.{IsWord, auth_wire, reply-Receives, Bare}
use android_device_generic_m.Rpc.Channel.{no_auth}
use android_device_generic_m.Rpc.CallHeader.{Message, reply_start_wire, call_wire, emit-Message}
use android_device_generic_m.Server.{RegisteredServer}
use android_device_generic_m.Server.Dispatch.{request, args_ready, misdirected}
use android_device_generic_m.Server.Reply.{
  svc_getargs, svc_sendreply, svcerr_decode, svcerr_systemerr, svcerr_noproc,
}
use android_device_generic_m.Server.Answers.{
  success_wire, answer_wire, sendreply_lem, errors_reported, error_wire,
}
use android_device_generic_m.Client.{
  Client, wire_of, call_encode, call_receive, same_xid, Called, header_read, decoded, header_stat,
}
use android_device_generic_m.Client.ClntStat
use android_device_generic_m.Client.Calls.{call_bytes, encode-emit}
use android_device_generic_m.Client.Arrival.{
  Delivered, Arrived, arrive, Arrived-Pending, word_front,
}

pub sent-Message :
    {args : Send} {ws : List ℕ} (proc : ℕ) (c : Client)
    → c.in_reset ≡ 0
    → Sends args ws
    → length ws ≤ 18392
    → Message (wire_of (call_encode proc args c).1) (call_bytes proc c ws)
sent-Message {args} {ws} proc c r p h =
    let m = emit-Message (call_bytes proc c ws) _ refl in
    subst (λ (o : Option ℕ × Client). Message (wire_of o.1) (call_bytes proc c ws))
      (sym (encode-emit proc c r p h)) m

add32-IsWord : (a b : ℕ) → IsWord (add32 a b)
add32-IsWord a b = omega arith

-- A call that was read is for the program and the version of its client, and names its procedure.
call-words :
    (proc : ℕ) (c : Client) (ws : List ℕ) (z : Xdr)
    → IsWord (wire_of c).x_prog
    → IsWord (wire_of c).x_vers
    → IsWord proc
    → Arrived z (call_bytes proc c ws)
    → (word_at z.in_msg 0 ≡ add32 (wire_of c).xid 1)
      × (word_at z.in_msg 4 ≡ 0)
      × (word_at z.in_msg 12 ≡ (wire_of c).x_prog)
      × (word_at z.in_msg 16 ≡ (wire_of c).x_vers)
      × (word_at z.in_msg 20 ≡ proc)
unfolding be32
call-words proc c ws z p v q m =
    let x = wire_of c in
    let (xid, r) = word_front z.in_msg 0 (add32 x.xid 1) _ (add32-IsWord x.xid 1) m.bytes in
    let (kind, r1) = word_front z.in_msg 4 0 _ (omega arith) r in
    let (version, r2) = word_front z.in_msg 8 2 _ (omega arith) r1 in
    let (prog, r3) = word_front z.in_msg 12 x.x_prog _ p r2 in
    let (vers, r4) = word_front z.in_msg 16 x.x_vers _ v r3 in
    let (procedure, r5) = word_front z.in_msg 20 proc _ q r4 in (xid, kind, prog, vers, procedure)

same : {a b : ℕ} → a ≡ b → (a == b) ≡ true
same h = ground arith

-- A call that a client encodes, once it is read into the XDR of a service of the same program and
-- version, runs that service for the procedure that was called.
pub call_reaches :
    {args : Send} {ws : List ℕ} (proc : ℕ) (c : Client) (s : RegisteredServer) (z : Xdr)
    → c.in_reset ≡ 0
    → Sends args ws
    → length ws ≤ 18392
    → IsWord (wire_of c).x_prog
    → IsWord (wire_of c).x_vers
    → IsWord proc
    → s.x_prog ≡ (wire_of c).x_prog
    → z.x_vers ≡ (wire_of c).x_vers
    → Delivered (wire_of (call_encode proc args c).1) z
    → (misdirected s z ≡ false) × ((request z).rq_proc ≡ proc)
call_reaches {args} {ws} proc c s z r p h wp wv wq sp sv d =
    let m = arrive _ z (call_bytes proc c ws) (sent-Message proc c r p h) d in
    let w = call-words proc c ws z wp wv wq m in
    let kind = same (w.1) in
    let prog = same (w.2 ∙ sym sp) in
    let vers = same (w.3 ∙ sym sv) in (rw (kind, prog, vers) refl, w.4)

-- What the other side takes for the arguments.
args-taken :
    {A : Type 0} {get : Recv A} {ws : List ℕ} {a : A} (proc : ℕ) (c : Client) (z : Xdr)
    → Receives get ws a
    → length ws ≤ 18392
    → Arrived z (call_bytes proc c ws)
    → (get (args_ready z)).0 ≡ some a
unfolding be32
args-taken {A} {get} {ws} {a} proc c z p h m =
    let x = wire_of c in
    let head =
      be32 (add32 x.xid 1) ++ (be32 0 ++ call_wire x.x_prog x.x_vers proc no_auth no_auth) in
    let small : length (head ++ ws) ≤ 18432 = omega (arith, h) in
    let there : Arrived (args_ready z) (head ++ ws) = record { stop = m.stop; bytes = m.bytes } in
    ap (λ o. o.0)
      (p.receives (args_ready z) (Arrived-Pending (args_ready z) head ws there refl refl small))

-- What the client takes for the results.
results-taken :
    {B : Type 0} {get : Recv B} {bs : List ℕ} {b : B} (base : Bytes) (xid : List ℕ) (d : Client)
    → Receives get bs b
    → length bs ≤ 18408
    → length xid ≡ 4
    → (wire_of d).in_next ≡ 8
    → Arrived (wire_of d) (xid ++ success_wire bs)
    → ((header_read get d (xdr_recv_reply_header base (wire_of d))).stat ≡ ClntStat.success)
      × ((header_read get d (xdr_recv_reply_header base (wire_of d))).results ≡ some b)
unfolding be32 header_stat
results-taken {B} {get} {bs} {b} base xid d p h n i m =
    let x = wire_of d in
    let start = reply_start_wire no_auth in
    let there : Arrived x ((xid ++ be32 1) ++ (start ++ bs)) =
      subst (Arrived x) (sym (append_assoc xid (be32 1) (start ++ bs))) m in
    let k = length-append xid (be32 1) in
    let j = length-append (xid ++ be32 1) (start ++ bs) in
    let at : x.in_next ≡ length (xid ++ be32 1) = omega (arith, i, k, n) in
    let small : length ((xid ++ be32 1) ++ (start ++ bs)) ≤ 18432 = omega (arith, h, j, k, n) in
    let pending =
      Arrived-Pending x (xid ++ be32 1) (start ++ bs) there at (omega (arith, i)) small in
    let (w, v) = Pending-split x start bs refl pending in
    let auth : OpaqueAuth = record no_auth { oa_base = base } in
    let bare : Bare base auth = record { flavor = omega arith; none_follow = refl; kept = refl } in
    let header =
      reply-Receives base (accepted auth (other_accept 0)) (bare, (omega arith, omega arith)) in
    let y : Xdr = record (skip 16 x) { x_op = decode } in
    let ready : Pending y bs = record {
      aligned = v.aligned;
      bytes = v.bytes;
      inside = v.inside;
      small = v.small;
    } in
    let e = ap (header_read get d) (header.receives x w) ∙ ap (decoded d) (p.receives y ready) in
    (ap (λ (q : Called B). q.stat) e, ap (λ (q : Called B). q.results) e)

same_word : (b c : Bytes) → window b 0 4 ≡ window c 0 4 → word_at b 0 ≡ word_at c 0
unfolding window word_at
same_word b c e =
    let p : b 0 ≡ c 0 = cc in
    let q : b 1 ≡ c 1 = cc in let r : b 2 ≡ c 2 = cc in let s : b 3 ≡ c 3 = cc in cc

-- A reply that arrived begins with the xid of the call that it answers.
copied_xid :
    (x y : Xdr) (bs : List ℕ)
    → Arrived x (answer_wire y bs)
    → word_at x.in_msg 0 ≡ word_at y.in_msg 0
copied_xid x y bs m =
    let head = window y.in_msg 0 4 in
    let p = (window-split x.in_msg 0 head (success_wire bs) m.bytes).0 in
    same_word x.in_msg y.in_msg (sym (ap (window x.in_msg 0) (length-window y.in_msg 0 4)) ∙ p)

-- A client calls, the service takes the arguments and sends results, and the client wakes: the service
-- reads exactly the arguments that were sent, the call ends with RPC_SUCCESS, and its results are
-- exactly those that were sent. Both fit their message, neither side is in reset, no other thread
-- touches the two messages, and the answer of the router device on the reply does not matter.
pub call_served :
    {A B : Type 0} {args results : Send} {get_args : Recv A} {get_results : Recv B}
    → {ws bs : List ℕ} {a : A} {b : B}
    → (proc ret active : ℕ) (base : Bytes) (c d : Client) (z y : Xdr) → Sends args ws
    → Receives get_args ws a
    → Sends results bs
    → Receives get_results bs b
    → length ws ≤ 18392
    → length bs ≤ 18408
    → c.in_reset ≡ 0
    → active ≢ 0
    → Delivered (wire_of (call_encode proc args c).1) z
    → y.in_msg ≡ z.in_msg
    → Delivered (svc_sendreply ret results active y).1 (wire_of d)
    → d.in_reset ≡ 0
    → (wire_of d).out_msg ≡ (wire_of (call_encode proc args c).1).out_msg
    → (wire_of d).in_next ≡ 8
    → ((svc_getargs get_args active (args_ready z)).0 ≡ some a)
      × ((call_receive base get_results d).stat ≡ ClntStat.success)
      × ((call_receive base get_results d).results ≡ some b)
unfolding svc_getargs call_receive
call_served {ws = ws} {bs = bs} proc ret active base c d z y ps pr qs qr h k r live sent_to kept
      back awake own at =
    let call_message = sent-Message proc c r ps h in
    let m = arrive _ z (call_bytes proc c ws) call_message sent_to in
    let reply_message = (sendreply_lem ret _ bs active y live qs k).1 in
    let n = arrive _ (wire_of d) (answer_wire y bs) reply_message back in
    let taken = results-taken base (window y.in_msg 0 4) d qr k (length-window y.in_msg 0 4) at n in
    let awake_test = same awake in
    let xid_test : same_xid (wire_of d) ≡ true = same (
      ap (λ b. word_at b 0) (own ∙ sym sent_to.bytes)
      ∙ ap (λ b. word_at b 0) (sym kept)
      ∙ sym (copied_xid (wire_of d) y bs n)) in
    (
      rw (ne→not_eq live) (args-taken proc c z pr h m),
      rw (awake_test, xid_test) (taken.0),
      rw (awake_test, xid_test) (taken.1),
    )

error_xid :
    (x : Xdr) (xid stat : ℕ) (verf : OpaqueAuth)
    → IsWord xid
    → Arrived x (error_wire xid stat verf)
    → word_at x.in_msg 0 ≡ xid
unfolding be32
error_xid x xid stat verf k m =
    (word_front x.in_msg 0 xid (be32 1 ++ (be32 0 ++ (auth_wire verf ++ be32 stat))) k m.bytes).0

-- The three replies that name an error, and their statuses.
pub data ErrorReply : Type 0 where
  decode_error system_error no_procedure : ErrorReply

abbrev pub error_reply : ErrorReply → (ret active : ℕ) → OpaqueAuth → Xdr → Xdr
error_reply decode_error ret active verf y = svcerr_decode ret verf active y
error_reply system_error ret active verf y = svcerr_systemerr ret verf active y
error_reply no_procedure ret active verf y = svcerr_noproc ret verf active y

abbrev error_stat : ErrorReply → ℕ
error_stat decode_error = 4
error_stat system_error = 5
error_stat no_procedure = 3

error-Message :
    (k : ErrorReply) (ret active : ℕ) (verf : OpaqueAuth) (y : Xdr)
    → active ≢ 0
    → verf.oa_length ≡ 0
    → IsWord verf.oa_flavor
    → Message (error_reply k ret active verf y) (error_wire y.xid (error_stat k) verf)
error-Message decode_error ret active verf y live v w =
    (errors_reported ret active verf y live v w).0
error-Message system_error ret active verf y live v w =
    (errors_reported ret active verf y live v w).1
error-Message no_procedure ret active verf y live v w =
    (errors_reported ret active verf y live v w).2

-- Each of the replies that name an error, while a call is served and under a verifier without a body,
-- arrives with the xid that the XDR of the service has. Where that is not the xid of the call, the client
-- that waits outside a reset gets RPC_CANTRECV, not the error.
pub error_reply_lost :
    {B : Type 0} (k : ErrorReply) (get_results : Recv B) (ret active : ℕ) (verf : OpaqueAuth)
    (base : Bytes)
    → (d : Client) (y : Xdr) → active ≢ 0
    → verf.oa_length ≡ 0
    → IsWord verf.oa_flavor
    → IsWord y.xid
    → Delivered (error_reply k ret active verf y) (wire_of d)
    → d.in_reset ≡ 0
    → word_at (wire_of d).out_msg 0 ≢ y.xid
    → (word_at (wire_of d).in_msg 0 ≡ y.xid)
      × ((call_receive base get_results d).stat ≡ ClntStat.cant_recv)
unfolding call_receive
error_reply_lost r get_results ret active verf base d y live v w k back awake other =
    let n = arrive _ (wire_of d) _ (error-Message r ret active verf y live v w) back in
    let xid : word_at (wire_of d).in_msg 0 ≡ y.xid =
      error_xid (wire_of d) y.xid (error_stat r) verf k n in
    let off : same_xid (wire_of d) ≡ false = ne→not_eq (λ e. other (e ∙ xid)) in
    let awake_test = same awake in (xid, rw (awake_test, off) refl)
