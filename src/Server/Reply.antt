-- ===== src/Server/Reply.antt =====
-- gps/libloc/librpc/svc.c: the arguments and the replies of a call that is being served. Each function
-- takes the fields `active` and `xdr` of the entry; `ret` is what r_write returned.
use android_device_generic_m.Base.{ℕ, ◌*◌, Bool, true, false, Option, none, ◌==◌, if◌then◌else◌}
use android_device_generic_m.Xdr.{Xdr, encode, free, put, window, rpc_offset, Send, ◌&&&◌, Recv}
use android_device_generic_m.Xdr.Transport.{reply, msg_start, msg_send, msg_done, msg_abort}
use android_device_generic_m.Rpc.{
  OpaqueAuth, accepted, other_accept, xdr_send_reply_header, xdr_reply_msg_start,
}
use android_device_generic_m.Rpc.Channel.{no_auth}

abbrev pub done_with {ℓ} : {A : Type ℓ} → Option A × Xdr → Option A × Xdr
done_with (o, x) = (o, (msg_done x).1)

unfoldable pub svc_getargs {ℓ} : {A : Type ℓ} → (xdr_args : Recv A) (active : ℕ) → Recv A
svc_getargs xdr_args active x = if active == 0 then (none, x) else done_with (xdr_args x)

unfoldable pub svc_freeargs : (xdr_args : Send) (active : ℕ) → Send
svc_freeargs xdr_args active x =
    if active == 0 then (false, x) else xdr_args (record x { x_op = free })

-- The xid of the call becomes that of the reply.
abbrev pub copy_xid : Xdr → Xdr
copy_xid x = record x {
  out_msg = put x.out_msg (rpc_offset * 4) (window x.in_msg (rpc_offset * 4) 4);
}

abbrev pub reply_with : (ret : ℕ) → Bool × Xdr → Bool × Xdr
reply_with ret (false, x) = (false, x)
reply_with ret (true, x) = (true, (msg_send ret (copy_xid x)).1)

unfoldable pub svc_sendreply : (ret : ℕ) (xdr_results : Send) (active : ℕ) → Send
svc_sendreply ret xdr_results active x =
    if active == 0
    then (false, x)
    else reply_with ret ((xdr_reply_msg_start no_auth &&& xdr_results) (record x { x_op = encode }))

-- SVCERR_XDR_SEND, where `msg_start` writes the xid that the XDR has.
unfoldable pub svcerr_xdr_send : (ret stat : ℕ) → OpaqueAuth → Send
svcerr_xdr_send ret stat verf =
    msg_start reply &&& xdr_send_reply_header (accepted verf (other_accept stat)) &&& msg_send ret

abbrev pub or_abort : Bool × Xdr → Xdr
or_abort (true, x) = x
or_abort (false, x) = (msg_abort x).1

unfoldable pub svcerr_decode : (ret : ℕ) (verf : OpaqueAuth) (active : ℕ) → Xdr → Xdr
svcerr_decode ret verf active x = if active == 0 then x else or_abort (svcerr_xdr_send ret 4 verf x)

unfoldable pub svcerr_systemerr : (ret : ℕ) (verf : OpaqueAuth) (active : ℕ) → Xdr → Xdr
svcerr_systemerr ret verf active x =
    if active == 0 then x else or_abort (svcerr_xdr_send ret 5 verf x)

unfoldable pub svcerr_noproc : (ret : ℕ) (verf : OpaqueAuth) (active : ℕ) → Xdr → Xdr
svcerr_noproc ret verf active x = if active == 0 then x else or_abort (svcerr_xdr_send ret 3 verf x)
