-- ===== src/Rpc/Tests.antt =====
-- The theorems on the message headers of gps/libloc/librpc at concrete messages.
use android_device_generic_m.Base.{◌≡◌, refl, true, some, length, arith}
use android_device_generic_m.Xdr.{Bytes, Xdr, encode, decode, be32, word_at}
use android_device_generic_m.Xdr.Transport.{recv_uint32, recv_int32}
use android_device_generic_m.Xdr.Wire.{Room, Carried}
use android_device_generic_m.Rpc.{
  OpaqueAuth, ReplyHeader, accepted, prog_mismatch, xdr_send_reply_header, xdr_recv_reply_header,
  xdr_recv_auth,
}
use android_device_generic_m.Rpc.RoundTrip

abbrev zeros : Bytes
zeros i = 0

abbrev blank : Xdr
blank = record {
  x_op = encode;
  x_prog = 0;
  x_vers = 0;
  x_proc = 0;
  xid = 7;
  out_msg = zeros;
  out_next = 8;
  in_msg = zeros;
  in_next = 8;
  in_len = 100;
  xdr_err = 0;
}

abbrev auth_none : OpaqueAuth
auth_none = record { oa_flavor = 0; oa_length = 0; oa_base = zeros }

abbrev mismatch_reply : ReplyHeader
mismatch_reply = accepted auth_none (prog_mismatch 1 5)

abbrev receiver : Xdr
receiver = record blank {
  x_op = decode;
  in_msg = (xdr_send_reply_header mismatch_reply blank).1.out_msg;
  in_len = (xdr_send_reply_header mismatch_reply blank).1.out_next;
}

mismatch_reply-IsReply : RoundTrip.IsReply zeros mismatch_reply
mismatch_reply-IsReply =
    (record { flavor = omega arith; none_follow = refl; kept = refl }, (omega arith, omega arith))

blank-Room : Room blank (length (RoundTrip.reply_wire mismatch_reply))
unfolding be32
blank-Room = record { aligned = refl; inside = omega arith }

receiver-Carried : Carried blank (xdr_send_reply_header mismatch_reply blank).1 receiver
receiver-Carried = record { bytes = refl; start = refl; stop = refl }

reply_header_roundtrip_example :
    ((xdr_send_reply_header mismatch_reply blank).0 ≡ true)
    × (xdr_recv_reply_header zeros receiver
        ≡ (some mismatch_reply, record receiver { in_next = receiver.in_len }))
reply_header_roundtrip_example =
    RoundTrip.reply_header_roundtrip zeros mismatch_reply mismatch_reply-IsReply blank receiver
      blank-Room receiver-Carried

recv_auth_blank : (xdr_recv_auth zeros blank).0 ≡ some auth_none
unfolding xdr_recv_auth recv_int32 recv_uint32 word_at
recv_auth_blank = refl
