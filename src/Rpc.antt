-- ===== src/Rpc.antt =====
-- The message headers of gps/libloc/librpc: rpc.c writes them, clnt.c reads them. A struct with a
-- union is a data type whose constructors are the union's cases.
pub mod RoundTrip
pub mod Auth
pub mod CallHeader
pub mod Channel
mod Tests
use android_device_generic_m.Base.{
  ℕ, Bool, true, false, Option, none, some, ◌==◌, ltb, leb, if◌then◌else◌,
}
use android_device_generic_m.Xdr.{Bytes, Xdr, Send, ◌&&&◌, refuse, accept, Recv, fail, got, ◌>>=◌}
use android_device_generic_m.Xdr.Transport.{
  call, reply, msg_start, send_uint32, send_int32, send_int16, send_int8, send_bytes, recv_uint32,
  recv_int32, recv_int16, recv_int8, recv_bytes,
}

-- `opaque_auth`
pub record OpaqueAuth : Type 0 where
  pub oa_flavor : ℕ
  pub oa_length : ℕ
  pub oa_base : Bytes

-- `rpc_accepted_reply_header` behind its verifier; `other_accept` is any status but 2.
pub data AcceptStat : Type 0 where
  prog_mismatch : (low high : ℕ) → AcceptStat
  other_accept : ℕ → AcceptStat

-- `rpc_denied_reply`; `other_reject` is any status but 0 and 1.
pub data DeniedReply : Type 0 where
  mismatch : (low high : ℕ) → DeniedReply
  auth_error : (why : ℕ) → DeniedReply
  other_reject : ℕ → DeniedReply

-- `rpc_reply_header`; `other_reply` is any status but 0 and 1.
pub data ReplyHeader : Type 0 where
  accepted : OpaqueAuth → AcceptStat → ReplyHeader
  denied : DeniedReply → ReplyHeader
  other_reply : ℕ → ReplyHeader

-- An enum takes four bytes here.
unfoldable pub xdr_send_enum : (value size : ℕ) → Send
xdr_send_enum value size =
    if size == 4
    then send_int32 value
    else if size == 2
    then send_int16 value
    else if size == 1
    then send_int8 value
    else refuse

unfoldable pub xdr_recv_enum : (size : ℕ) → Recv ℕ
xdr_recv_enum size =
    if size == 4
    then recv_int32
    else if size == 2
    then recv_int16
    else if size == 1
    then recv_int8
    else fail

unfoldable pub xdr_send_auth : OpaqueAuth → Send
xdr_send_auth auth =
    send_int32 auth.oa_flavor
    &&& send_uint32 auth.oa_length
    &&& (if auth.oa_length == 0 then accept else send_bytes auth.oa_base auth.oa_length)

-- `base` is what `oa_base` held before; it is kept where no bytes follow. Where some follow, they are
-- taken, and the answer is FALSE all the same.
unfoldable pub xdr_recv_auth : (base : Bytes) → Recv OpaqueAuth
xdr_recv_auth base = do
  f ← recv_int32
  n ← recv_uint32
  if n == 0
      then got (record { oa_flavor = f; oa_length = n; oa_base = base })
      else (do _ ← recv_bytes n; fail)

unfoldable pub xdr_send_accepted_reply_header : OpaqueAuth → AcceptStat → Send
xdr_send_accepted_reply_header verf (prog_mismatch low high) =
    xdr_send_auth verf &&& xdr_send_enum 2 4 &&& send_uint32 low &&& send_uint32 high
xdr_send_accepted_reply_header verf (other_accept stat) =
    xdr_send_auth verf &&& xdr_send_enum stat 4 &&& (if leb stat 6 then accept else refuse)

unfoldable pub xdr_send_denied_reply : DeniedReply → Send
xdr_send_denied_reply (mismatch low high) =
    xdr_send_enum 0 4 &&& send_uint32 low &&& send_uint32 high
xdr_send_denied_reply (auth_error why) = xdr_send_enum 1 4 &&& xdr_send_enum why 4
xdr_send_denied_reply (other_reject stat) = xdr_send_enum stat 4 &&& refuse

unfoldable pub xdr_send_reply_header : ReplyHeader → Send
xdr_send_reply_header (accepted verf body) =
    xdr_send_enum 0 4 &&& xdr_send_accepted_reply_header verf body
xdr_send_reply_header (denied body) = xdr_send_enum 1 4 &&& xdr_send_denied_reply body
xdr_send_reply_header (other_reply stat) = xdr_send_enum stat 4 &&& refuse

-- What follows the status of an accepted reply.
unfoldable pub accept_body : ℕ → Recv AcceptStat
accept_body stat =
    if stat == 2
    then (do low ← recv_uint32; high ← recv_uint32; got (prog_mismatch low high))
    else if leb stat 6
    then got (other_accept stat)
    else fail

unfoldable pub xdr_recv_accepted_reply_header : (base : Bytes) → Recv ReplyHeader
xdr_recv_accepted_reply_header base = do
  verf ← xdr_recv_auth base
  stat ← xdr_recv_enum 4
  body ← accept_body stat
  got (accepted verf body)

unfoldable pub denied_body : ℕ → Recv DeniedReply
denied_body stat =
    if stat == 0
    then (do low ← recv_uint32; high ← recv_uint32; got (mismatch low high))
    else if stat == 1
    then (do why ← xdr_recv_enum 4; got (auth_error why))
    else fail

unfoldable pub xdr_recv_denied_reply : Recv DeniedReply
xdr_recv_denied_reply = do stat ← xdr_recv_enum 4; denied_body stat

unfoldable pub reply_body : (base : Bytes) → ℕ → Recv ReplyHeader
reply_body base stat =
    if stat == 0
    then xdr_recv_accepted_reply_header base
    else if stat == 1
    then (do body ← xdr_recv_denied_reply; got (denied body))
    else fail

unfoldable pub xdr_recv_reply_header : (base : Bytes) → Recv ReplyHeader
xdr_recv_reply_header base = do stat ← xdr_recv_enum 4; reply_body base stat

-- RPC_MSG_VERSION
abbrev pub rpc_msg_version : ℕ
rpc_msg_version = 2

unfoldable pub xdr_call_msg_start : (prog ver proc : ℕ) (cred verf : OpaqueAuth) → Send
xdr_call_msg_start prog ver proc cred verf x =
    (msg_start call
        &&& send_uint32 rpc_msg_version
        &&& send_uint32 prog
        &&& send_uint32 ver
        &&& send_uint32 proc
        &&& xdr_send_auth cred
        &&& xdr_send_auth verf)
      (record x { x_prog = prog; x_proc = proc })

unfoldable pub xdr_reply_msg_start : OpaqueAuth → Send
xdr_reply_msg_start verf = msg_start reply &&& send_int32 0 &&& xdr_send_auth verf &&& send_int32 0
