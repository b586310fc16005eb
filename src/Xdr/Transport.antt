-- ===== src/Xdr/Transport.antt =====
-- gps/libloc/librpc/svc_clnt_common.c: the operations of xdr_std_xops on the buffers. What read and
-- write of the router device return is an argument.
use android_device_generic_m.Base.{
  ℕ, zero, suc, ◌+◌, ◌-◌, ◌*◌, ◌/◌, ◌%◌, ◌^◌, true, false, none, some, List, [], ◌∷◌, ◌==◌, ltb,
  leb, if◌then◌else◌,
}
use android_device_generic_m.Xdr.{
  Bytes, Xdr, msgsize_max, rpc_offset, int_lt, add32, minus_one, put, window, be32, word_at, emit,
  Send, Recv, got, ◌>>=◌,
}

-- `rpc_msg_e_type`
pub data RpcMsg : Type 0 where
  call reply undef : RpcMsg

abbrev pub msg_code : RpcMsg → ℕ
msg_code call = 0
msg_code reply = 1
msg_code undef = 2

abbrev pub next_xid : RpcMsg → ℕ → ℕ
next_xid call xid = add32 xid 1
next_xid reply xid = xid
next_xid undef xid = xid

-- A call takes a new xid; the xid and the type are the first two words.
unfoldable pub msg_start : RpcMsg → Send
unfolding put be32
msg_start t x =
    let id = next_xid t x.xid in
    (
      true,
      record x {
        xid = id;
        out_next = (rpc_offset + 2) * 4;
        out_msg =
            put (put x.out_msg (rpc_offset * 4) (be32 id)) ((rpc_offset + 1) * 4)
              (be32 (msg_code t));
      },
    )

-- `ret` is what r_write returned for `out_msg` up to `out_next`, which both stay as they are.
unfoldable pub msg_send : (ret : ℕ) → Send
msg_send ret x = (ret == x.out_next, record x { xdr_err = ret })

unfoldable pub msg_done : Send
msg_done x = (true, x)

unfoldable pub msg_abort : Send
msg_abort x = (true, x)

-- `buf` and `ret` are what r_read left in `in_msg` and returned.
unfoldable pub xdr_read : (buf : Bytes) (ret : ℕ) → Send
xdr_read buf ret x =
    if int_lt ret 0
    then (false, record x { in_msg = buf; in_len = ret })
    else if int_lt ret ((rpc_offset + 2) * 4)
    then (false, record x { in_msg = buf; in_len = minus_one })
    else (true, record x { in_msg = buf; in_len = ret; in_next = (rpc_offset + 2) * 4 })

unfoldable pub send_uint32 : ℕ → Send
send_uint32 v x = if leb (msgsize_max - 3) x.out_next then (false, x) else (true, emit (be32 v) x)

-- An int8 or int16 pattern as a uint32: the sign is extended.
abbrev pub sign_extend : (bits v : ℕ) → ℕ
sign_extend bits v = if ltb v (2 ^ (bits - 1)) then v else v + 2 ^ 32 - 2 ^ bits

unfoldable pub send_int8 : ℕ → Send
send_int8 v = send_uint32 (sign_extend 8 v)

unfoldable pub send_uint8 : ℕ → Send
send_uint8 v = send_uint32 v

unfoldable pub send_int16 : ℕ → Send
send_int16 v = send_uint32 (sign_extend 16 v)

unfoldable pub send_uint16 : ℕ → Send
send_uint16 v = send_uint32 v

unfoldable pub send_int32 : ℕ → Send
send_int32 v = send_uint32 v

-- `while (out_next % 4) out_msg[out_next++] = 0;` takes three rounds at most.
unfoldable pub pad : ℕ → Xdr → Xdr
pad zero x = x
pad (suc k) x = if x.out_next % 4 == 0 then x else pad k (emit (0 ∷ []) x)

-- The sum in the test is unsigned.
unfoldable pub send_bytes : (buf : Bytes) (len : ℕ) → Send
send_bytes buf len x =
    if ltb msgsize_max (add32 x.out_next len)
    then (false, x)
    else (true, pad 3 (emit (window buf 0 len) x))

unfoldable pub recv_uint32 : Recv ℕ
recv_uint32 x =
    if int_lt x.in_len (add32 x.in_next 4)
    then (none, x)
    else (some (word_at x.in_msg x.in_next), record x { in_next = add32 x.in_next 4 })

unfoldable pub recv_int8 : Recv ℕ
recv_int8 = do v ← recv_uint32; got (v % 2 ^ 8)

unfoldable pub recv_uint8 : Recv ℕ
recv_uint8 = do v ← recv_uint32; got (v % 2 ^ 8)

unfoldable pub recv_int16 : Recv ℕ
recv_int16 = do v ← recv_uint32; got (v % 2 ^ 16)

unfoldable pub recv_uint16 : Recv ℕ
recv_uint16 = do v ← recv_uint32; got (v % 2 ^ 16)

unfoldable pub recv_int32 : Recv ℕ
recv_int32 = recv_uint32

-- The bytes are what `memcpy` takes; the next index is rounded up to a word.
unfoldable pub recv_bytes : (len : ℕ) → Recv (List ℕ)
recv_bytes len x = if int_lt x.in_len (add32 x.in_next len) then (none, x) else (
  some (window x.in_msg x.in_next len),
  record x { in_next = add32 (add32 x.in_next len) 3 / 4 * 4 },
)
