-- ===== src/Client.antt =====
-- gps/libloc/librpc/clnt.c: a client and its calls. clnt_call is three sections: up to the lock of
-- wait_reply_lock, from there to the wait, and after the wait. What the router device answers is an
-- argument, and so is what other threads do between two sections.
pub mod ClntStat
pub mod Calls
pub mod Arrival
pub mod EndToEnd
pub mod Receive
pub mod Resets
pub mod Callback
pub mod Pool
mod Tests
use android_device_generic_m.Base.{
  ℕ, ◌+◌, ◌-◌, ◌*◌, ◌^◌, Bool, true, false, not, Option, none, some, ◌==◌, if◌then◌else◌,
}
use android_device_generic_m.Xdr.{
  Bytes, Xdr, encode, decode, word_at, rpc_offset, Send, ◌&&&◌, Recv,
}
use android_device_generic_m.Xdr.Transport.{msg_send, msg_done, msg_abort}
use android_device_generic_m.Rpc.{
  AcceptStat, prog_mismatch, other_accept, DeniedReply, mismatch, auth_error, other_reject,
  ReplyHeader, accepted, denied, other_reply, xdr_call_msg_start, xdr_recv_reply_header,
}
use android_device_generic_m.Rpc.Channel.{Channel, no_auth}
use android_device_generic_m.Client.ClntStat

-- `struct CLIENT` without its locks; `cb_stop` is -1 until the callback thread starts.
pub record Client : Type 0 where
  pub xdr : Channel
  pub input_xdr_busy : Bool
  pub got_cb : Bool
  pub cb_stop : ℕ
  pub in_reset : ℕ
  pub reset_cb : Option ℕ

abbrev pub wire_of : Client → Xdr
wire_of c = c.xdr.wire

abbrev pub with_wire : Client → Xdr → Client
with_wire c x = record c { xdr = record c.xdr { wire = x } }

-- The label out_unlock.
abbrev pub free_input : Client → Client
free_input c = record c { input_xdr_busy = false }

-- A status to return, or none to go on.
abbrev pub encoded : Client → Bool × Xdr → Option ℕ × Client
encoded c (true, x) = (none, with_wire c x)
encoded c (false, x) = (some ClntStat.cant_encode_args, with_wire c (msg_abort x).1)

unfoldable pub call_encode : (proc : ℕ) (xdr_args : Send) → Client → Option ℕ × Client
call_encode proc xdr_args c =
    if not (c.in_reset == 0)
    then (some ClntStat.subsystem_restart, c)
    else let x = wire_of c in
      encoded c (
        (xdr_call_msg_start x.x_prog x.x_vers proc no_auth no_auth &&& xdr_args)
          (record x { x_op = encode }))

-- -ENETRESET
abbrev pub netreset : ℕ
netreset = 2 ^ 32 - 102

abbrev pub sent : Client → Bool × Xdr → Option ℕ × Client
sent c (true, x) = (none, with_wire c x)
sent c (false, x) =
    if x.xdr_err == netreset
    then (some ClntStat.subsystem_restart, free_input (record (with_wire c x) { in_reset = 1 }))
    else (some ClntStat.cant_send, free_input (with_wire c x))

-- `ret` is what r_write returned.
unfoldable pub call_send : (ret : ℕ) → Client → Option ℕ × Client
call_send ret c =
    if not (c.in_reset == 0)
    then (some ClntStat.subsystem_restart, free_input c)
    else sent c (msg_send ret (wire_of c))

abbrev pub accept_stat : AcceptStat → ℕ
accept_stat (prog_mismatch low high) = 2
accept_stat (other_accept stat) = stat

abbrev pub denied_stat : DeniedReply → ℕ
denied_stat (mismatch low high) = 0
denied_stat (auth_error why) = 1
denied_stat (other_reject stat) = stat

-- The status that a header leads to, 0 where results follow. No header that was read is other_reply.
unfoldable pub header_stat : ReplyHeader → ℕ
header_stat (accepted verf body) =
    if accept_stat body == 0 then ClntStat.success else accept_stat body + ClntStat.auth_err
header_stat (denied body) = denied_stat body + ClntStat.vers_mismatch
header_stat (other_reply stat) = stat + ClntStat.vers_mismatch

-- The answer of clnt_call with the results that were decoded.
pub record Called {ℓ} (A : Type ℓ) : Type ℓ where
  pub stat : ℕ
  pub results : Option A
  pub client : Client

abbrev pub same_xid : Xdr → Bool
same_xid x = word_at x.out_msg (rpc_offset * 4) == word_at x.in_msg (rpc_offset * 4)

module _ {ℓ} {A : Type ℓ} where
  abbrev pub failed : ℕ → Client → Called A
  failed stat c = record { stat = stat; results = none; client = free_input c }

  abbrev pub decoded : Client → Option A × Xdr → Called A
  decoded c (none, x) = failed ClntStat.cant_decode_res (with_wire c x)
  decoded c (some a, x) = record {
    stat = ClntStat.success;
    results = some a;
    client = free_input (with_wire c (msg_done x).1);
  }

  abbrev pub header_read : (xdr_results : Recv A) → Client → Option ReplyHeader × Xdr → Called A
  header_read xdr_results c (none, x) = failed ClntStat.cant_recv (with_wire c x)
  header_read xdr_results c (some h, x) =
      if header_stat h == 0
      then decoded c (xdr_results (record x { x_op = decode }))
      else failed (header_stat h) (with_wire c x)

  -- `base` is what the header on the stack held before.
  unfoldable pub call_receive : (base : Bytes) (xdr_results : Recv A) → Client → Called A
  call_receive base xdr_results c =
      if not (c.in_reset == 0)
      then failed ClntStat.subsystem_restart c
      else if not (same_xid (wire_of c))
      then failed ClntStat.cant_recv c
      else header_read xdr_results c (xdr_recv_reply_header base (wire_of c))

  abbrev pub after_send :
      (base : Bytes) (xdr_results : Recv A) (asleep : Client → Client)
      → Option ℕ × Client
      → Called A
  after_send base xdr_results asleep (some stat, c) = record {
    stat = stat;
    results = none;
    client = c;
  }
  after_send base xdr_results asleep (none, c) = call_receive base xdr_results (asleep c)

  abbrev pub after_encode :
      (ret : ℕ) (base : Bytes) (xdr_results : Recv A) (meanwhile asleep : Client → Client)
      → Option ℕ × Client
      → Called A
  after_encode ret base xdr_results meanwhile asleep (some stat, c) = record {
    stat = stat;
    results = none;
    client = c;
  }
  after_encode ret base xdr_results meanwhile asleep (none, c) =
      after_send base xdr_results asleep (call_send ret (meanwhile c))

  -- `meanwhile` and `asleep` are what other threads do before the lock and during the wait.
  unfoldable pub clnt_call :
      (proc : ℕ) (xdr_args : Send) (ret : ℕ) (base : Bytes) (xdr_results : Recv A)
      → (meanwhile asleep : Client → Client) → Client
      → Called A
  clnt_call proc xdr_args ret base xdr_results meanwhile asleep c =
      after_encode ret base xdr_results meanwhile asleep (call_encode proc xdr_args c)
