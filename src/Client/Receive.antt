-- ===== src/Client/Receive.antt =====
-- gps/libloc/librpc/clnt.c: what the receive thread does to one client after poll, and what the
-- callback thread does when it wakes.
use android_device_generic_m.Base.{
  ℕ, Bool, true, false, not, Option, none, some, List, [], ◌∷◌, ◌++◌, ◌==◌, ltb, if◌then◌else◌,
}
use android_device_generic_m.Xdr.{Bytes, Xdr, Send, int_lt}
use android_device_generic_m.Rpc.Channel.{Channel, xdr_clone}
use android_device_generic_m.Server.{
  RegisteredServer, SvcXprt, svc_find, svc_is_in_reset, svc_set_in_reset,
}
use android_device_generic_m.Server.Dispatch.{Handlers, in_word, svc_dispatch}
use android_device_generic_m.Client.{Client, wire_of, with_wire}

-- The bits of `revents` that are looked at.
pub record PollBits : Type 0 where
  pub pollin : Bool
  pub pollout : Bool
  pub pollrdhup : Bool

-- `enum rpc_reset_event`
pub data ResetEvent : Type 0 where
  restart_begin restart_end : ResetEvent

-- A condition that is signalled, or a thread that is started.
pub data Signal : Type 0 where
  wait_reply wait_cb cb_thread : Signal

pub record Received : Type 0 where
  pub bits : PollBits
  pub client : Client
  pub signals : List Signal
  -- The reset event of which the client is told.
  pub notice : Option ResetEvent

abbrev pub unnoticed : PollBits → Client → Received
unnoticed bits c = record { bits = bits; client = c; signals = []; notice = none }

-- Only a client with a reset callback is told_event.
abbrev pub told_if : Option ℕ → ResetEvent → Option ResetEvent
told_if none event = none
told_if (some cb) event = some event

abbrev pub told_event : Client → ResetEvent → Option ResetEvent
told_event c event = told_if c.reset_cb event

unfoldable pub rx_reset : PollBits → Client → Received
rx_reset bits c =
    if c.in_reset == 0
    then if bits.pollrdhup
      then record {
        bits = record { pollin = false; pollout = false; pollrdhup = false };
        client = record c { in_reset = 1; input_xdr_busy = false };
        signals = wait_reply ∷ (wait_cb ∷ []);
        notice = told_event c restart_begin;
      }
      else unnoticed bits c
    else if bits.pollout
    then record {
      bits = bits;
      client = record c { in_reset = 0 };
      signals = wait_cb ∷ [];
      notice = told_event c restart_end;
    }
    else unnoticed bits c

-- A call is handed to the callback thread, which is started for the first one.
abbrev pub hand_over : Client → Client × List Signal
hand_over c =
    if int_lt c.cb_stop 0
    then (record c { got_cb = true; cb_stop = 0 }, cb_thread ∷ (wait_cb ∷ []))
    else (record c { got_cb = true }, wait_cb ∷ [])

abbrev pub rx_read : Client → Bool × Xdr → Client × List Signal
rx_read c (false, x) = (with_wire c x, [])
rx_read c (true, x) =
    let d = record (with_wire c x) { input_xdr_busy = true } in
    if in_word 1 x == 1 then (d, wait_reply ∷ []) else hand_over d

abbrev pub drain : (busy : Bool) (drained : Client → Client) → Client → Client
drain busy drained c = if busy then drained c else c

abbrev pub then_read : (read : Send) (drained : Client → Client) → Received → Received
then_read read drained r =
    let c = drain r.client.input_xdr_busy drained r.client in
    let (d, signals) = rx_read c (read (wire_of c)) in
    if r.bits.pollin then record r { client = d; signals = r.signals ++ signals } else r

-- `drained` is what other threads do to the client while its input buffer is waited for.
unfoldable pub rx_client : PollBits → (read : Send) (drained : Client → Client) → Client → Received
rx_client bits read drained c = then_read read drained (rx_reset bits c)

-- What the callback thread did when it was woken; `destroyed` is an XDR that the service still had.
pub data CallbackStep : Type 0 where
  reset_told : ResetEvent → SvcXprt → CallbackStep
  no_data : CallbackStep
  no_server : Client → CallbackStep
  bad_length : (destroyed : Option Channel) → Client → CallbackStep
  no_descriptor : (destroyed : Option Channel) → Client → CallbackStep
  dispatched : (destroyed : Option Channel) → Client → Option RegisteredServer → CallbackStep

-- The first bytes of a buffer, copied into zeros.
abbrev pub clip : ℕ → Bytes → Bytes
clip n b i = if ltb i n then b i else 0

-- The XDR that was cloned, with the message and its program and version.
abbrev pub clone_wire : Client → Xdr → Xdr
clone_wire c y =
    let x = wire_of c in
    record y {
      x_prog = in_word 3 x;
      x_vers = in_word 4 x;
      in_msg = clip x.in_len x.in_msg;
      out_msg = clip x.out_next x.out_msg;
      in_len = x.in_len;
      out_next = x.out_next;
    }

-- The entry with that XDR.
abbrev pub transplant : Client → RegisteredServer → Channel → RegisteredServer
transplant c s k = record s { xdr = some (record k { wire = clone_wire c k.wire }) }

abbrev pub without_xdr : Option RegisteredServer → Option RegisteredServer
without_xdr none = none
without_xdr (some s) = some (record s { xdr = none })

abbrev pub cb_cloned :
    Handlers → (pid : ℕ) → Client → RegisteredServer → Option Channel → CallbackStep
cb_cloned run pid c s none = no_descriptor s.xdr c
cb_cloned run pid c s (some k) =
    dispatched s.xdr (record c { input_xdr_busy = false })
      (without_xdr (svc_dispatch run pid (transplant c s k)))

abbrev pub cb_found : Handlers → (pid dup : ℕ) → Client → Option RegisteredServer → CallbackStep
cb_found run pid dup c none = no_server c
cb_found run pid dup c (some s) =
    if int_lt (wire_of c).in_len 0
    then bad_length s.xdr c
    else if int_lt (wire_of c).out_next 0
    then bad_length s.xdr c
    else cb_cloned run pid c s (xdr_clone dup c.xdr)

-- One round of cb_context once it is awake, with a transport; `dup` is what dup returned. The source
-- crashes where no_descriptor stands here.
unfoldable pub cb_round : Handlers → (pid dup : ℕ) → SvcXprt → Client → CallbackStep
cb_round run pid dup t c =
    if not (c.in_reset == svc_is_in_reset t)
    then reset_told (if c.in_reset == 0 then restart_end else restart_begin)
        (svc_set_in_reset c.in_reset t)
    else if not c.got_cb
    then no_data
    else cb_found run pid dup (record c { got_cb = false })
        (svc_find (in_word 3 (wire_of c)) (in_word 4 (wire_of c)) t)
