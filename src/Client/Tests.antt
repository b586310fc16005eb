-- ===== src/Client/Tests.antt =====
-- The theorems on gps/libloc/librpc/clnt.c at concrete calls.
use android_device_generic_m.Base.{
  List, ◌+◌, ℕ, ◌-◌, ◌^◌, ◌≡◌, ◌≢◌, refl, sym, ◌∙◌, true, false, none, some, [], ◌∷◌, length, arith,
}
use android_device_generic_m.Xdr.{Xdr, be32, put, word_at, Send}
use android_device_generic_m.Xdr.Transport.{send_uint32, recv_uint32, send_int32, msg_start}
use android_device_generic_m.Xdr.Wire.{send_uint32-Sends, recv_uint32-Receives}
use android_device_generic_m.Rpc.{
  xdr_recv_reply_header, xdr_call_msg_start, xdr_send_auth, OpaqueAuth, accepted, other_accept,
}
use android_device_generic_m.Rpc.Channel.{zero_bytes, zero_xdr, no_auth}
use android_device_generic_m.Server.{
  SvcXprt, new_xprt, svc_find, svc_find_nosync, svc_is_in_reset, callback_entry,
}
use android_device_generic_m.Server.Dispatch.{Handlers, in_word, args_ready}
use android_device_generic_m.Server.Reply.{svc_getargs, svc_sendreply, svcerr_decode}
use android_device_generic_m.Client.{
  Client, wire_of, with_wire, call_encode, call_send, call_receive, netreset,
}
use android_device_generic_m.Client.ClntStat
use android_device_generic_m.Client.Calls
use android_device_generic_m.Client.EndToEnd
use android_device_generic_m.Client.Receive.{
  cb_round, dispatched, PollBits, restart_begin, restart_end, rx_reset, rx_client,
}
use android_device_generic_m.Client.Resets
use android_device_generic_m.Client.Callback
use android_device_generic_m.Client.Pool
use android_device_generic_m.Client.Pool.Members

abbrev client : Client
client = record {
  xdr = record {
    fd = 5;
    is_client = true;
    verf = no_auth;
    wire = record zero_xdr { x_prog = 3; x_vers = 1; xid = 7 };
  };
  input_xdr_busy = false;
  got_cb = false;
  cb_stop = 2 ^ 32 - 1;
  in_reset = 0;
  reset_cb = none;
}

-- The call of procedure 2 with the argument 11, as the service reads it.
abbrev caller : Client
caller = (call_encode 2 (send_uint32 11) client).1

abbrev at_service : Xdr
at_service = record zero_xdr {
  x_prog = 3;
  x_vers = 1;
  in_msg = (wire_of caller).out_msg;
  in_len = (wire_of caller).out_next;
}

length_four : (v : ℕ) → length (be32 v) ≡ 4
unfolding be32
length_four v = refl

-- The answer 12, and the caller that has read it.
abbrev answered : Xdr
answered = (svc_sendreply 28 (send_uint32 12) 1 at_service).1

abbrev awake : Client
awake =
    with_wire client (record (wire_of caller) {
      in_msg = answered.out_msg;
      in_len = answered.out_next;
      in_next = 8;
    })

call_served_example :
    ((svc_getargs recv_uint32 1 (args_ready at_service)).0 ≡ some 11)
    × ((call_receive zero_bytes recv_uint32 awake).stat ≡ ClntStat.success)
    × ((call_receive zero_bytes recv_uint32 awake).results ≡ some 12)
unfolding call_encode
call_served_example =
    EndToEnd.call_served 2 28 1 zero_bytes client awake at_service at_service (send_uint32-Sends 11)
      (recv_uint32-Receives 11 (omega arith)) (send_uint32-Sends 12)
      (recv_uint32-Receives 12 (omega arith)) (omega (arith, length_four 11))
      (omega (arith, length_four 12)) refl (omega arith) (record { bytes = refl; stop = refl }) refl
      (record { bytes = refl; stop = refl }) refl refl refl

success_own_example :
    (awake.in_reset ≡ 0)
    × (word_at (wire_of awake).out_msg 0 ≡ word_at (wire_of awake).in_msg 0)
    × ((verf : OpaqueAuth) × ((xdr_recv_reply_header zero_bytes (wire_of awake)).0
          ≡ some (accepted verf (other_accept 0))))
    × ((a : ℕ) × ((call_receive zero_bytes recv_uint32 awake).results ≡ some a))
success_own_example = Calls.success_own zero_bytes recv_uint32 awake call_served_example.1

-- A service whose XDR has another xid than the call.
abbrev lost : Client
lost = with_wire client (record (wire_of caller) {
  in_msg = (svcerr_decode 28 no_auth 1 at_service).out_msg;
  in_len = (svcerr_decode 28 no_auth 1 at_service).out_next;
  in_next = 8;
})

caller_xid : word_at (wire_of caller).out_msg 0 ≡ 8
unfolding call_encode xdr_call_msg_start msg_start xdr_send_auth send_int32 send_uint32 put be32
    word_at
caller_xid = refl

error_reply_lost_example :
    (word_at (wire_of lost).in_msg 0 ≡ at_service.xid)
    × ((call_receive zero_bytes recv_uint32 lost).stat ≡ ClntStat.cant_recv)
error_reply_lost_example =
    EndToEnd.error_reply_lost EndToEnd.decode_error recv_uint32 28 1 no_auth zero_bytes lost
      at_service (omega arith) refl (omega arith) (omega arith)
      (record { bytes = refl; stop = refl }) refl
      (λ e. let f : 8 ≡ 0 = sym caller_xid ∙ e in omega (arith, f))

abbrev poll_hup : PollBits
poll_hup = record { pollin = false; pollout = false; pollrdhup = true }

abbrev poll_out : PollBits
poll_out = record { pollin = false; pollout = true; pollrdhup = false }

abbrev no_read : Send
no_read x = (false, x)

abbrev nothing : Client → Client
nothing c = c

-- The client with a reset callback.
abbrev listening : Client
listening = record client { reset_cb = some 9 }

abbrev restarting : Client
restarting = (rx_client poll_hup no_read nothing listening).client

restart-Run :
    Resets.Run listening
      (restart_end ∷ (restart_begin ∷ []))
      (rx_client poll_out no_read nothing restarting).client
unfolding rx_client rx_reset
restart-Run =
    Resets.polled poll_out no_read nothing (λ e. refl)
      (Resets.polled poll_hup no_read nothing (λ e. refl) Resets.idle)

Run-Paired_example :
    Resets.Paired
      (restart_end ∷ (restart_begin ∷ []))
      (rx_client poll_out no_read nothing restarting).client.in_reset
Run-Paired_example = Resets.Run-Paired refl refl restart-Run

netreset_untold_example :
    ((call_send netreset listening).1.in_reset ≡ 1)
    × ((rx_reset poll_hup (call_send netreset listening).1).notice ≢ some restart_begin)
netreset_untold_example = Resets.netreset_untold listening poll_hup refl (omega arith)

abbrev manned : Pool.Pool
manned = (Pool.clnt_create (some 100) 3 4 true true 3 65536 Pool.no_clients).pool

-- A call of procedure 5 of a callback program, as it arrives on the client.
abbrev callback_bytes : List ℕ
callback_bytes =
    0 ∷ 0 ∷ 0 ∷ 9 ∷ 0 ∷ 0 ∷ 0 ∷ 0 ∷ 0 ∷ 0 ∷ 0 ∷ 2 ∷ 1 ∷ 0 ∷ 0 ∷ 3 ∷ 0 ∷ 0 ∷ 0 ∷ 1 ∷ 0 ∷ 0 ∷ 0 ∷ 5
    ∷ []

abbrev called : Client
called =
    record (with_wire client (record zero_xdr {
      x_prog = 3;
      x_vers = 1;
      in_msg = put zero_bytes 0 callback_bytes;
      in_len = 40;
    })) { got_cb = true; input_xdr_busy = true }

abbrev callbacks : SvcXprt
callbacks = record new_xprt { servers = callback_entry (2 ^ 24 + 3) 1 41 ∷ []; num_cb_servers = 1 }

abbrev run : Handlers
run d r s = record s { x_vers = d }

found_callback :
    svc_find (in_word 3 (wire_of called)) (in_word 4 (wire_of called)) callbacks
    ≡ some (callback_entry (2 ^ 24 + 3) 1 41)
unfolding svc_find svc_find_nosync put word_at
found_callback = refl

is_call : in_word 1 (wire_of called) ≡ 0
unfolding put word_at
is_call = refl

callback_served_example :
    cb_round run 6 13 callbacks called
    ≡ dispatched none
        (record called { got_cb = false; input_xdr_busy = false })
        (some (Callback.called_back run 6 13 called (callback_entry (2 ^ 24 + 3) 1 41)))
unfolding svc_is_in_reset
callback_served_example =
    Callback.callback_served run 6 13 callbacks called (callback_entry (2 ^ 24 + 3) 1 41) refl refl
      found_callback is_call (omega arith) (omega arith) (omega arith) (omega arith)
