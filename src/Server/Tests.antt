-- ===== src/Server/Tests.antt =====
-- The theorems on gps/libloc/librpc/svc.c at concrete services.
use android_device_generic_m.Base.{
  ◌+◌, ◌^◌, ◌≡◌, refl, true, false, none, some, [], ◌∷◌, ◌++◌, if◌then◌else◌, arith,
}
use android_device_generic_m.Xdr.{Xdr, decode, Send}
use android_device_generic_m.Rpc.Channel.{Channel, zero_xdr, no_auth, xdr_init_common}
use android_device_generic_m.Rpc.CallHeader.{Message}
use android_device_generic_m.Server.{
  RegisteredServer, SvcXprt, new_xprt, svc_find_nosync, svc_register, svc_unregister,
  callback_entry,
}
use android_device_generic_m.Server.Dispatch.{Handlers, serve_fd}
use android_device_generic_m.Server.Registry
use android_device_generic_m.Server.Invariant.{WellFormed, Tidy}
use android_device_generic_m.Server.Kept
use android_device_generic_m.Server.Reply.{svcerr_decode, svcerr_systemerr, svcerr_noproc}
use android_device_generic_m.Server.Answers
use android_device_generic_m.Server.Served

-- One service, number 3 of version 1 on descriptor 7, and a callback entry.
abbrev one : SvcXprt
one = (svc_register 3 1 40 0 7 new_xprt).xprt

abbrev two : SvcXprt
two = (svc_register (2 ^ 24 + 3) 1 41 0 0 one).xprt

register-update_example : Registry.registry (svc_register (2 ^ 24 + 3) 1 41 0 0 one).xprt 3 1 ≡ (
    if (svc_register (2 ^ 24 + 3) 1 41 0 0 one).answer
    then Registry.update (2 ^ 24 + 3) 1 (some 41) (Registry.registry one) 3 1
    else Registry.registry one 3 1)
register-update_example = Registry.register-update (2 ^ 24 + 3) 1 41 0 0 one 3 1

two-Distinct : Registry.Distinct two.servers
unfolding svc_register svc_find_nosync xdr_init_common
two-Distinct = (refl, (refl, tt))

unregister-update_example :
    Registry.registry (svc_unregister 3 1 two).0 3 1
    ≡ Registry.update 3 1 none (Registry.registry two) 3 1
unregister-update_example = Registry.unregister-update 3 1 two 3 1 two-Distinct

two-Reached : Kept.Reached (svc_unregister 3 1 two).0
unfolding svc_register svc_find_nosync xdr_init_common
two-Reached = Kept.after_unregister 3 1 (
    Kept.after_register (2 ^ 24 + 3) 1 41 0 0 (Kept.after_register 3 1 40 0 7 Kept.created tt)
      (refl, tt))

Reached-WellFormed_example : WellFormed (svc_unregister 3 1 two).0
Reached-WellFormed_example = Kept.Reached-WellFormed two-Reached

abbrev channel : Channel
channel = record {
  fd = 7;
  is_client = false;
  verf = no_auth;
  wire = record zero_xdr { x_prog = 3; x_vers = 1 };
}

abbrev service : RegisteredServer
service = record (callback_entry 3 1 40) { xdr = some channel }

abbrev run : Handlers
run d r s = record s { active = 9; x_vers = d }

abbrev read : Send
read x = (true, record x { in_len = 40 })

services-Tidy : Tidy (λ n. true) (callback_entry (2 ^ 24 + 3) 1 41 ∷ service ∷ [])
services-Tidy = (refl, tt, ((refl, refl, refl, refl), tt, tt))

served_example :
    serve_fd run 5 read 7 ((callback_entry (2 ^ 24 + 3) 1 41 ∷ []) ++ service ∷ [])
    ≡ some (
        (callback_entry (2 ^ 24 + 3) 1 41 ∷ [])
        ++ Served.handled run 5 service channel (record (channel.wire) { in_len = 40 }) ∷ [])
served_example =
    Served.served run 5 read (λ n. true) (callback_entry (2 ^ 24 + 3) 1 41 ∷ []) service [] channel
      (record (channel.wire) { in_len = 40 }) services-Tidy refl refl

abbrev failing : Xdr
failing = record zero_xdr { xid = 6; x_op = decode }

errors_reported_example :
    Message (svcerr_decode 0 no_auth 1 failing) (Answers.error_wire 6 4 no_auth)
    × Message (svcerr_systemerr 0 no_auth 1 failing) (Answers.error_wire 6 5 no_auth)
    × Message (svcerr_noproc 0 no_auth 1 failing) (Answers.error_wire 6 3 no_auth)
    × ((svcerr_decode 0 no_auth 1 failing).xdr_err ≡ 0)
    × ((svcerr_systemerr 0 no_auth 1 failing).xdr_err ≡ 0)
    × ((svcerr_noproc 0 no_auth 1 failing).xdr_err ≡ 0)
errors_reported_example =
    Answers.errors_reported 0 1 no_auth failing (omega arith) refl (omega arith)
