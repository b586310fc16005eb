-- ===== src/Client/ClntStat.antt =====
-- gps/libloc/librpc/rpc/clnt.h: `enum clnt_stat`, the values that clnt_call returns.
use android_device_generic_m.Base.{ℕ}

abbrev pub success : ℕ
success = 0

abbrev pub cant_encode_args : ℕ
cant_encode_args = 1

abbrev pub cant_decode_res : ℕ
cant_decode_res = 2

abbrev pub cant_send : ℕ
cant_send = 3

abbrev pub cant_recv : ℕ
cant_recv = 4

abbrev pub vers_mismatch : ℕ
vers_mismatch = 6

abbrev pub auth_err : ℕ
auth_err = 7

abbrev pub subsystem_restart : ℕ
subsystem_restart = 26
