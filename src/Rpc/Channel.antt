-- ===== src/Rpc/Channel.antt =====
-- gps/libloc/librpc/svc_clnt_common.c: the XDR of an open descriptor. calloc succeeds; what r_open and
-- dup return is an argument.
use android_device_generic_m.Base.{ℕ, Bool, Option, none, some, if◌then◌else◌}
use android_device_generic_m.Xdr.{Bytes, Xdr, encode, int_lt}
use android_device_generic_m.Rpc.{OpaqueAuth}

-- `struct xdr_struct` with its descriptor, its verifier and its role.
pub record Channel : Type 0 where
  pub fd : ℕ
  pub is_client : Bool
  pub verf : OpaqueAuth
  pub wire : Xdr

-- What calloc leaves; an authenticator of zeros is AUTH_NONE.
abbrev pub zero_bytes : Bytes
zero_bytes i = 0

abbrev pub no_auth : OpaqueAuth
no_auth = record { oa_flavor = 0; oa_length = 0; oa_base = zero_bytes }

abbrev pub zero_xdr : Xdr
zero_xdr = record {
  x_op = encode;
  x_prog = 0;
  x_vers = 0;
  x_proc = 0;
  xid = 0;
  out_msg = zero_bytes;
  out_next = 0;
  in_msg = zero_bytes;
  in_next = 0;
  in_len = 0;
  xdr_err = 0;
}

-- `fd` is what r_open returned.
unfoldable pub xdr_init_common : (fd : ℕ) (is_client : Bool) → Option Channel
xdr_init_common fd is_client =
    if int_lt fd 0
    then none
    else some (record { fd = fd; is_client = is_client; verf = no_auth; wire = zero_xdr })

-- `fd` is what dup returned. The xid stays 0.
unfoldable pub xdr_clone : (fd : ℕ) → Channel → Option Channel
xdr_clone fd other =
    if int_lt fd 0
    then none
    else some (record {
      fd = fd;
      is_client = other.is_client;
      verf = no_auth;
      wire = record zero_xdr { x_prog = other.wire.x_prog; x_vers = other.wire.x_vers };
    })
