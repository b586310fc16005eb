-- ===== src/Xdr/Scalars/Tests.antt =====
-- The theorems on gps/libloc/librpc/xdr.c at concrete values.
use android_device_generic_m.Base.{◌≡◌, refl, true, some, [], ◌∷◌, length, arith, ◌^◌}
use android_device_generic_m.Xdr.{Bytes, Xdr, encode, decode, be32, window, minus_one}
use android_device_generic_m.Xdr.Transport.{send_bytes, recv_bytes}
use android_device_generic_m.Xdr.Wire.{Room, Carried}
use android_device_generic_m.Xdr.Opaque
use android_device_generic_m.Xdr.Scalars.{xdr_u_short, xdr_vector}
use android_device_generic_m.Xdr.Scalars.Codec
use android_device_generic_m.Xdr.Scalars.Vectors

abbrev zeros : Bytes
zeros i = 0

abbrev blank : Xdr
blank = record {
  x_op = encode;
  x_prog = 0;
  x_vers = 0;
  x_proc = 0;
  xid = 7;
  out_msg = zeros;
  out_next = 8;
  in_msg = zeros;
  in_next = 8;
  in_len = 100;
  xdr_err = 0;
}

abbrev receiver : Xdr
receiver = record blank {
  x_op = decode;
  in_msg = (xdr_vector xdr_u_short (5 ∷ 70 ∷ []) blank).2.out_msg;
  in_len = (xdr_vector xdr_u_short (5 ∷ 70 ∷ []) blank).2.out_next;
}

two-Room : Room blank (length (Codec.vector_wire be32 (5 ∷ 70 ∷ [])))
unfolding be32
two-Room = record { aligned = refl; inside = omega arith }

receiver-Carried : Carried blank (xdr_vector xdr_u_short (5 ∷ 70 ∷ []) blank).2 receiver
receiver-Carried = record { bytes = refl; start = refl; stop = refl }

shorts_roundtrip_example :
    ((xdr_vector xdr_u_short (5 ∷ 70 ∷ []) blank).0 ≡ true)
    × (xdr_vector xdr_u_short (0 ∷ 0 ∷ []) receiver
        ≡ (true, 5 ∷ 70 ∷ [], record receiver { in_next = receiver.in_len }))
shorts_roundtrip_example =
    Vectors.shorts_roundtrip (5 ∷ 70 ∷ []) (0 ∷ 0 ∷ []) blank receiver
      (omega arith, (omega arith, tt)) refl refl refl two-Room receiver-Carried

bytes_wrap_example :
    ((send_bytes zeros minus_one blank).0 ≡ true)
    × ((recv_bytes (2 ^ 31) blank).0 ≡ some (window zeros 8 (2 ^ 31)))
bytes_wrap_example =
    Opaque.bytes_wrap zeros minus_one (2 ^ 31) blank (omega arith) (omega arith) (omega arith)
      (omega arith) (omega arith)
