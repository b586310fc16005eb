-- ===== src/Xdr/Scalars/Vectors.antt =====
-- gps/libloc/librpc/xdr.c: a vector of short integers from one side to the other.
use android_device_generic_m.Base.{ℕ, ◌^◌, ◌≡◌, true, List, [], ◌∷◌, length, arith}
use android_device_generic_m.Xdr.{Xdr, encode, decode, be32}
use android_device_generic_m.Xdr.Wire.{Room, Carried}
use android_device_generic_m.Xdr.Scalars.{xdr_u_short, xdr_vector}
use android_device_generic_m.Xdr.Scalars.Codec.{
  Anything, All, AllFit, vector_wire, vector-Codec, codec_roundtrip,
}
use android_device_generic_m.Xdr.Scalars.Exact.{IsBelow, shorts_carried}

fit_all : (l spare : List ℕ) → length spare ≡ length l → AllFit Anything l spare
fit_all [] [] e = tt
fit_all [] (b ∷ bs) e = absurd (omega (arith, e))
fit_all (a ∷ l) [] e = absurd (omega (arith, e))
fit_all (a ∷ l) (b ∷ bs) e = (tt, fit_all l bs (omega (arith, e)))

-- xdr_vector over xdr_u_short, with room for a word for each of the numbers below 2^16, encodes them, and
-- where the other side has that message it decodes the same numbers over any others, as many, and has then
-- read the whole message.
pub shorts_roundtrip :
    (l spare : List ℕ) (x z : Xdr)
    → All (IsBelow (2 ^ 16)) l
    → length spare ≡ length l
    → x.x_op ≡ encode
    → z.x_op ≡ decode
    → Room x (length (vector_wire be32 l))
    → Carried x (xdr_vector xdr_u_short l x).2 z
    → ((xdr_vector xdr_u_short l x).0 ≡ true)
      × (xdr_vector xdr_u_short spare z ≡ (true, l, record z { in_next = z.in_len }))
shorts_roundtrip l spare x z k n encoding decoding room carried =
    codec_roundtrip (vector-Codec shorts_carried.0) l spare x z k (fit_all l spare n) encoding
      decoding room carried
