-- ===== src/Xdr/Scalars/Storage/Tests.antt =====
-- The theorems on the allocating coders of gps/libloc/librpc/xdr.c at concrete values.
use android_device_generic_m.Base.{ℕ, ◌≡◌, refl, true, none, some, List, [], ◌∷◌, length, arith}
use android_device_generic_m.Xdr.{Xdr, decode, be32}
use android_device_generic_m.Xdr.Wire.{Room}
use android_device_generic_m.Rpc.Channel.{zero_xdr}
use android_device_generic_m.Xdr.Scalars.Storage.{strlen, xdr_string}
use android_device_generic_m.Xdr.Scalars.Storage.Strings

abbrev text : List ℕ
text = 104 ∷ (105 ∷ [])

text-IsText : Strings.IsText text
unfolding strlen
text-IsText = refl

abbrev reader : Xdr
reader = record zero_xdr {
  x_op = decode;
  in_msg = (xdr_string none 9 (some (Strings.terminated text)) zero_xdr).2.out_msg;
  in_len = (xdr_string none 9 (some (Strings.terminated text)) zero_xdr).2.out_next;
}

text-Room : Room zero_xdr (length (Strings.string_wire text))
unfolding be32
text-Room = record { aligned = refl; inside = omega arith }

string_roundtrip_example :
    ((xdr_string none 9 (some (Strings.terminated text)) zero_xdr).0 ≡ true)
    × (xdr_string (some (1 ∷ (2 ∷ (3 ∷ [])))) 9 none reader
        ≡ (true, some (Strings.terminated text), record reader { in_next = reader.in_len }))
string_roundtrip_example =
    Strings.string_roundtrip text (1 ∷ (2 ∷ (3 ∷ []))) 9 zero_xdr reader text-IsText (omega arith)
      refl refl refl text-Room (record { bytes = refl; start = refl; stop = refl })
