-- ===== src/Rpc/Auth.antt =====
-- gps/libloc/librpc/clnt.c: xdr_recv_auth, on any message at all.
use mathlib.Core.Option.{some-injective, none-ne-some}
use android_device_generic_m.Base.{
  ℕ, ◌≡◌, inl, inr, ap, sym, ◌∙◌, if◌then◌else◌, Bool-cases, Option, none, some, ◌==◌, arith,
}
use android_device_generic_m.Xdr.{Bytes, Xdr, Recv, after, got, fail, ◌>>=◌}
use android_device_generic_m.Xdr.Transport.{recv_bytes, recv_int32, recv_uint32}
use android_device_generic_m.Rpc.{OpaqueAuth, xdr_recv_auth}

after-success :
    {A B : Type 0} (o : Option A × Xdr) (f : A → Recv B) {b : B}
    → (after o f).0 ≡ some b
    → (a : A) × (y : Xdr) × ((f a y).0 ≡ some b)
after-success (some a, x) f e = (a, x, e)
after-success (none, x) f e = absurd (none-ne-some _ e)

-- What follows the flavor and the length, where it succeeds.
auth_end :
    (base : Bytes) (f n : ℕ) (x : Xdr) (auth : OpaqueAuth)
    → ((if n == 0
          then got (record { oa_flavor = f; oa_length = n; oa_base = base })
          else (recv_bytes n >>= (λ s. fail)))
        x).0
      ≡ some auth
    → (auth.oa_length ≡ 0) × (auth.oa_base ≡ base)
auth_end base f n x auth e = elim (Bool-cases (n == 0)) [
  | inl z ↦
      let p : record { oa_flavor = f; oa_length = n; oa_base = base } ≡ auth =
        some-injective _ _ (rw z at e) in
      (sym (ap (λ a. a.oa_length) p) ∙ ground arith, sym (ap (λ a. a.oa_base) p))
  | inr z ↦
      let (u, y, w) = after-success (recv_bytes n x) (λ s. fail) (rw z at e) in
      absurd (none-ne-some _ w)
]

-- Whenever xdr_recv_auth succeeds, on any message, the verifier it yields has no body and keeps its old
-- base: a verifier with a body is refused.
pub recv_auth_only_bare :
    (base : Bytes) (x : Xdr) (auth : OpaqueAuth)
    → (xdr_recv_auth base x).0 ≡ some auth
    → (auth.oa_length ≡ 0) × (auth.oa_base ≡ base)
unfolding xdr_recv_auth
recv_auth_only_bare base x auth e =
    let (f, y, p) = after-success (recv_int32 x) _ e in
    let (n, z, q) = after-success (recv_uint32 y) _ p in auth_end base f n z auth q
