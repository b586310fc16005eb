-- ===== src/Server/Invariant.antt =====
-- gps/libloc/librpc/svc.c: what every sequence of registrations keeps.
use android_device_generic_m.Base.{
  ℕ, ◌+◌, ◌%◌, ◌^◌, ◌≡◌, refl, ap, ◌∙◌, Bool, true, false, Option, none, some, List, [], ◌∷◌, ◌==◌,
  Bool-cases, inl, inr, arith,
}
use mathlib.Core.Path.{subst}
use mathlib.Core.Option.{some-injective, none-ne-some}
use android_device_generic_m.Rpc.Channel.{Channel}
use android_device_generic_m.Server.{
  RegisteredServer, SvcXprt, names, svc_find_nosync, is_callback, fd_put, unlink,
}
use android_device_generic_m.Server.Dispatch.{on_fd}
use android_device_generic_m.Server.Registry.{Distinct}

-- No entry reads from this descriptor.
abbrev pub Unused : (fd : ℕ) → List RegisteredServer → Type 0
Unused fd [] = Unit
Unused fd (s ∷ ss) = (on_fd fd s.xdr ≡ false) × Unused fd ss

-- An entry for callbacks has no XDR. Any other one has, for its own program and version, and its
-- descriptor is watched.
abbrev pub IsEntry : (ℕ → Bool) → (prog vers : ℕ) → Option Channel → Type 0
IsEntry fds prog vers none = is_callback prog ≡ true
IsEntry fds prog vers (some c) =
    (is_callback prog ≡ false) × (c.wire.x_prog ≡ prog) × (c.wire.x_vers ≡ vers) × (fds c.fd ≡ true)

abbrev pub Apart : Option Channel → List RegisteredServer → Type 0
Apart none ss = Unit
Apart (some c) ss = Unused c.fd ss

-- Every entry is in order, and no two share a descriptor.
abbrev pub Tidy : (ℕ → Bool) → List RegisteredServer → Type 0
Tidy fds [] = Unit
Tidy fds (s ∷ ss) = IsEntry fds s.x_prog s.x_vers s.xdr × Apart s.xdr ss × Tidy fds ss

abbrev pub real_weight : Option Channel → ℕ
real_weight none = 0
real_weight (some c) = 1

abbrev pub callback_weight : Option Channel → ℕ
callback_weight none = 1
callback_weight (some c) = 0

abbrev pub total : (Option Channel → ℕ) → List RegisteredServer → ℕ
total f [] = 0
total f (s ∷ ss) = f s.xdr + total f ss

pub record WellFormed (t : SvcXprt) : Type 0 where
  pub distinct : Distinct t.servers
  pub tidy : Tidy t.fdset t.servers
  pub servers_counted : t.num_servers ≡ total real_weight t.servers % 2 ^ 32
  pub callbacks_counted : t.num_cb_servers ≡ total callback_weight t.servers % 2 ^ 32

-- A removed entry takes its weight with it.
pub total-unlink :
    (f : Option Channel → ℕ) (prog vers : ℕ) (ss : List RegisteredServer) (s : RegisteredServer)
    → svc_find_nosync prog vers ss ≡ some s
    → total f ss ≡ f s.xdr + total f (unlink prog vers ss)
unfolding svc_find_nosync unlink
total-unlink f prog vers [] s e = absurd (none-ne-some s e)
total-unlink f prog vers (r ∷ ss) s e = elim (Bool-cases (names prog vers r)) [
  | inl y ↦
      rw y (ap (λ (q : RegisteredServer). f q.xdr + total f ss) (some-injective r s (rw y at e)))
  | inr n ↦ let ih = total-unlink f prog vers ss s (rw n at e) in rw n (omega (arith, ih))
]

Unused-unlink :
    (fd prog vers : ℕ) (ss : List RegisteredServer) → Unused fd ss → Unused fd (unlink prog vers ss)
unfolding unlink
Unused-unlink fd prog vers [] u = tt
Unused-unlink fd prog vers (s ∷ ss) (u, us) = elim (Bool-cases (names prog vers s)) [
  | inl y ↦ rw y us
  | inr n ↦ rw n (u, Unused-unlink fd prog vers ss us)
]

Apart-unlink :
    (o : Option Channel) (prog vers : ℕ) (ss : List RegisteredServer)
    → Apart o ss
    → Apart o (unlink prog vers ss)
Apart-unlink none prog vers ss a = tt
Apart-unlink (some c) prog vers ss a = Unused-unlink c.fd prog vers ss a

pub Tidy-unlink :
    (fds : ℕ → Bool) (prog vers : ℕ) (ss : List RegisteredServer)
    → Tidy fds ss
    → Tidy fds (unlink prog vers ss)
unfolding unlink
Tidy-unlink fds prog vers [] t = tt
Tidy-unlink fds prog vers (s ∷ ss) (e, a, t) = elim (Bool-cases (names prog vers s)) [
  | inl y ↦ rw y t
  | inr n ↦ rw n (e, Apart-unlink s.xdr prog vers ss a, Tidy-unlink fds prog vers ss t)
]

-- The entry that a name leads to is in order.
pub found-IsEntry :
    (fds : ℕ → Bool) (prog vers : ℕ) (ss : List RegisteredServer) (s : RegisteredServer)
    → svc_find_nosync prog vers ss ≡ some s
    → Tidy fds ss
    → IsEntry fds s.x_prog s.x_vers s.xdr
unfolding svc_find_nosync
found-IsEntry fds prog vers [] s e t = absurd (none-ne-some s e)
found-IsEntry fds prog vers (r ∷ ss) s e (i, a, t) = elim (Bool-cases (names prog vers r)) [
  | inl y ↦
      subst (λ (q : RegisteredServer). IsEntry fds q.x_prog q.x_vers q.xdr)
        (some-injective r s (rw y at e)) i
  | inr n ↦ found-IsEntry fds prog vers ss s (rw n at e) t
]

-- A descriptor that no entry reads from is not that of an entry found by name.
found-on_fd :
    (fd prog vers : ℕ) (ss : List RegisteredServer) (s : RegisteredServer)
    → svc_find_nosync prog vers ss ≡ some s
    → Unused fd ss
    → on_fd fd s.xdr ≡ false
unfolding svc_find_nosync
found-on_fd fd prog vers [] s e u = absurd (none-ne-some s e)
found-on_fd fd prog vers (r ∷ ss) s e (u, us) = elim (Bool-cases (names prog vers r)) [
  | inl y ↦
      subst (λ (q : RegisteredServer). on_fd fd q.xdr ≡ false) (some-injective r s (rw y at e)) u
  | inr n ↦ found-on_fd fd prog vers ss s (rw n at e) us
]

flip_false : (a b : ℕ) → (a == b) ≡ false → (b == a) ≡ false
flip_false a b h = ground arith

Apart-fd :
    (o : Option Channel) (c : Channel) (ss : List RegisteredServer)
    → Apart o ss
    → ((fd : ℕ) → Unused fd ss → (c.fd == fd) ≡ false)
    → on_fd c.fd o ≡ false
Apart-fd none c ss a h = refl
Apart-fd (some b) c ss a h = flip_false c.fd b.fd (h b.fd a)

-- Once an entry is cut out, nothing reads from its descriptor.
pub Unused-cut :
    (fds : ℕ → Bool) (prog vers : ℕ) (ss : List RegisteredServer) (s : RegisteredServer)
    → (c : Channel) → svc_find_nosync prog vers ss ≡ some s
    → s.xdr ≡ some c
    → Tidy fds ss
    → Unused c.fd (unlink prog vers ss)
unfolding svc_find_nosync unlink
Unused-cut fds prog vers [] s c e x t = tt
Unused-cut fds prog vers (r ∷ ss) s c e x (i, a, t) = elim (Bool-cases (names prog vers r)) [
  | inl y ↦
      let same : r.xdr ≡ some c =
        ap (λ (q : RegisteredServer). q.xdr) (some-injective r s (rw y at e)) ∙ x in
      rw y (subst (λ o. Apart o ss) same a)
  | inr n ↦
      let f = rw n at e in
      rw n (
        Apart-fd r.xdr c ss a
            (λ fd u. subst (λ o. on_fd fd o ≡ false) x (found-on_fd fd prog vers ss s f u)),
        Unused-cut fds prog vers ss s c f x t,
      )
]

-- A watch on a descriptor that no entry reads from changes nothing.
IsEntry-fd_put :
    (fds : ℕ → Bool) (fd : ℕ) (b : Bool) (prog vers : ℕ) (o : Option Channel)
    → on_fd fd o ≡ false
    → IsEntry fds prog vers o
    → IsEntry (fd_put fd b fds) prog vers o
IsEntry-fd_put fds fd b prog vers none u i = i
IsEntry-fd_put fds fd b prog vers (some c) u i = (i.0, i.1, i.2, rw u i.3)

pub Tidy-fd_put :
    (fds : ℕ → Bool) (fd : ℕ) (b : Bool) (ss : List RegisteredServer)
    → Unused fd ss
    → Tidy fds ss
    → Tidy (fd_put fd b fds) ss
Tidy-fd_put fds fd b [] u t = tt
Tidy-fd_put fds fd b (s ∷ ss) (u, us) (i, a, t) =
    (IsEntry-fd_put fds fd b s.x_prog s.x_vers s.xdr u i, a, Tidy-fd_put fds fd b ss us t)
