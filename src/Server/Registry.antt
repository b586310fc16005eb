-- ===== src/Server/Registry.antt =====
-- gps/libloc/librpc/svc.c: the list of services as a finite map.
use android_device_generic_m.Base.{
  ℕ, ◌≡◌, refl, sym, ap, ◌∙◌, Bool, true, false, ◌&&◌, Option, none, some, List, [], ◌∷◌, ◌==◌,
  if◌then◌else◌, Bool-cases, Option-cases, inl, inr, arith,
}
use mathlib.Core.Path.{ap₂}
use mathlib.Core.Option.{some-injective, none-ne-some}
use android_device_generic_m.Xdr.{int_lt}
use android_device_generic_m.Rpc.Channel.{Channel, xdr_init_common}
use android_device_generic_m.Server.{
  RegisteredServer, SvcXprt, SvcEvent, register_server, names, svc_find_nosync, svc_find, enlist,
  count_in, real_entry, callback_entry, watch, is_callback, register_new, register_real,
  svc_register, unlink, close, svc_unregister,
}

abbrev pub dispatch_of : Option RegisteredServer → Option ℕ
dispatch_of none = none
dispatch_of (some s) = some s.dispatch

-- The dispatch function that a program and a version lead to.
pub registry : SvcXprt → (prog vers : ℕ) → Option ℕ
registry t prog vers = dispatch_of (svc_find prog vers t)

-- The map with one more name.
abbrev pub update : (prog vers : ℕ) → Option ℕ → (ℕ → ℕ → Option ℕ) → ℕ → ℕ → Option ℕ
update prog vers d f q w = if prog == q && vers == w then d else f q w

dispatch_if :
    (b : Bool) (s : RegisteredServer) (o : Option RegisteredServer)
    → dispatch_of (if b then some s else o) ≡ (if b then some s.dispatch else dispatch_of o)
dispatch_if true s o = refl
dispatch_if false s o = refl

count_in-servers : (o : Option Channel) (t : SvcXprt) → (count_in o t).servers ≡ t.servers
count_in-servers none t = refl
count_in-servers (some c) t = refl

enlist_lem :
    (s : RegisteredServer) (t : SvcXprt) (es : List SvcEvent) (q w : ℕ)
    → registry (enlist s t es).xprt q w
      ≡ update s.x_prog s.x_vers (some s.dispatch) (registry t) q w
unfolding registry svc_find svc_find_nosync
enlist_lem s t es q w =
    ap (λ ss. dispatch_of (svc_find_nosync q w ss))
      (count_in-servers s.xdr (record t { servers = s ∷ t.servers }))
    ∙ dispatch_if (names q w s) s (svc_find_nosync q w t.servers)

-- An entry that was found has the name that was looked for.
pub found-names :
    (prog vers : ℕ) (ss : List RegisteredServer) (s : RegisteredServer)
    → svc_find_nosync prog vers ss ≡ some s
    → names prog vers s ≡ true
unfolding svc_find_nosync
found-names prog vers [] s e = absurd (none-ne-some s e)
found-names prog vers (r ∷ ss) s e = elim (Bool-cases (names prog vers r)) [
  | inl y ↦ ap (names prog vers) (sym (some-injective r s (rw y at e))) ∙ y
  | inr n ↦ found-names prog vers ss s (rw n at e)
]

pub same_name : (prog vers q w : ℕ) → (prog == q && vers == w) ≡ true → (prog ≡ q) × (vers ≡ w)
same_name prog vers q w h = ground arith

same_dispatch : (a d : ℕ) → (a == d) ≡ true → a ≡ d
same_dispatch a d h = ground arith

-- What is there already is not entered twice.
again_lem :
    (prog vers : ℕ) (t : SvcXprt) (s : RegisteredServer) (q w d : ℕ)
    → svc_find_nosync prog vers t.servers ≡ some s
    → registry t q w
      ≡ (if s.dispatch == d then update prog vers (some d) (registry t) q w else registry t q w)
unfolding registry svc_find
again_lem prog vers t s q w d e = elim (Bool-cases (s.dispatch == d)) [
  | inr n ↦ rw n refl
  | inl y ↦ elim (Bool-cases (prog == q && vers == w)) [
    | inr n ↦ rw (y, n) refl
    | inl k ↦
        let (p, v) = same_name prog vers q w k in
        rw (y, k, sym p, sym v) (ap dispatch_of e ∙ ap some (same_dispatch s.dispatch d y))
  ]
]

real_lem :
    (prog vers d control : ℕ) (c : Option Channel) (t : SvcXprt) (q w : ℕ)
    → registry (register_real prog vers d control c t).xprt q w ≡ (
        if (register_real prog vers d control c t).answer
        then update prog vers (some d) (registry t) q w
        else registry t q w)
unfolding registry svc_find
real_lem prog vers d control none t q w = refl
real_lem prog vers d control (some c) t q w = elim (Bool-cases (int_lt control 0)) [
  | inl y ↦ rw y refl
  | inr n ↦
      rw n (
        enlist_lem (real_entry prog vers d c) (watch c t) (register_server c.fd prog vers ∷ []) q w)
]

new_lem :
    (prog vers d control : ℕ) (c : Option Channel) (t : SvcXprt) (q w : ℕ)
    → registry (register_new prog vers d control c t).xprt q w ≡ (
        if (register_new prog vers d control c t).answer
        then update prog vers (some d) (registry t) q w
        else registry t q w)
new_lem prog vers d control c t q w = elim (Bool-cases (is_callback prog)) [
  | inl y ↦ rw y (enlist_lem (callback_entry prog vers d) t [] q w)
  | inr n ↦ rw n (real_lem prog vers d control c t q w)
]

-- A registration is the update of a map where it answers TRUE and changes the map nowhere where it
-- answers FALSE, whatever the program, and whether or not the name is taken, the descriptor opens and
-- the kernel agrees.
pub register-update :
    (prog vers dispatch control opened : ℕ) (t : SvcXprt) (q w : ℕ)
    → registry (svc_register prog vers dispatch control opened t).xprt q w ≡ (
        if (svc_register prog vers dispatch control opened t).answer
        then update prog vers (some dispatch) (registry t) q w
        else registry t q w)
unfolding svc_register
register-update prog vers dispatch control opened t q w =
    elim (Option-cases (svc_find_nosync prog vers t.servers)) [
      | inl e ↦ rw e (new_lem prog vers dispatch control (xdr_init_common opened false) t q w)
      | inr (s, e) ↦ rw e (again_lem prog vers t s q w dispatch e)
    ]

-- No two entries have the same name.
abbrev pub Distinct : List RegisteredServer → Type 0
Distinct [] = Unit
Distinct (s ∷ ss) = (svc_find_nosync s.x_prog s.x_vers ss ≡ none) × Distinct ss

other_name :
    (prog vers q w : ℕ) (s : RegisteredServer)
    → (prog == q && vers == w) ≡ false
    → names prog vers s ≡ true
    → names q w s ≡ false
other_name prog vers q w s n y = let (p, v) = same_name s.x_prog s.x_vers prog vers y in rw (p, v) n

unlink_other :
    (prog vers q w : ℕ) (ss : List RegisteredServer)
    → (prog == q && vers == w) ≡ false
    → svc_find_nosync q w (unlink prog vers ss) ≡ svc_find_nosync q w ss
unfolding svc_find_nosync unlink
unlink_other prog vers q w [] n = refl
unlink_other prog vers q w (s ∷ ss) n = elim (Bool-cases (names prog vers s)) [
  | inl y ↦ rw (y, other_name prog vers q w s n y) refl
  | inr m ↦ rw m (ap (λ o. if names q w s then some s else o) (unlink_other prog vers q w ss n))
]

pub unlink_gone :
    (prog vers : ℕ) (ss : List RegisteredServer)
    → Distinct ss
    → svc_find_nosync prog vers (unlink prog vers ss) ≡ none
unfolding svc_find_nosync unlink
unlink_gone prog vers [] d = refl
unlink_gone prog vers (s ∷ ss) (d, ds) = elim (Bool-cases (names prog vers s)) [
  | inl y ↦
      let (p, v) = same_name s.x_prog s.x_vers prog vers y in
      rw y (ap₂ (λ a b. svc_find_nosync a b ss) (sym p) (sym v) ∙ d)
  | inr m ↦ rw m (rw m (unlink_gone prog vers ss ds))
]

unlink_absent :
    (prog vers : ℕ) (ss : List RegisteredServer)
    → svc_find_nosync prog vers ss ≡ none
    → unlink prog vers ss ≡ ss
unfolding svc_find_nosync unlink
unlink_absent prog vers [] e = refl
unlink_absent prog vers (s ∷ ss) e = elim (Bool-cases (names prog vers s)) [
  | inl y ↦ absurd (none-ne-some s (sym (rw y at e)))
  | inr m ↦ rw m (ap (λ r. s ∷ r) (unlink_absent prog vers ss (rw m at e)))
]

pub close-servers :
    (prog vers : ℕ) (o : Option Channel) (t : SvcXprt) → (close prog vers o t).0.servers ≡ t.servers
close-servers prog vers none t = refl
close-servers prog vers (some c) t = elim (Bool-cases (is_callback prog)) [
  | inl y ↦ rw y refl
  | inr n ↦ rw n refl
]

-- The list that svc_unregister leaves.
pub unregister-servers :
    (prog vers : ℕ) (t : SvcXprt)
    → (svc_unregister prog vers t).0.servers ≡ unlink prog vers t.servers
unfolding svc_unregister
unregister-servers prog vers t = elim (Option-cases (svc_find_nosync prog vers t.servers)) [
  | inl e ↦ rw e (sym (unlink_absent prog vers t.servers e))
  | inr (s, e) ↦
      rw e (close-servers prog vers s.xdr (record t { servers = unlink prog vers t.servers }))
]

-- Among entries with distinct names, to unregister a name removes it from the map, and no other.
pub unregister-update :
    (prog vers : ℕ) (t : SvcXprt) (q w : ℕ)
    → Distinct t.servers
    → registry (svc_unregister prog vers t).0 q w ≡ update prog vers none (registry t) q w
unfolding registry svc_find
unregister-update prog vers t q w d =
    let e = ap (λ ss. dispatch_of (svc_find_nosync q w ss)) (unregister-servers prog vers t) in
    elim (Bool-cases (prog == q && vers == w)) [
      | inl y ↦
          let (p, v) = same_name prog vers q w y in
          e ∙ rw (y, sym p, sym v) (ap dispatch_of (unlink_gone prog vers t.servers d))
      | inr n ↦ e ∙ rw n (ap dispatch_of (unlink_other prog vers q w t.servers n))
    ]
