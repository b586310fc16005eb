-- ===== src/Server/Kept.antt =====
-- gps/libloc/librpc/svc.c: registration and its end keep the list of services in order.
use android_device_generic_m.Base.{
  ℕ, ◌+◌, ◌%◌, ◌^◌, ◌≡◌, refl, sym, ap, ◌∙◌, true, false, Option, none, some, List, [], ◌∷◌,
  if◌then◌else◌, Bool-cases, Option-cases, inl, inr, arith, ==_refl,
}
use mathlib.Core.Path.{subst}
use mathlib.Core.Option.{none-ne-some}
use android_device_generic_m.Xdr.{int_lt, add32, minus_one}
use android_device_generic_m.Rpc.Channel.{Channel, xdr_init_common}
use android_device_generic_m.Server.{
  RegisteredServer, SvcXprt, new_xprt, names, svc_find_nosync, is_callback, unlink, count_in, close,
  real_entry, callback_entry, register_real, register_new, watch, svc_register, svc_unregister,
  svc_set_in_reset,
}
use android_device_generic_m.Server.Registry.{Distinct, found-names, same_name}
use android_device_generic_m.Server.Invariant.{
  Unused, Apart, IsEntry, WellFormed, total, real_weight, callback_weight, total-unlink,
  Tidy-unlink, Tidy-fd_put, found-IsEntry, Unused-cut,
}

count_up : (n a : ℕ) → n ≡ a % 2 ^ 32 → add32 n 1 ≡ (1 + a) % 2 ^ 32
count_up n a h = omega (arith, h)

count_down : (n a b : ℕ) → n ≡ a % 2 ^ 32 → a ≡ 1 + b → add32 n minus_one ≡ b % 2 ^ 32
count_down n a b h e = omega (arith, h, e)

count_same : (n a b : ℕ) → n ≡ a % 2 ^ 32 → a ≡ 0 + b → n ≡ b % 2 ^ 32
count_same n a b h e = omega (arith, h, e)

plus_zero : (a : ℕ) → a ≡ 0 + (0 + a)
plus_zero a = omega arith

-- What a removed entry with this XDR takes away.
weigh :
    (f : Option Channel → ℕ) (prog vers : ℕ) (ss : List RegisteredServer) (s : RegisteredServer)
    → (o : Option Channel) → svc_find_nosync prog vers ss ≡ some s
    → s.xdr ≡ o
    → total f ss ≡ f o + total f (unlink prog vers ss)
weigh f prog vers ss s o e x =
    total-unlink f prog vers ss s e ∙ ap (λ q. f q + total f (unlink prog vers ss)) x

-- One more entry, at the front.
enter-WellFormed :
    (s : RegisteredServer) (o : Option Channel) (t : SvcXprt)
    → WellFormed t
    → svc_find_nosync s.x_prog s.x_vers t.servers ≡ none
    → IsEntry t.fdset s.x_prog s.x_vers o
    → Apart o t.servers
    → WellFormed (count_in o (record t { servers = record s { xdr = o } ∷ t.servers }))
enter-WellFormed s none t w new i a = record {
  distinct = (new, w.distinct);
  tidy = (i, a, w.tidy);
  servers_counted = count_same t.num_servers _ _ w.servers_counted (plus_zero _);
  callbacks_counted = count_up t.num_cb_servers _ w.callbacks_counted;
}
enter-WellFormed s (some c) t w new i a = record {
  distinct = (new, w.distinct);
  tidy = (i, a, w.tidy);
  servers_counted = count_up t.num_servers _ w.servers_counted;
  callbacks_counted = count_same t.num_cb_servers _ _ w.callbacks_counted (plus_zero _);
}

watch-WellFormed :
    (c : Channel) (t : SvcXprt) → Unused c.fd t.servers → WellFormed t → WellFormed (watch c t)
watch-WellFormed c t u w = record {
  distinct = w.distinct;
  tidy = Tidy-fd_put t.fdset c.fd true t.servers u w.tidy;
  servers_counted = w.servers_counted;
  callbacks_counted = w.callbacks_counted;
}

real-WellFormed :
    (prog vers d control : ℕ) (o : Option Channel) (t : SvcXprt)
    → WellFormed t
    → is_callback prog ≡ false
    → svc_find_nosync prog vers t.servers ≡ none
    → Apart o t.servers
    → WellFormed (register_real prog vers d control o t).xprt
real-WellFormed prog vers d control none t w r new a = w
real-WellFormed prog vers d control (some c) t w r new a = elim (Bool-cases (int_lt control 0)) [
  | inl y ↦ rw y w
  | inr n ↦ rw n (
      enter-WellFormed (callback_entry prog vers d) ((real_entry prog vers d c).xdr) (watch c t)
        (watch-WellFormed c t a w) new
        (r, refl, refl, ap (λ b. if b then true else t.fdset c.fd) (==_refl c.fd)) a)
]

new-WellFormed :
    (prog vers d control : ℕ) (o : Option Channel) (t : SvcXprt)
    → WellFormed t
    → svc_find_nosync prog vers t.servers ≡ none
    → Apart o t.servers
    → WellFormed (register_new prog vers d control o t).xprt
new-WellFormed prog vers d control o t w new a = elim (Bool-cases (is_callback prog)) [
  | inl y ↦ rw y (enter-WellFormed (callback_entry prog vers d) none t w new y tt)
  | inr n ↦ rw n (real-WellFormed prog vers d control o t w n new a)
]

init-Apart :
    (fd : ℕ) (ss : List RegisteredServer) → Unused fd ss → Apart (xdr_init_common fd false) ss
unfolding xdr_init_common
init-Apart fd ss u = elim (Bool-cases (int_lt fd 0)) [ inl y ↦ rw y tt | inr n ↦ rw n u ]

register-WellFormed :
    (prog vers dispatch control opened : ℕ) (t : SvcXprt)
    → WellFormed t
    → Unused opened t.servers
    → WellFormed (svc_register prog vers dispatch control opened t).xprt
unfolding svc_register
register-WellFormed prog vers dispatch control opened t w u =
    elim (Option-cases (svc_find_nosync prog vers t.servers)) [
      | inl e ↦ rw e (
          new-WellFormed prog vers dispatch control (xdr_init_common opened false) t w e
            (init-Apart opened t.servers u))
      | inr (s, e) ↦ rw e w
    ]

absent-unlink :
    (q w prog vers : ℕ) (ss : List RegisteredServer)
    → svc_find_nosync q w ss ≡ none
    → svc_find_nosync q w (unlink prog vers ss) ≡ none
unfolding svc_find_nosync unlink
absent-unlink q w prog vers [] e = refl
absent-unlink q w prog vers (s ∷ ss) e = elim (Bool-cases (names q w s)) [
  | inl y ↦ absurd (none-ne-some s (sym (rw y at e)))
  | inr n ↦
      let rest = absent-unlink q w prog vers ss (rw n at e) in
      elim (Bool-cases (names prog vers s)) [ inl y ↦ rw y (rw n at e) | inr m ↦ rw m (rw n rest) ]
]

Distinct-unlink :
    (prog vers : ℕ) (ss : List RegisteredServer) → Distinct ss → Distinct (unlink prog vers ss)
unfolding unlink
Distinct-unlink prog vers [] d = tt
Distinct-unlink prog vers (s ∷ ss) (d, ds) = elim (Bool-cases (names prog vers s)) [
  | inl y ↦ rw y ds
  | inr n ↦ rw n (absent-unlink s.x_prog s.x_vers prog vers ss d, Distinct-unlink prog vers ss ds)
]

close-WellFormed :
    (prog vers : ℕ) (o : Option Channel) (s : RegisteredServer) (t : SvcXprt)
    → WellFormed t
    → svc_find_nosync prog vers t.servers ≡ some s
    → s.xdr ≡ o
    → IsEntry t.fdset prog vers o
    → WellFormed (close prog vers o (record t { servers = unlink prog vers t.servers })).0
close-WellFormed prog vers none s t w e x i = record {
  distinct = Distinct-unlink prog vers t.servers w.distinct;
  tidy = Tidy-unlink t.fdset prog vers t.servers w.tidy;
  servers_counted =
      count_same t.num_servers _ _ w.servers_counted
        (weigh real_weight prog vers t.servers s none e x);
  callbacks_counted =
      count_down t.num_cb_servers _ _ w.callbacks_counted
        (weigh callback_weight prog vers t.servers s none e x);
}
close-WellFormed prog vers (some c) s t w e x i = rw (i.0) (record {
  distinct = Distinct-unlink prog vers t.servers w.distinct;
  tidy =
      Tidy-fd_put t.fdset c.fd false (unlink prog vers t.servers)
        (Unused-cut t.fdset prog vers t.servers s c e x w.tidy)
        (Tidy-unlink t.fdset prog vers t.servers w.tidy);
  servers_counted =
      count_down t.num_servers _ _ w.servers_counted
        (weigh real_weight prog vers t.servers s (some c) e x);
  callbacks_counted =
      count_same t.num_cb_servers _ _ w.callbacks_counted
        (weigh callback_weight prog vers t.servers s (some c) e x);
})

unregister-WellFormed :
    (prog vers : ℕ) (t : SvcXprt) → WellFormed t → WellFormed (svc_unregister prog vers t).0
unfolding svc_unregister
unregister-WellFormed prog vers t w = elim (Option-cases (svc_find_nosync prog vers t.servers)) [
  | inl e ↦ rw e w
  | inr (s, e) ↦
      let (p, v) = same_name s.x_prog s.x_vers prog vers (found-names prog vers t.servers s e) in
      let i = found-IsEntry t.fdset prog vers t.servers s e w.tidy in
      rw e (
        close-WellFormed prog vers s.xdr s t w e refl (
          subst (λ a. IsEntry t.fdset a vers s.xdr) p
            (subst (λ b. IsEntry t.fdset s.x_prog b s.xdr) v i)))
]

-- What threads do to a transport one after the other. r_open returns a descriptor that is not open.
pub data Reached : SvcXprt → Type 0 where
  created : Reached new_xprt
  after_register :
      (prog vers dispatch control opened : ℕ) {t : SvcXprt}
      → Reached t
      → Unused opened t.servers
      → Reached (svc_register prog vers dispatch control opened t).xprt
  after_unregister :
      (prog vers : ℕ) {t : SvcXprt} → Reached t → Reached (svc_unregister prog vers t).0
  after_reset : (val : ℕ) {t : SvcXprt} → Reached t → Reached (svc_set_in_reset val t)

-- Whatever sequence of registrations, their ends and resets, no two services have a name or a
-- descriptor in common, the services for callbacks are those without an XDR, every other one is
-- watched by select under its own name, and the two counters count the two kinds modulo 2^32.
pub Reached-WellFormed : {t : SvcXprt} → Reached t → WellFormed t
unfolding svc_set_in_reset
Reached-WellFormed created = record {
  distinct = tt;
  tidy = tt;
  servers_counted = refl;
  callbacks_counted = refl;
}
Reached-WellFormed (after_register prog vers dispatch control opened {t} r u) =
    register-WellFormed prog vers dispatch control opened t (Reached-WellFormed r) u
Reached-WellFormed (after_unregister prog vers {t} r) =
    unregister-WellFormed prog vers t (Reached-WellFormed r)
Reached-WellFormed (after_reset val r) =
    let w = Reached-WellFormed r in
    record {
      distinct = w.distinct;
      tidy = w.tidy;
      servers_counted = w.servers_counted;
      callbacks_counted = w.callbacks_counted;
    }
