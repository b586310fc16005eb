-- ===== src/Server/Refcount.antt =====
-- gps/libloc/librpc/svc.c: the one transport of the process and the count of those who use it.
use android_device_generic_m.Base.{
  ℕ, zero, suc, ◌-◌, ◌^◌, ◌≤◌, ◌<◌, ◌≡◌, refl, ap, ◌∙◌, Bool, true, false, Option, none, some, ◌==◌,
  ==_refl, if◌then◌else◌, arith,
}
use android_device_generic_m.Xdr.{add32, minus_one}

-- The globals `the_xprt` and `xprt_refcount`.
pub record XprtRefs : Type 0 where
  pub the_xprt : Option ℕ
  pub xprt_refcount : ℕ

abbrev pub unreferenced : XprtRefs
unreferenced = record { the_xprt = none; xprt_refcount = 0 }

-- `calloc` is the address of a new transport.
unfoldable pub svcrtr_create : (calloc : Option ℕ) → XprtRefs → Option ℕ
svcrtr_create calloc r = elim r.the_xprt [ some t ↦ some t | none ↦ calloc ]

-- `!the_xprt || (xprt && (xprt == the_xprt))`
abbrev pub may_register : (xprt the : Option ℕ) → Bool
may_register xprt none = true
may_register none (some t) = false
may_register (some a) (some t) = a == t

unfoldable pub xprt_register : (xprt : Option ℕ) → XprtRefs → XprtRefs
xprt_register xprt r =
    if may_register xprt r.the_xprt
    then record { the_xprt = xprt; xprt_refcount = add32 r.xprt_refcount 1 }
    else r

-- `xprt && xprt == the_xprt`
abbrev pub is_the_xprt : (xprt the : Option ℕ) → Bool
is_the_xprt none the = false
is_the_xprt (some a) none = false
is_the_xprt (some a) (some t) = a == t

-- With whether the transport was destroyed.
unfoldable pub xprt_unregister : (xprt : Option ℕ) → XprtRefs → XprtRefs × Bool
xprt_unregister xprt r =
    if is_the_xprt xprt r.the_xprt
    then if r.xprt_refcount == 1
      then (unreferenced, true)
      else (record r { xprt_refcount = add32 r.xprt_refcount minus_one }, false)
    else (r, false)

unfoldable pub register_times : (xprt n : ℕ) → XprtRefs → XprtRefs
register_times xprt zero r = r
register_times xprt (suc n) r = xprt_register (some xprt) (register_times xprt n r)

abbrev count_destroyed : XprtRefs × ℕ → XprtRefs × Bool → XprtRefs × ℕ
count_destroyed before (r, b) = (r, if b then suc before.1 else before.1)

-- With how often the transport was destroyed.
unfoldable pub unregister_times : (xprt n : ℕ) → XprtRefs → XprtRefs × ℕ
unregister_times xprt zero r = (r, 0)
unregister_times xprt (suc n) r =
    let before = unregister_times xprt n r in
    count_destroyed before (xprt_unregister (some xprt) before.0)

abbrev pub used : (xprt n : ℕ) → XprtRefs
used xprt n = record { the_xprt = some xprt; xprt_refcount = n }

register_times_lem :
    (xprt n : ℕ) → n < 2 ^ 32 - 1 → register_times xprt (suc n) unreferenced ≡ used xprt (suc n)
unfolding register_times xprt_register
register_times_lem xprt zero h = refl
register_times_lem xprt (suc n) h =
    let e : add32 (suc n) 1 ≡ suc (suc n) = omega (arith, h) in
    ap (xprt_register (some xprt)) (register_times_lem xprt n (omega (arith, h)))
    ∙ ap (λ b. if b then used xprt (add32 (suc n) 1) else used xprt (suc n)) (==_refl xprt)
    ∙ ap (used xprt) e

unregister_one :
    (xprt m : ℕ)
    → suc (suc m) < 2 ^ 32
    → xprt_unregister (some xprt) (used xprt (suc (suc m))) ≡ (used xprt (suc m), false)
unfolding xprt_unregister
unregister_one xprt m h =
    let r = used xprt (suc (suc m)) in
    let e : add32 (suc (suc m)) minus_one ≡ suc m = omega (arith, h) in
    let many : (suc (suc m) == 1) ≡ false = ground arith in
    let mine = ==_refl xprt in rw (mine, many) (ap (λ c. (used xprt c, false)) e)

unregister_last : (xprt : ℕ) → xprt_unregister (some xprt) (used xprt 1) ≡ (unreferenced, true)
unfolding xprt_unregister
unregister_last xprt = let mine = ==_refl xprt in rw mine refl

unregister_times_lem :
    (xprt n k : ℕ)
    → n < 2 ^ 32 - 1
    → k ≤ n
    → unregister_times xprt k (used xprt (suc n)) ≡ (used xprt (suc n - k), 0)
unfolding unregister_times xprt_unregister
unregister_times_lem xprt n zero h l =
    let e : suc n ≡ suc n - 0 = omega arith in ap (λ m. (used xprt m, 0)) e
unregister_times_lem xprt n (suc k) h l =
    let left : suc n - k ≡ suc (suc (n - suc k)) = omega (arith, l) in
    let next : suc (n - suc k) ≡ suc n - suc k = omega (arith, l) in
    ap (λ o. count_destroyed o (xprt_unregister (some xprt) o.0))
      (unregister_times_lem xprt n k h (omega (arith, l)) ∙ ap (λ m. (used xprt m, 0)) left)
    ∙ ap (count_destroyed (used xprt (suc (suc (n - suc k))), 0))
        (unregister_one xprt (n - suc k) (omega (arith, h, l)))
    ∙ ap (λ m. (used xprt m, 0)) next

unregister_all :
    (xprt n : ℕ)
    → n < 2 ^ 32 - 1
    → unregister_times xprt (suc n) (used xprt (suc n)) ≡ (unreferenced, 1)
unfolding unregister_times
unregister_all xprt n h =
    let one : suc n - n ≡ 1 = omega arith in
    ap (λ o. count_destroyed o (xprt_unregister (some xprt) o.0))
      (unregister_times_lem xprt n n h (omega arith) ∙ ap (λ m. (used xprt m, 0)) one)
    ∙ ap (count_destroyed (used xprt 1, 0)) (unregister_last xprt)

-- A transport that is registered n + 1 times from nothing stays through the first n times that it is
-- unregistered and is destroyed, once, at the next, which leaves nothing; n is below 2^32 - 1.
pub refcount_balanced :
    (xprt n k : ℕ)
    → n < 2 ^ 32 - 1
    → k ≤ n
    → (unregister_times xprt k (register_times xprt (suc n) unreferenced)
        ≡ (used xprt (suc n - k), 0))
      × (unregister_times xprt (suc n) (register_times xprt (suc n) unreferenced)
          ≡ (unreferenced, 1))
refcount_balanced xprt n k h l = (
  ap (unregister_times xprt k) (register_times_lem xprt n h) ∙ unregister_times_lem xprt n k h l,
  ap (unregister_times xprt (suc n)) (register_times_lem xprt n h) ∙ unregister_all xprt n h,
)
