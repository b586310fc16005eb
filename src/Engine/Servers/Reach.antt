-- ===== src/Engine/Servers/Reach.antt =====
-- gps/libloc/libloc_api/loc_eng.cpp: the addresses that are set before the engine is initialised reach the modem.
use android_device_generic_m.Base.{
  ℕ, ◌≡◌, refl, sym, ap, ◌∙◌, Bool, true, false, Option, none, some, List, [], ◌∷◌, ◌++◌, take,
  first_some, first_some_assoc, first_some-none, if◌then◌else◌,
}
use android_device_generic_m.Engine.Servers.{
  AgpsType, agps_type_supl, agps_type_c2k, agps_type_other, Ioctl, Servers, Libc, ServerOp,
  ◌then_op◌, keep_server, set_if, set_typed, loc_eng_set_server, loc_eng_set_server_proxy,
  loc_eng_agps_init,
}
use android_device_generic_m.Engine.Servers.Sent.{set_server-sent}

pub record Setting : Type 0 where
  pub type : AgpsType
  pub hostname : List ℕ
  pub port : ℕ

-- An address as it is kept: the first 99 bytes of the name.
abbrev pub Kept : Type 0
Kept = List ℕ × ℕ

-- Addresses that are set one after the other.
abbrev pub set_all : Libc → List Setting → ServerOp
set_all c [] s = (s, [])
set_all c (x ∷ xs) s = (loc_eng_set_server_proxy c x.type x.hostname x.port then_op set_all c xs) s

abbrev pub initialised : Servers → Servers
initialised s = record s { loc_eng_inited = true }

abbrev pub IsFresh : Servers → Type 0
IsFresh s = (s.loc_eng_inited ≡ false) × (s.supl_host_set ≡ false) × (s.c2k_host_set ≡ false)

abbrev supl_type : AgpsType → Kept → Option Kept
supl_type agps_type_supl k = some k
supl_type agps_type_c2k k = none
supl_type agps_type_other k = none

abbrev c2k_type : AgpsType → Kept → Option Kept
c2k_type agps_type_supl k = none
c2k_type agps_type_c2k k = some k
c2k_type agps_type_other k = none

abbrev pub supl_of : Setting → Option Kept
supl_of x = supl_type x.type (take 99 x.hostname, x.port)

abbrev pub c2k_of : Setting → Option Kept
c2k_of x = c2k_type x.type (take 99 x.hostname, x.port)

-- The last address of a type.
abbrev pub latest : (Setting → Option Kept) → List Setting → Option Kept
latest of_type [] = none
latest of_type (x ∷ xs) = first_some (latest of_type xs) (of_type x)

-- What an engine that is initialised sends for an address.
abbrev pub sent_for : Libc → AgpsType → Servers → Option Kept → List Ioctl
sent_for c type s none = []
sent_for c type s (some (hostname, port)) = (loc_eng_set_server_proxy c type hostname port s).1

abbrev pub kept_if : Bool → Kept → Option Kept
kept_if false k = none
kept_if true k = some k

abbrev pub supl_kept : Servers → Option Kept
supl_kept s = kept_if s.supl_host_set (s.supl_host_buf, s.supl_port_buf)

abbrev pub c2k_kept : Servers → Option Kept
c2k_kept s = kept_if s.c2k_host_set (s.c2k_host_buf, s.c2k_port_buf)

abbrev pub keep : Setting → Servers → Servers
keep x s = keep_server x.type x.hostname x.port s

abbrev pub keep_all : List Setting → Servers → Servers
keep_all [] s = s
keep_all (x ∷ xs) s = keep_all xs (keep x s)

keep-inited :
    (t : AgpsType) (h : List ℕ) (p : ℕ) (s : Servers)
    → (keep_server t h p s).loc_eng_inited ≡ s.loc_eng_inited
keep-inited agps_type_supl h p s = refl
keep-inited agps_type_c2k h p s = refl
keep-inited agps_type_other h p s = refl

keep-supl :
    (t : AgpsType) (h : List ℕ) (p : ℕ) (s : Servers)
    → supl_kept (keep_server t h p s) ≡ first_some (supl_type t (take 99 h, p)) (supl_kept s)
keep-supl agps_type_supl h p s = refl
keep-supl agps_type_c2k h p s = refl
keep-supl agps_type_other h p s = refl

keep-c2k :
    (t : AgpsType) (h : List ℕ) (p : ℕ) (s : Servers)
    → c2k_kept (keep_server t h p s) ≡ first_some (c2k_type t (take 99 h, p)) (c2k_kept s)
keep-c2k agps_type_supl h p s = refl
keep-c2k agps_type_c2k h p s = refl
keep-c2k agps_type_other h p s = refl

keep_all-supl :
    (xs : List Setting) (s : Servers)
    → supl_kept (keep_all xs s) ≡ first_some (latest supl_of xs) (supl_kept s)
keep_all-supl [] s = refl
keep_all-supl (x ∷ xs) s =
    keep_all-supl xs (keep x s)
    ∙ ap (λ k. first_some (latest supl_of xs) k) (keep-supl x.type x.hostname x.port s)
    ∙ first_some_assoc (latest supl_of xs) (supl_of x) (supl_kept s)

keep_all-c2k :
    (xs : List Setting) (s : Servers)
    → c2k_kept (keep_all xs s) ≡ first_some (latest c2k_of xs) (c2k_kept s)
keep_all-c2k [] s = refl
keep_all-c2k (x ∷ xs) s =
    keep_all-c2k xs (keep x s)
    ∙ ap (λ k. first_some (latest c2k_of xs) k) (keep-c2k x.type x.hostname x.port s)
    ∙ first_some_assoc (latest c2k_of xs) (c2k_of x) (c2k_kept s)

proxy-early :
    (c : Libc) (t : AgpsType) (h : List ℕ) (p : ℕ) (s : Servers)
    → s.loc_eng_inited ≡ false
    → loc_eng_set_server_proxy c t h p s ≡ (keep_server t h p s, [])
unfolding loc_eng_set_server_proxy
proxy-early c t h p s e =
    ap (λ b. if b then loc_eng_set_server c t h p s else (keep_server t h p s, [])) e

-- Before the engine is initialised, addresses are kept only.
pub set_all-early :
    (c : Libc) (xs : List Setting) (s : Servers)
    → s.loc_eng_inited ≡ false
    → set_all c xs s ≡ (keep_all xs s, [])
set_all-early c [] s h = refl
set_all-early c (x ∷ xs) s h =
    ap (λ r. ((set_all c xs r.0).0, r.1 ++ (set_all c xs r.0).1))
      (proxy-early c x.type x.hostname x.port s h)
    ∙ set_all-early c xs (keep x s) (keep-inited x.type x.hostname x.port s ∙ h)

pub early_supl :
    (xs : List Setting) (s : Servers) → IsFresh s → supl_kept (keep_all xs s) ≡ latest supl_of xs
early_supl xs s (i, p, q) =
    keep_all-supl xs s
    ∙ ap (λ b. first_some (latest supl_of xs) (kept_if b (s.supl_host_buf, s.supl_port_buf))) p
    ∙ first_some-none (latest supl_of xs)

pub early_c2k :
    (xs : List Setting) (s : Servers) → IsFresh s → c2k_kept (keep_all xs s) ≡ latest c2k_of xs
early_c2k xs s (i, p, q) =
    keep_all-c2k xs s
    ∙ ap (λ b. first_some (latest c2k_of xs) (kept_if b (s.c2k_host_buf, s.c2k_port_buf))) q
    ∙ first_some-none (latest c2k_of xs)

set_if-sent :
    (c : Libc) (b : Bool) (type : AgpsType) (h : List ℕ) (p : ℕ) (s t : Servers)
    → t.loc_eng_inited ≡ true
    → (set_if c b type h p s).1 ≡ sent_for c type t (kept_if b (h, p))
unfolding loc_eng_set_server_proxy
set_if-sent c false type h p s t e = refl
set_if-sent c true type h p s t e =
    set_server-sent c type h p s t
    ∙ sym (
        ap (λ b. (if b then loc_eng_set_server c type h p t else (keep_server type h p t, [])).1) e)

if-same : (b : Bool) (s : Servers) (f : ServerOp) → (f s).0 ≡ s → (if b then f s else (s, [])).0 ≡ s
if-same true s f e = e
if-same false s f e = refl

-- The address of the first type changes nothing in the engine.
set_if-supl :
    (c : Libc) (b : Bool) (h : List ℕ) (p : ℕ) (s : Servers)
    → (set_if c b agps_type_supl h p s).0 ≡ s
unfolding loc_eng_set_server
set_if-supl c true h p s = if-same _ s (set_typed c agps_type_supl h p) refl
set_if-supl c false h p s = refl

agps_init-sent :
    (c : Libc) (s t : Servers)
    → t.loc_eng_inited ≡ true
    → (loc_eng_agps_init c s).1
      ≡ sent_for c agps_type_supl t (supl_kept s) ++ sent_for c agps_type_c2k t (c2k_kept s)
unfolding loc_eng_agps_init
agps_init-sent c s t e =
    let u = record s { loc_c2k_addr_is_set = false } in
    rw
      (
        set_if-supl c s.supl_host_set s.supl_host_buf s.supl_port_buf u,
        set_if-sent c s.supl_host_set agps_type_supl s.supl_host_buf s.supl_port_buf u t e,
        set_if-sent c s.c2k_host_set agps_type_c2k s.c2k_host_buf s.c2k_port_buf u t e,
      )
      refl

-- Addresses that are set before the engine is initialised send nothing, and loc_eng_agps_init behind the
-- initialisation sends what the engine sends for the last address of each type once it is initialised, of
-- the name the first 99 bytes.
pub early_reaches :
    (c : Libc) (xs : List Setting) (s : Servers)
    → IsFresh s
    → ((set_all c xs s).1 ≡ [])
      × ((loc_eng_agps_init c (initialised (set_all c xs s).0)).1
          ≡ sent_for c agps_type_supl (initialised s) (latest supl_of xs)
            ++ sent_for c agps_type_c2k (initialised s) (latest c2k_of xs))
early_reaches c xs s f =
    let early = set_all-early c xs s f.0 in
    (
      ap (λ r. r.1) early,
      ap (λ r. (loc_eng_agps_init c (initialised r.0)).1) early
          ∙ agps_init-sent c (initialised (keep_all xs s)) (initialised s) refl
          ∙ ap
              (λ k.
                sent_for c agps_type_supl (initialised s) k
                ++ sent_for c agps_type_c2k (initialised s) (c2k_kept (keep_all xs s)))
              (early_supl xs s f)
          ∙ ap
              (λ k.
                sent_for c agps_type_supl (initialised s) (latest supl_of xs)
                ++ sent_for c agps_type_c2k (initialised s) k)
              (early_c2k xs s f),
    )
