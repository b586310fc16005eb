-- ===== src/Engine/Servers/Modes.antt =====
-- gps/libloc/libloc_api/loc_eng.cpp: which position modes the modem is asked for.
use android_device_generic_m.Base.{
  ℕ, ◌≡◌, refl, sym, ap, ◌∙◌, Bool, true, false, ◌||◌, Option, none, some, List, [], ◌∷◌, ◌++◌, map,
  if◌then◌else◌,
}
use android_device_generic_m.Engine.Servers.{
  AgpsType, agps_type_supl, agps_type_c2k, agps_type_other, PositionMode, standalone, Recurrence,
  Ioctl, umts_slp_server, cdma_pde_server, fix_criteria, Servers, Libc, ServerOp, ◌then_op◌,
  c2k_unset, allowed_mode, set_c2k, set_typed, set_if, resolve_in_addr, loc_eng_set_server,
  loc_eng_set_server_proxy, loc_eng_agps_init, loc_eng_set_position_mode,
}
use android_device_generic_m.Engine.Servers.Reach.{
  Setting, Kept, set_all, initialised, IsFresh, supl_of, c2k_of, latest, kept_if, keep_all,
  set_all-early, early_supl, early_c2k,
}

-- The calls of the framework once the engine is initialised.
pub data Request : Type 0 where
  server : Setting → Request
  agps_init : Request
  position_mode :
      PositionMode → Recurrence → (min_interval preferred_accuracy preferred_time : ℕ) → Request

abbrev pub serve : Libc → Request → ServerOp
serve c (server x) = loc_eng_set_server_proxy c x.type x.hostname x.port
serve c agps_init = loc_eng_agps_init c
serve c (position_mode m r i a t) = loc_eng_set_position_mode m r i a t

abbrev pub serve_all : Libc → List Request → ServerOp
serve_all c [] s = (s, [])
serve_all c (q ∷ qs) s = (serve c q then_op serve_all c qs) s

-- The modes of the fix criteria that were sent.
abbrev pub modes : List Ioctl → List PositionMode
modes [] = []
modes (umts_slp_server n url ∷ is) = modes is
modes (cdma_pde_server a p ∷ is) = modes is
modes (fix_criteria f ∷ is) = f.preferred_operation_mode ∷ modes is

-- The modes that were asked for.
abbrev pub asked : List Request → List PositionMode
asked [] = []
asked (server x ∷ qs) = asked qs
asked (agps_init ∷ qs) = asked qs
asked (position_mode m r i a t ∷ qs) = m ∷ asked qs

abbrev is_known {ℓ} : {A : Type ℓ} → Option A → Bool
is_known none = false
is_known (some a) = true

-- An address of either type is among the settings.
abbrev pub any_known : List Setting → Bool
any_known xs = is_known (latest supl_of xs) || is_known (latest c2k_of xs)

-- What the requests keep: the engine is initialised, and which addresses it has.
record Same (s t : Servers) : Type 0 where
  pub inited : s.loc_eng_inited ≡ t.loc_eng_inited
  pub supl : s.supl_host_set ≡ t.supl_host_set
  pub c2k : s.c2k_host_set ≡ t.c2k_host_set

-- An operation that keeps them and sends no fix criteria.
abbrev IsQuiet : ServerOp → Type 0
IsQuiet f = (s : Servers) → Same (f s).0 s × (modes (f s).1 ≡ [])

same : (s : Servers) → Same s s
same s = record { inited = refl; supl = refl; c2k = refl }

trans : {s t u : Servers} → Same s t → Same t u → Same s u
trans a b = record { inited = a.inited ∙ b.inited; supl = a.supl ∙ b.supl; c2k = a.c2k ∙ b.c2k }

modes-append : (is js : List Ioctl) → modes (is ++ js) ≡ modes is ++ modes js
modes-append [] js = refl
modes-append (umts_slp_server n url ∷ is) js = modes-append is js
modes-append (cdma_pde_server a p ∷ is) js = modes-append is js
modes-append (fix_criteria f ∷ is) js =
    ap (λ ms. f.preferred_operation_mode ∷ ms) (modes-append is js)

then-IsQuiet : (f g : ServerOp) → IsQuiet f → IsQuiet g → IsQuiet (f then_op g)
then-IsQuiet f g p q s = (
  trans (q (f s).0).0 (p s).0,
  modes-append (f s).1 (g (f s).0).1 ∙ ap (λ ms. ms ++ modes (g (f s).0).1) (p s).1 ∙ (q (f s).0).1,
)

if-IsQuiet : (b : Bool) (f : ServerOp) → IsQuiet f → IsQuiet (λ s. if b then f s else (s, []))
if-IsQuiet true f p s = p s
if-IsQuiet false f p s = (same s, refl)

c2k-IsQuiet : (c : Libc) (p : ℕ) (a : Option ℕ) → IsQuiet (set_c2k c p a)
c2k-IsQuiet c p none s = (same s, refl)
c2k-IsQuiet c p (some a) s = (record { inited = refl; supl = refl; c2k = refl }, refl)

typed-IsQuiet : (c : Libc) (type : AgpsType) (h : List ℕ) (p : ℕ) → IsQuiet (set_typed c type h p)
typed-IsQuiet c agps_type_supl h p s = (same s, refl)
typed-IsQuiet c agps_type_c2k h p s = c2k-IsQuiet c p (resolve_in_addr c h) s
typed-IsQuiet c agps_type_other h p s = (same s, refl)

set_server-IsQuiet :
    (c : Libc) (type : AgpsType) (h : List ℕ) (p : ℕ) → IsQuiet (loc_eng_set_server c type h p)
unfolding loc_eng_set_server
set_server-IsQuiet c type h p s = if-IsQuiet _ (set_typed c type h p) (typed-IsQuiet c type h p) s

set_if-IsQuiet :
    (c : Libc) (b : Bool) (type : AgpsType) (h : List ℕ) (p : ℕ) → IsQuiet (set_if c b type h p)
set_if-IsQuiet c b type h p s =
    if-IsQuiet b (loc_eng_set_server c type h p) (set_server-IsQuiet c type h p) s

agps_init-IsQuiet : (c : Libc) → IsQuiet (loc_eng_agps_init c)
unfolding loc_eng_agps_init
agps_init-IsQuiet c =
    let supl : ServerOp =
      λ s. set_if c s.supl_host_set agps_type_supl s.supl_host_buf s.supl_port_buf s in
    let c2k : ServerOp =
      λ s. set_if c s.c2k_host_set agps_type_c2k s.c2k_host_buf s.c2k_port_buf s in
    then-IsQuiet (c2k_unset then_op supl) c2k
      (then-IsQuiet c2k_unset supl (λ s. (record { inited = refl; supl = refl; c2k = refl }, refl))
        (λ s. set_if-IsQuiet c s.supl_host_set agps_type_supl s.supl_host_buf s.supl_port_buf s))
      (λ s. set_if-IsQuiet c s.c2k_host_set agps_type_c2k s.c2k_host_buf s.c2k_port_buf s)

-- The mode that is meant: the one that was asked for, where the modem has a server.
abbrev pub mode_meant : (known : Bool) → PositionMode → PositionMode
mode_meant true mode = mode
mode_meant false mode = standalone

allowed-meant : (b : Bool) (m : PositionMode) → allowed_mode b m ∷ [] ≡ mode_meant b m ∷ []
allowed-meant true m = refl
allowed-meant false m = refl

abbrev host_set : Servers → Bool
host_set s = s.supl_host_set || s.c2k_host_set

-- One request of an engine that is initialised.
serve_lem :
    (c : Libc) (q : Request) (s : Servers)
    → s.loc_eng_inited ≡ true
    → Same (serve c q s).0 s
      × (modes (serve c q s).1 ≡ map (mode_meant (host_set s)) (asked (q ∷ [])))
unfolding loc_eng_set_server_proxy loc_eng_set_position_mode
serve_lem c (server x) s e = simp e (set_server-IsQuiet c x.type x.hostname x.port s)
serve_lem c agps_init s e = agps_init-IsQuiet c s
serve_lem c (position_mode m r i a t) s e = simp e (same s, allowed-meant (host_set s) m)

asked-first : (q : Request) (qs : List Request) → asked (q ∷ qs) ≡ asked (q ∷ []) ++ asked qs
asked-first (server x) qs = refl
asked-first agps_init qs = refl
asked-first (position_mode m r i a t) qs = refl

map-append {ℓ} :
    {A : Type ℓ} {B : Type ℓ} (f : A → B) (xs ys : List A) → map f (xs ++ ys) ≡ map f xs ++ map f ys
map-append f [] ys = refl
map-append f (x ∷ xs) ys = ap (λ l. f x ∷ l) (map-append f xs ys)

serve_all_lem :
    (c : Libc) (qs : List Request) (s : Servers)
    → s.loc_eng_inited ≡ true
    → modes (serve_all c qs s).1 ≡ map (mode_meant (host_set s)) (asked qs)
serve_all_lem c [] s e = refl
serve_all_lem c (q ∷ qs) s e =
    let (k, m) = serve_lem c q s e in
    let t = (serve c q s).0 in
    let f = mode_meant (host_set s) in
    let set : host_set t ≡ host_set s = rw (k.supl, k.c2k) refl in
    modes-append (serve c q s).1 (serve_all c qs t).1
    ∙ ap (λ ms. ms ++ modes (serve_all c qs t).1) m
    ∙ ap (λ ms. map f (asked (q ∷ [])) ++ ms) (serve_all_lem c qs t (k.inited ∙ e))
    ∙ ap (λ b. map f (asked (q ∷ [])) ++ map (mode_meant b) (asked qs)) set
    ∙ sym (map-append f (asked (q ∷ [])) (asked qs))
    ∙ ap (map f) (sym (asked-first q qs))

known-kept : (b : Bool) (k : Kept) → is_known (kept_if b k) ≡ b
known-kept true k = refl
known-kept false k = refl

early_set : (xs : List Setting) (s : Servers) → IsFresh s → host_set (keep_all xs s) ≡ any_known xs
early_set xs s f =
    let t = keep_all xs s in
    let supl =
      sym (known-kept t.supl_host_set (t.supl_host_buf, t.supl_port_buf))
      ∙ ap is_known (early_supl xs s f) in
    let c2k =
      sym (known-kept t.c2k_host_set (t.c2k_host_buf, t.c2k_port_buf))
      ∙ ap is_known (early_c2k xs s f) in
    ap (λ b. b || t.c2k_host_set) supl ∙ ap (λ b. is_known (latest supl_of xs) || b) c2k

-- Of an engine that was given addresses, then was initialised, and takes further addresses and position
-- modes in any order: each mode that is asked for is sent, as it is where an address came before the
-- initialisation, and as standalone where none did, whatever addresses came since.
pub modes_sent :
    (c : Libc) (xs : List Setting) (qs : List Request) (s : Servers)
    → IsFresh s
    → modes (serve_all c qs (initialised (set_all c xs s).0)).1
      ≡ map (mode_meant (any_known xs)) (asked qs)
modes_sent c xs qs s f =
    ap (λ r. modes (serve_all c qs (initialised r.0)).1) (set_all-early c xs s f.0)
    ∙ serve_all_lem c qs (initialised (keep_all xs s)) refl
    ∙ ap (λ b. map (mode_meant b) (asked qs)) (early_set xs s f)
