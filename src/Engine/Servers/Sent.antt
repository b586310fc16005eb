-- ===== src/Engine/Servers/Sent.antt =====
-- gps/libloc/libloc_api/loc_eng.cpp: what loc_eng_set_server sends does not depend on the addresses that are kept.
use android_device_generic_m.Base.{
  ℕ, ◌≡◌, refl, Bool, true, false, Option, none, some, List, [], if◌then◌else◌,
}
use android_device_generic_m.Engine.Servers.{
  AgpsType, agps_type_supl, agps_type_c2k, agps_type_other, Servers, Libc, ServerOp, set_typed,
  set_c2k, resolve_in_addr, loc_eng_set_server,
}

set_c2k-sent :
    (c : Libc) (p : ℕ) (a : Option ℕ) (s t : Servers) → (set_c2k c p a s).1 ≡ (set_c2k c p a t).1
set_c2k-sent c p none s t = refl
set_c2k-sent c p (some a) s t = refl

set_typed-sent :
    (c : Libc) (type : AgpsType) (h : List ℕ) (p : ℕ) (s t : Servers)
    → (set_typed c type h p s).1 ≡ (set_typed c type h p t).1
set_typed-sent c agps_type_supl h p s t = refl
set_typed-sent c agps_type_c2k h p s t = set_c2k-sent c p (resolve_in_addr c h) s t
set_typed-sent c agps_type_other h p s t = refl

if-sent :
    (b : Bool) (f : ServerOp) (s t : Servers)
    → (f s).1 ≡ (f t).1
    → (if b then f s else (s, [])).1 ≡ (if b then f t else (t, [])).1
if-sent true f s t e = e
if-sent false f s t e = refl

pub set_server-sent :
    (c : Libc) (type : AgpsType) (h : List ℕ) (p : ℕ) (s t : Servers)
    → (loc_eng_set_server c type h p s).1 ≡ (loc_eng_set_server c type h p t).1
unfolding loc_eng_set_server
set_server-sent c type h p s t =
    if-sent _ (set_typed c type h p) s t (set_typed-sent c type h p s t)
