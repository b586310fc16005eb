-- ===== src/LinkedList/Callbacks.antt =====
-- The deallocation callbacks that gps/utils/linked_list.c makes.
use android_device_generic_m.Base.{
  ◌≡◌, ap, sym, Bool, true, false, List, [], ◌∷◌, ◌++◌, ◌==◌, if◌then◌else◌, append-nil, Bool-cases,
  inl, inr,
}
use android_device_generic_m.Store.{Ptr, null, Heap, done}
use android_device_generic_m.LinkedList.{dealloc_data}
use android_device_generic_m.LinkedList.Chain.{Cell}

-- The calls made for a cell that goes: none if its object is copied out or has no function.
abbrev pub dealloc_calls : Bool → Cell → List (Ptr × Ptr)
dealloc_calls true c = []
dealloc_calls false c = if c.dealloc == null then [] else (c.dealloc, c.payload) ∷ []

-- The calls that a list owes, from head to tail.
abbrev pub owed : List Cell → List (Ptr × Ptr)
owed [] = []
owed (c ∷ xs) = dealloc_calls false c ++ owed xs

no_calls : (h : Heap) → done (tt {0}) h ≡ done tt (record h { calls = h.calls ++ [] })
no_calls h = ap (λ k. done (tt {0}) (record h { calls = k })) (sym (append-nil h.calls))

pub dealloc_data-done :
    (copied : Bool) (c : Cell) (h : Heap)
    → dealloc_data copied c.dealloc c.payload h
      ≡ done tt (record h { calls = h.calls ++ dealloc_calls copied c })
unfolding dealloc_data
dealloc_data-done true c h = no_calls h
dealloc_data-done false c h = elim (Bool-cases (c.dealloc == null)) [
  | inl e ↦ rw e (no_calls h)
  | inr e ↦ rw e
]
