-- ===== src/MsgQ/Contract.antt =====
-- What gps/utils/msg_q.c relies on: the operations of a message list and their laws. The messages are
-- listed from the newest to the oldest.
use android_device_generic_m.Base.{
  ℕ, ◌<◌, ◌≡◌, ◌≢◌, Bool, true, false, Option, some, none, List, [], ◌∷◌, ◌++◌, length,
  if◌then◌else◌, ◌==◌,
}
use android_device_generic_m.Store.{Ptr, null, Heap, done, Cmd, Returns}
use android_device_generic_m.LinkedList.{
  ListErr, success, failure_general, unavailable_resource, EmptyAnswer, answer,
}

-- The object and its deallocation function.
abbrev pub Message : Type 0
Message = Ptr × Ptr

-- The callbacks that a flush makes.
abbrev pub dealloc_messages : List Message → List (Ptr × Ptr)
dealloc_messages [] = []
dealloc_messages ((d, f) ∷ ms) = (if f == null then [] else (f, d) ∷ []) ++ dealloc_messages ms

abbrev pub is_nil {ℓ} : {A : Type ℓ} → List A → Bool
is_nil [] = true
is_nil (x ∷ xs) = false

pub record MessageList : Type 1 where
  pub init : (fresh : Ptr) → Option Ptr → Cmd (ListErr × Option Ptr)
  pub destroy : ℕ → Option Ptr → Cmd (ListErr × Option Ptr)
  pub add : (fresh l obj dealloc : Ptr) → Cmd ListErr
  pub remove : Ptr → (has_out : Bool) → Cmd (ListErr × Option Ptr)
  pub empty : Ptr → Cmd EmptyAnswer
  pub flush : ℕ → Ptr → Cmd ListErr
  pub Holds : Heap → Ptr → List Message → Type 0
  pub add_front :
      (fresh l obj dealloc : Ptr) (h : Heap) (ms : List Message)
      → fresh ≢ null
      → h.cell fresh ≡ none
      → obj ≢ null
      → Holds h l ms
      → Returns
          (λ r g. (r ≡ success) × Holds g l ((obj, dealloc) ∷ ms) × (g.calls ≡ h.calls))
          (add fresh l obj dealloc h)
  pub add_full :
      (l obj dealloc : Ptr) (h : Heap) (ms : List Message)
      → obj ≢ null
      → Holds h l ms
      → add null l obj dealloc h ≡ done failure_general h
  pub remove_oldest :
      (l : Ptr) (h : Heap) (ms : List Message) (m : Message)
      → Holds h l (ms ++ m ∷ [])
      → Returns
          (λ r g. (r ≡ (success, some m.0)) × Holds g l ms × (g.calls ≡ h.calls))
          (remove l true h)
  pub remove_none :
      (l : Ptr) (h : Heap) → Holds h l [] → remove l true h ≡ done (unavailable_resource, none) h
  pub empty_answer :
      (l : Ptr) (h : Heap) (ms : List Message)
      → Holds h l ms
      → empty l h ≡ done (answer (is_nil ms)) h
  pub flush_all :
      (fuel l : Ptr) (h : Heap) (ms : List Message)
      → length ms < fuel
      → Holds h l ms
      → Returns
          (λ r g. (r ≡ success) × Holds g l [] × (g.calls ≡ h.calls ++ dealloc_messages ms))
          (flush fuel l h)
  pub init_empty :
      (fresh old : Ptr) (h : Heap)
      → fresh ≢ null
      → Returns (λ r g. (r ≡ (success, some fresh)) × Holds g fresh []) (init fresh (some old) h)
  pub init_full :
      (old : Ptr) (h : Heap) → init null (some old) h ≡ done (failure_general, some old) h
  pub destroy_all :
      (fuel l : Ptr) (h : Heap) (ms : List Message)
      → length ms < fuel
      → Holds h l ms
      → Returns
          (λ r g. (r ≡ (success, some null)) × (g.calls ≡ h.calls ++ dealloc_messages ms))
          (destroy fuel (some l) h)
