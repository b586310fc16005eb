-- ===== src/Store.antt =====
-- The memory that gps/utils works on: list elements and list headers at addresses, and the trace of
-- the deallocation callbacks that were made. A command may crash (a dangling or NULL pointer is
-- dereferenced) or use up the rounds that its loops were given.
use android_device_generic_m.Base.{ℕ, List, ◌∷◌, [], ◌++◌, Option, none, some, ◌==◌, if◌then◌else◌}

abbrev pub Ptr : Type 0
Ptr = ℕ

abbrev pub null : Ptr
null = 0

-- `struct list_element`
pub record Element : Type 0 where
  pub next : Ptr
  pub prev : Ptr
  pub data_ptr : Ptr
  pub dealloc_func : Ptr

-- `struct list_state`
pub record ListState : Type 0 where
  pub p_head : Ptr
  pub p_tail : Ptr

abbrev pub element : Ptr → Ptr → Ptr → Ptr → Element
element n p d f = record { next = n; prev = p; data_ptr = d; dealloc_func = f }

abbrev pub list_state : Ptr → Ptr → ListState
list_state a b = record { p_head = a; p_tail = b }

abbrev pub Cells : Type 0
Cells = Ptr → Option Element

-- `calls` holds each call `dealloc_func(data_ptr)`, in order.
pub record Heap : Type 0 where
  pub cell : Cells
  pub lists : Ptr → Option ListState
  pub calls : List (Ptr × Ptr)

abbrev pub update {ℓ} : {A : Type ℓ} → (Ptr → A) → Ptr → A → Ptr → A
update m p v a = if a == p then v else m a

pub data Outcome {ℓ} (A : Type ℓ) : Type ℓ where
  done : A → Heap → Outcome A
  crash : Outcome A
  spent : Outcome A

abbrev pub Cmd {ℓ} : Type ℓ → Type ℓ
Cmd A = Heap → Outcome A

abbrev pub pure {ℓ} : {A : Type ℓ} → A → Cmd A
pure a h = done a h

abbrev pub follow {ℓ κ} : {A : Type ℓ} {B : Type κ} → Outcome A → (A → Cmd B) → Outcome B
follow (done a h) k = k a h
follow crash k = crash
follow spent k = spent

infixl 5 ◌>>=◌ ◌>>◌
abbrev pub ◌>>=◌ {ℓ κ} : {A : Type ℓ} {B : Type κ} → Cmd A → (A → Cmd B) → Cmd B
◌>>=◌ m k h = follow (m h) k

abbrev pub ◌>>◌ {ℓ κ} : {A : Type ℓ} {B : Type κ} → Cmd A → Cmd B → Cmd B
◌>>◌ m k h = follow (m h) (λ _. k)

-- The run ends, and its result and final memory are as stated.
abbrev pub Returns {ℓ} : {A : Type ℓ} → (A → Heap → Type 0) → Outcome A → Type 0
Returns P (done a h) = P a h
Returns P crash = ⊥
Returns P spent = ⊥

-- A read or a write through a pointer, of an element.
unfoldable pub load : Ptr → Cmd Element
load p h = if p == null then crash else elim (h.cell p) [ none ↦ crash | some e ↦ done e h ]

abbrev pub put_cell : Ptr → Option Element → Cmd (Unit {0})
put_cell p c h = done tt (record h { cell = update h.cell p c })

unfoldable pub set_next : Ptr → Ptr → Cmd (Unit {0})
unfolding load
set_next p q = do e ← load p; put_cell p (some (record e { next = q }))

unfoldable pub set_prev : Ptr → Ptr → Cmd (Unit {0})
unfolding load
set_prev p q = do e ← load p; put_cell p (some (record e { prev = q }))

-- `free` of an element; a second `free` of it crashes.
unfoldable pub free_cell : Ptr → Cmd (Unit {0})
unfolding load
free_cell p = load p >> put_cell p none

-- A read or a write of a list header.
unfoldable pub load_list : Ptr → Cmd ListState
load_list p h = if p == null then crash else elim (h.lists p) [ none ↦ crash | some l ↦ done l h ]

abbrev pub put_list : Ptr → Option ListState → Cmd (Unit {0})
put_list p l h = done tt (record h { lists = update h.lists p l })

-- `dealloc_func(data_ptr)`
abbrev pub call : Ptr → Ptr → Cmd (Unit {0})
call f d h = done tt (record h { calls = h.calls ++ ((f, d) ∷ []) })

-- A weaker postcondition, and a postcondition of a sequence.
pub Returns-mono {ℓ} :
    {A : Type ℓ} {P : A → Heap → Type 0} (Q : A → Heap → Type 0) (o : Outcome A)
    → Returns P o
    → ((a : A) (h : Heap) → P a h → Q a h)
    → Returns Q o
Returns-mono Q (done a h) p k = k a h p
Returns-mono Q crash p k = p
Returns-mono Q spent p k = p

pub Returns-follow {ℓ κ} :
    {A : Type ℓ} {B : Type κ} {P : A → Heap → Type 0} (Q : B → Heap → Type 0) (o : Outcome A)
    (c : A → Cmd B)
    → Returns P o
    → ((a : A) (h : Heap) → P a h → Returns Q (c a h))
    → Returns Q (follow o c)
Returns-follow Q (done a h) c p k = k a h p
Returns-follow Q crash c p k = p
Returns-follow Q spent c p k = p
