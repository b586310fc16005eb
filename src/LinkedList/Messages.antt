-- ===== src/LinkedList/Messages.antt =====
-- gps/utils/linked_list.c meets the contract that gps/utils/msg_q.c relies on.
use android_device_generic_m.Base.{
  suc, append-nil, ◌<◌, ◌≡◌, refl, sym, ap, ◌≢◌, true, some, none, List, [], ◌∷◌, ◌++◌, length, map,
  ne→not_eq, ◌∙◌,
}
use android_device_generic_m.Store.{Ptr, null, Heap, done, Returns, Returns-mono}
use android_device_generic_m.LinkedList.{
  success, failure_general, unavailable_resource, linked_list_init, linked_list_destroy,
  linked_list_add, linked_list_remove, linked_list_empty, linked_list_flush, answer,
}
use android_device_generic_m.LinkedList.Chain.{Cell, IsList}
use android_device_generic_m.LinkedList.Callbacks.{owed}
use android_device_generic_m.LinkedList.Steps.{load_list-done}
use android_device_generic_m.LinkedList.Life
use android_device_generic_m.LinkedList.Add
use android_device_generic_m.LinkedList.Remove
use android_device_generic_m.LinkedList.Flush
use android_device_generic_m.MsgQ.Contract.{Message, MessageList, dealloc_messages, is_nil}

abbrev pub message : Cell → Message
message c = (c.payload, c.dealloc)

-- The list at `l` holds cells with these messages.
pub record Messages (h : Heap) (l : Ptr) (ms : List Message) : Type 0 where
  pub cells : List Cell
  pub list : IsList h l cells
  pub view : map message cells ≡ ms

-- A list whose messages end in `m` ends in a cell that carries it.
split_last :
    (xs : List Cell) (ms : List Message) (m : Message)
    → map message xs ≡ ms ++ m ∷ []
    → (ys : List Cell) × (c : Cell) × (xs ≡ ys ++ c ∷ []) × (map message ys ≡ ms) × (message c ≡ m)
split_last [] [] m e = cc
split_last [] (n ∷ ms) m e = cc
split_last (x ∷ []) [] m e = ([], x, refl, refl, cc)
split_last (x ∷ y ∷ xs) [] m e = cc
split_last (x ∷ xs) (n ∷ ms) m e =
    let (ys, c, p, q, r) = split_last xs ms m (cc) in (x ∷ ys, c, ap (λ t. x ∷ t) p, cc, r)

length-view : (xs : List Cell) → length (map message xs) ≡ length xs
length-view [] = refl
length-view (x ∷ xs) = ap suc (length-view xs)

owed-view : (xs : List Cell) → dealloc_messages (map message xs) ≡ owed xs
owed-view [] = refl
owed-view (x ∷ xs) = rw (owed-view xs)

empty_view :
    (l : Ptr) (h : Heap) (xs : List Cell)
    → IsList h l xs
    → linked_list_empty l h ≡ done (answer (is_nil (map message xs))) h
unfolding linked_list_empty
empty_view l h [] is = rw (ne→not_eq is.handle, load_list-done h l is.handle is.header)
empty_view l h (c ∷ xs) is =
    rw (ne→not_eq is.handle, load_list-done h l is.handle is.header, ne→not_eq is.chain.0)

-- A list with no messages has no cells.
no_cells : (xs : List Cell) → map message xs ≡ [] → xs ≡ []
no_cells [] e = refl
no_cells (x ∷ xs) e = cc

pub remove_message :
    (l : Ptr) (h : Heap) (ms : List Message) (m : Message)
    → Messages h l (ms ++ m ∷ [])
    → Returns
        (λ r g. (r ≡ (success, some m.0)) × Messages g l ms × (g.calls ≡ h.calls))
        (linked_list_remove l true h)
remove_message l h ms m k =
    let (ys, c, p, q, r) = split_last k.cells ms m k.view in
    Returns-mono _ (linked_list_remove l true h) (Remove.remove_oldest l c h ys (rw p at k.list))
      λ a g t. (
        rw (← r) t.answer,
        record { cells = ys; list = rw (append-nil ys) at t.gap.list; view = q },
        t.calls,
      )

pub add_message :
    (fresh l obj dealloc : Ptr) (h : Heap) (ms : List Message)
    → fresh ≢ null
    → h.cell fresh ≡ none
    → obj ≢ null
    → Messages h l ms
    → Returns
        (λ r g. (r ≡ success) × Messages g l ((obj, dealloc) ∷ ms) × (g.calls ≡ h.calls))
        (linked_list_add fresh l obj dealloc h)
add_message fresh l obj dealloc h ms n free o k =
    Returns-mono _ (linked_list_add fresh l obj dealloc h)
      (Add.add_front fresh l obj dealloc h n free k.cells o k.list)
      λ a g t. (
        t.answer,
        record { cells = _; list = t.list; view = ap (λ v. (obj, dealloc) ∷ v) k.view },
        t.calls,
      )

pub add_full_message :
    (l obj dealloc : Ptr) (h : Heap) (ms : List Message)
    → obj ≢ null
    → Messages h l ms
    → linked_list_add null l obj dealloc h ≡ done failure_general h
unfolding linked_list_add
add_full_message l obj dealloc h ms o k = rw (ne→not_eq k.list.handle, ne→not_eq o)

pub remove_no_message :
    (l : Ptr) (h : Heap)
    → Messages h l []
    → linked_list_remove l true h ≡ done (unavailable_resource, none) h
remove_no_message l h k = Remove.remove_none l h (rw (no_cells k.cells k.view) at k.list)

pub empty_message :
    (l : Ptr) (h : Heap) (ms : List Message)
    → Messages h l ms
    → linked_list_empty l h ≡ done (answer (is_nil ms)) h
empty_message l h ms k = rw (← k.view) (empty_view l h k.cells k.list)

pub flush-Messages :
    (fuel l : Ptr) (h : Heap) (ms : List Message)
    → length ms < fuel
    → Messages h l ms
    → Returns
        (λ r g. (r ≡ success) × Messages g l [] × (g.calls ≡ h.calls ++ dealloc_messages ms))
        (linked_list_flush fuel l h)
flush-Messages fuel l h ms f k =
    let short : length k.cells < fuel = rw (← length-view k.cells, k.view) f in
    Returns-mono _ (linked_list_flush fuel l h) (Flush.flush_all fuel l k.cells h k.list short)
      λ a g (ok, is, fl, hd). (
        ok,
        record { cells = []; list = is; view = refl },
        fl.calls ∙ ap (λ v. h.calls ++ v) (sym (owed-view k.cells) ∙ ap dealloc_messages k.view),
      )

pub init-Messages :
    (fresh old : Ptr) (h : Heap)
    → fresh ≢ null
    → Returns
        (λ r g. (r ≡ (success, some fresh)) × Messages g fresh [])
        (linked_list_init fresh (some old) h)
init-Messages fresh old h n =
    Returns-mono _ (linked_list_init fresh (some old) h) (Life.init_empty fresh old h n)
      λ a g (e, is, c, o). (e, record { cells = []; list = is; view = refl })

pub init_full_messages :
    (old : Ptr) (h : Heap) → linked_list_init null (some old) h ≡ done (failure_general, some old) h
unfolding linked_list_init
init_full_messages old h = refl

pub destroy-Messages :
    (fuel l : Ptr) (h : Heap) (ms : List Message)
    → length ms < fuel
    → Messages h l ms
    → Returns
        (λ r g. (r ≡ (success, some null)) × (g.calls ≡ h.calls ++ dealloc_messages ms))
        (linked_list_destroy fuel (some l) h)
destroy-Messages fuel l h ms f k =
    let short : length k.cells < fuel = rw (← length-view k.cells, k.view) f in
    Returns-mono _ (linked_list_destroy fuel (some l) h)
      (Flush.destroy_all fuel l k.cells h k.list short)
      λ a g (ok, fl, hd). (
        ok,
        fl.calls ∙ ap (λ v. h.calls ++ v) (sym (owed-view k.cells) ∙ ap dealloc_messages k.view),
      )

-- The list of gps/utils/linked_list.c, as the message list of a queue.
abbrev pub linked_messages : MessageList
linked_messages = record {
  init = linked_list_init;
  destroy = linked_list_destroy;
  add = linked_list_add;
  remove = linked_list_remove;
  empty = linked_list_empty;
  flush = linked_list_flush;
  Holds = Messages;
  add_front = add_message;
  add_full = add_full_message;
  remove_oldest = remove_message;
  remove_none = remove_no_message;
  empty_answer = empty_message;
  flush_all = flush-Messages;
  init_empty = init-Messages;
  init_full = init_full_messages;
  destroy_all = destroy-Messages;
}
