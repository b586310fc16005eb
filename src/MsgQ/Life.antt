-- ===== src/MsgQ/Life.antt =====
-- How a queue of gps/utils/msg_q.c begins and ends.
use android_device_generic_m.Base.{
  ℕ, ◌<◌, ◌≡◌, refl, Bool, true, false, ◌&&◌, Option, none, some, List, [], ◌++◌, ne→not_eq, length,
  arith, ◌==◌, not,
}
use android_device_generic_m.Store.{Ptr, null, Heap, Returns, Returns-follow}
use native.Mathlib.Decide.{ℕ_discrete as dec}
use android_device_generic_m.LinkedList.{ListErr}
use android_device_generic_m.MsgQ.{
  MsgErr, MsgQ, success, failure_general, init_sync, msg_q_init, msg_q_destroy,
}
use android_device_generic_m.MsgQ.Contract.{Message, MessageList, dealloc_messages}

module _ (L : MessageList) where
  open L use {Holds}

  -- A new queue is there only on success; it is then empty and not unblocked.
  abbrev pub Started : Bool → MsgErr × Option MsgQ → Heap → Type 0
  Started true r g =
      (q : MsgQ) × (r ≡ (success, some q)) × (q.unblocked ≡ false) × Holds g q.msg_list []
  Started false r g = r ≡ (failure_general, none)

  sync-Started :
      (l : Ptr) (m c : Bool) (h : Heap)
      → Holds h l []
      → Returns (Started (m && c)) (init_sync L ListErr.success (some l) m c h)
  unfolding init_sync
  sync-Started l true true h k = (_, refl, refl, k)
  sync-Started l true false h k =
      Returns-follow _ (L.destroy 1 (some l) h) _ (L.destroy_all 1 l h [] (omega arith) k)
        λ r g e. refl
  sync-Started l false c h k =
      Returns-follow _ (L.destroy 1 (some l) h) _ (L.destroy_all 1 l h [] (omega arith) k)
        λ r g e. refl

  -- msg_q_init with an out pointer succeeds, with an empty queue that is not unblocked, when both
  -- allocations and both pthread calls succeed, and answers failure_general when one of them does not.
  pub init_lem :
      (fresh fresh_list : Ptr) (m c : Bool) (h : Heap)
      → Returns
          (Started (not (fresh == null) && (not (fresh_list == null) && (m && c))))
          (msg_q_init L fresh fresh_list m c true h)
  unfolding msg_q_init
  init_lem fresh fresh_list m c h = elim (dec fresh null) [
    | yes e ↦ rw e refl
    | no n ↦ elim (dec fresh_list null) [
      | yes e ↦ rw (ne→not_eq n, e, L.init_full null h) refl
      | no k ↦
          rw (ne→not_eq n, ne→not_eq k)
            (Returns-follow _ (L.init fresh_list (some null) h) _ (L.init_empty fresh_list null h k)
              λ r g (e, hold). rw e (sync-Started fresh_list m c g hold))
    ]
  ]

  -- msg_q_destroy of a well-formed queue, with more fuel than messages, makes the callbacks that the
  -- messages owe and leaves NULL.
  pub destroy_lem :
      (fuel : ℕ) (q : MsgQ) (h : Heap) (ms : List Message)
      → length ms < fuel
      → Holds h q.msg_list ms
      → Returns
          (λ r g. (r ≡ (success, none)) × (g.calls ≡ h.calls ++ dealloc_messages ms))
          (msg_q_destroy L fuel true q h)
  unfolding msg_q_destroy
  destroy_lem fuel q h ms f k =
      Returns-follow _ (L.destroy fuel (some q.msg_list) h) _
        (L.destroy_all fuel q.msg_list h ms f k) λ r g (e, c). (refl, c)
