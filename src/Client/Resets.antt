-- ===== src/Client/Resets.antt =====
-- gps/libloc/librpc/clnt.c: the notices of a restart of the modem that a client is given.
use android_device_generic_m.Base.{
  ℕ, ◌≡◌, ◌≢◌, refl, sym, ap, ◌∙◌, Bool, true, false, Option, none, some, List, [], ◌∷◌, ◌++◌, ◌==◌,
  not, Bool-cases, inl, inr, if◌then◌else◌, ne→not_eq, arith,
}
use mathlib.Core.Path.{subst}
use mathlib.Core.Bool.{true≢false}
use android_device_generic_m.Xdr.{Xdr, Send, int_lt}
use android_device_generic_m.Xdr.Transport.{msg_send}
use android_device_generic_m.Server.Dispatch.{in_word}
use android_device_generic_m.Client.{
  Client, wire_of, with_wire, call_send, sent, netreset, free_input,
}
use android_device_generic_m.Client.Receive.{
  PollBits, ResetEvent, restart_begin, restart_end, Received, told_if, rx_reset, rx_read, drain,
  then_read, hand_over, rx_client,
}

abbrev add_notice : Option ResetEvent → List ResetEvent → List ResetEvent
add_notice none ns = ns
add_notice (some n) ns = n ∷ ns

-- Notices, the last one first, where the modem is in reset or not: each reset that ends has begun.
pub data Paired : List ResetEvent → ℕ → Type 0 where
  quiet : Paired [] 0
  begun : {ns : List ResetEvent} → Paired ns 0 → Paired (restart_begin ∷ ns) 1
  ended : {ns : List ResetEvent} → Paired ns 1 → Paired (restart_end ∷ ns) 0

-- What no other thread changes: the reset, and the reset callback.
abbrev pub kept : Client → ℕ × Option ℕ
kept c = (c.in_reset, c.reset_cb)

-- What happens to a client: rounds of the receive thread, and what other threads do to it, of which
-- none enters or leaves the reset, or registers or unregisters a reset callback.
pub data Run (c : Client) : List ResetEvent → Client → Type 0 where
  idle : Run c [] c
  polled :
      {ns : List ResetEvent} {d : Client} (bits : PollBits) (read : Send)
      (drained : Client → Client)
      → ((e : Client) → kept (drained e) ≡ kept e)
      → Run c ns d
      → Run c
          (add_notice (rx_client bits read drained d).notice ns)
          (rx_client bits read drained d).client
  other : {ns : List ResetEvent} {d e : Client} → Run c ns d → kept e ≡ kept d → Run c ns e

hand_over-kept : (c : Client) → kept (hand_over c).0 ≡ kept c
hand_over-kept c = elim (Bool-cases (int_lt c.cb_stop 0)) [ inl y ↦ rw y refl | inr n ↦ rw n refl ]

read-kept : (c : Client) (o : Bool × Xdr) → kept (rx_read c o).0 ≡ kept c
read-kept c (false, x) = refl
read-kept c (true, x) = elim (Bool-cases (in_word 1 x == 1)) [
  | inl y ↦ rw y refl
  | inr n ↦ rw n (hand_over-kept (record (with_wire c x) { input_xdr_busy = true }))
]

drain-kept :
    (b : Bool) (drained : Client → Client) (c : Client)
    → ((e : Client) → kept (drained e) ≡ kept e)
    → kept (drain b drained c) ≡ kept c
drain-kept true drained c keeps = keeps c
drain-kept false drained c keeps = refl

-- Reading changes neither.
then_read-kept :
    (read : Send) (drained : Client → Client) (r : Received)
    → ((e : Client) → kept (drained e) ≡ kept e)
    → kept (then_read read drained r).client ≡ kept r.client
then_read-kept read drained r keeps = elim (Bool-cases r.bits.pollin) [
  | inr n ↦ rw n refl
  | inl y ↦
      let c = drain r.client.input_xdr_busy drained r.client in
      let o = rx_read c (read (wire_of c)) in
      ap (λ b. kept (if b then record r { client = o.0; signals = r.signals ++ o.1 } else r).client)
        y
      ∙ read-kept c (read (wire_of c))
      ∙ drain-kept r.client.input_xdr_busy drained r.client keeps
]

then_read-notice :
    (read : Send) (drained : Client → Client) (r : Received)
    → (then_read read drained r).notice ≡ r.notice
then_read-notice read drained r = elim (Bool-cases r.bits.pollin) [
  | inl y ↦ rw y refl
  | inr n ↦ rw n refl
]

zero_of : {a : ℕ} → (a == 0) ≡ true → a ≡ 0
zero_of h = ground arith

-- The flag is 0 or 1.
in_reset_one :
    {ns : List ResetEvent} {n f : ℕ} → Paired ns n → f ≡ n → (f == 0) ≡ false → Paired ns 1
in_reset_one quiet e h = absurd (ground (arith, e, h))
in_reset_one (begun p) e h = begun p
in_reset_one (ended p) e h = absurd (ground (arith, e, h))

-- The callback of a client stays through a round.
reset-cb : (bits : PollBits) (d : Client) → (rx_reset bits d).client.reset_cb ≡ d.reset_cb
unfolding rx_reset
reset-cb bits d = elim (Bool-cases (d.in_reset == 0)) [
  | inl y ↦ elim (Bool-cases bits.pollrdhup) [ inl q ↦ simp (y, q) | inr m ↦ simp (y, m) ]
  | inr n ↦ elim (Bool-cases bits.pollout) [ inl q ↦ simp (n, q) | inr m ↦ simp (n, m) ]
]

Paired-reset :
    (bits : PollBits) (ns : List ResetEvent) (n cb : ℕ) (d : Client)
    → Paired ns n
    → d.in_reset ≡ n
    → d.reset_cb ≡ some cb
    → Paired (add_notice (rx_reset bits d).notice ns) (rx_reset bits d).client.in_reset
unfolding rx_reset
Paired-reset bits ns n cb d p e k = elim (Bool-cases (d.in_reset == 0)) [
  | inl y ↦ elim (Bool-cases bits.pollrdhup) [
    | inl q ↦ simp (y, q, k) (begun (subst (Paired ns) (sym e ∙ zero_of y) p))
    | inr m ↦ simp (y, m) (subst (Paired ns) (sym e) p)
  ]
  | inr n ↦ elim (Bool-cases bits.pollout) [
    | inl q ↦ simp (n, q, k) (ended (in_reset_one p e n))
    | inr m ↦ simp (n, m) (subst (Paired ns) (sym e) p)
  ]
]

run-cb : {c d : Client} {ns : List ResetEvent} → Run c ns d → d.reset_cb ≡ c.reset_cb
unfolding rx_client
run-cb idle = refl
run-cb (polled {ns} {d} bits read drained keeps run) =
    ap (λ k. k.1) (then_read-kept read drained (rx_reset bits d) keeps)
    ∙ reset-cb bits d
    ∙ run-cb run
run-cb (other run e) = ap (λ k. k.1) e ∙ run-cb run

-- A client that starts outside a reset and has a reset callback, the same one all the time, is told of
-- resets in turn, a begin and then its end, and is in reset exactly between the two, whatever the receive
-- thread polls, as long as no other thread enters or leaves the reset.
pub Run-Paired :
    {c d : Client} {ns : List ResetEvent} {cb : ℕ}
    → c.in_reset ≡ 0
    → c.reset_cb ≡ some cb
    → Run c ns d
    → Paired ns d.in_reset
unfolding rx_client
Run-Paired z k idle = subst (Paired []) (sym z) quiet
Run-Paired {cb = cb} z k (polled {ns} {d} bits read drained keeps run) =
    let r = rx_reset bits d in
    let p = Paired-reset bits ns d.in_reset cb d (Run-Paired z k run) refl (run-cb run ∙ k) in
    subst (Paired (add_notice (then_read read drained r).notice ns))
      (sym (ap (λ k. k.0) (then_read-kept read drained r keeps)))
      (subst (λ o. Paired (add_notice o ns) r.client.in_reset)
        (sym (then_read-notice read drained r)) p)
Run-Paired z k (other {ns} run e) = subst (Paired ns) (sym (ap (λ k. k.0) e)) (Run-Paired z k run)

zero_is : {a : ℕ} → a ≡ 0 → (a == 0) ≡ true
zero_is h = ground arith

abbrev tells_begin : Option ResetEvent → Bool
tells_begin (some restart_begin) = true
tells_begin (some restart_end) = false
tells_begin none = false

end-told : (cb : Option ℕ) → tells_begin (told_if cb restart_end) ≡ false
end-told none = refl
end-told (some cb) = refl

tells_no_begin :
    (bits : PollBits) (c : Client) → c.in_reset ≡ 1 → tells_begin (rx_reset bits c).notice ≡ false
unfolding rx_reset
tells_no_begin bits c e =
    let f : (c.in_reset == 0) ≡ false = ground (arith, e) in
    elim (Bool-cases bits.pollout) [
      | inl y ↦ simp (f, y) (end-told c.reset_cb)
      | inr n ↦ simp (f, n)
    ]

-- A call that the router device refuses with -ENETRESET, of a message that is not as long as that word, leaves
-- the client in a reset that it is not told of: whatever is polled next, the notice is not that a reset
-- begins.
pub netreset_untold :
    (c : Client) (bits : PollBits)
    → c.in_reset ≡ 0
    → (wire_of c).out_next ≢ netreset
    → ((call_send netreset c).1.in_reset ≡ 1)
      × ((rx_reset bits (call_send netreset c).1).notice ≢ some restart_begin)
unfolding call_send msg_send rx_reset
netreset_untold c bits z differs =
    let x : Xdr = record (wire_of c) { xdr_err = netreset } in
    let e : call_send netreset c ≡ (some 26, free_input (record (with_wire c x) { in_reset = 1 })) =
      ap (λ b. if not b then (some 26, free_input c) else sent c (msg_send netreset (wire_of c)))
        (zero_is z)
      ∙ ap (λ b. sent c (b, x)) (ne→not_eq (λ h. differs (sym h))) in
    (
      ap (λ o. o.1.in_reset) e,
      subst (λ (o : Option ℕ × Client). (rx_reset bits o.1).notice ≢ some restart_begin) (sym e)
          (λ h. true≢false (sym (ap tells_begin h) ∙ tells_no_begin bits _ refl)),
    )
