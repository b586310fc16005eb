-- ===== src/Xdr/Wire.antt =====
-- What the operations of gps/libloc/librpc put on the wire, and that they read it back: the algebra of
-- appended and pending bytes.
pub mod Buffer
pub use Buffer.*
use android_device_generic_m.Base.{
  ℕ, ◌+◌, ◌%◌, ◌^◌, ◌≤◌, ◌<◌, ◌≡◌, refl, sym, ap, ◌∙◌, true, false, some, List, [], ◌∷◌, ◌++◌,
  length, length-append, append-nil, arith,
}
use mathlib.Core.Path.{ap₂}
use android_device_generic_m.Xdr.{
  Bytes, Xdr, msgsize_max, poke, put, window, be32, word_at, emit, Send, Recv, ◌&&&◌, ◌>>=◌, got,
  accept, int_lt, add32,
}
use android_device_generic_m.Xdr.Transport.{send_uint32, recv_uint32}

-- The unread part of the message begins with these bytes.
pub record Pending (x : Xdr) (bs : List ℕ) : Type 0 where
  pub aligned : x.in_next % 4 ≡ 0
  pub bytes : window x.in_msg x.in_next (length bs) ≡ bs
  pub inside : x.in_next + length bs ≤ x.in_len
  pub small : x.in_len ≤ msgsize_max

-- There is room for `n` more bytes.
pub record Room (x : Xdr) (n : ℕ) : Type 0 where
  pub aligned : x.out_next % 4 ≡ 0
  pub inside : x.out_next + n ≤ msgsize_max

abbrev pub skip : ℕ → Xdr → Xdr
skip n x = record x { in_next = x.in_next + n }

-- A send that appends these bytes, a whole number of words.
pub record Sends (s : Send) (bs : List ℕ) : Type 0 where
  pub whole : length bs % 4 ≡ 0
  pub sends : (x : Xdr) → Room x (length bs) → s x ≡ (true, emit bs x)

-- A receive that takes these bytes for `v`.
pub record Receives {A : Type 0} (r : Recv A) (bs : List ℕ) (v : A) : Type 0 where
  pub whole : length bs % 4 ≡ 0
  pub receives : (x : Xdr) → Pending x bs → r x ≡ (some v, skip (length bs) x)

pub send_uint32-Sends : (v : ℕ) → Sends (send_uint32 v) (be32 v)
unfolding send_uint32 be32
send_uint32-Sends v = record { whole = refl; sends = λ x r. ground (arith, r.inside) }

pub length-be32 : (v : ℕ) → length (be32 v) ≡ 4
unfolding be32
length-be32 v = refl

pub recv_uint32-Receives : (v : ℕ) → v < 2 ^ 32 → Receives recv_uint32 (be32 v) v
unfolding recv_uint32
recv_uint32-Receives v h = record {
  whole = omega (arith, length-be32 v);
  receives = λ x p.
      let n = length-be32 v in
      let room : x.in_next + 4 ≤ x.in_len = omega (arith, p.inside, n) in
      let passes : int_lt x.in_len (add32 x.in_next 4) ≡ false = ground (arith, room, p.small) in
      let step : add32 x.in_next 4 ≡ x.in_next + length (be32 v) =
        omega (arith, room, p.small, n) in
      let e : word_at x.in_msg x.in_next ≡ v =
        word_at-be32 x.in_msg x.in_next v h (rw n at p.bytes) in
      rw passes (ap₂ (λ w k. (some w, record x { in_next = k })) e step);
}

-- A pending message in two parts, and room for two.
pub Pending-split :
    (x : Xdr) (hs ts : List ℕ)
    → length hs % 4 ≡ 0
    → Pending x (hs ++ ts)
    → Pending x hs × Pending (skip (length hs) x) ts
Pending-split x hs ts al w =
    let n = length-append hs ts in
    let (u, v) = window-split x.in_msg x.in_next hs ts w.bytes in
    (
      record {
        aligned = w.aligned;
        bytes = u;
        inside = omega (arith, n, w.inside);
        small = w.small;
      },
      record {
        aligned = omega (arith, w.aligned, al);
        bytes = v;
        inside = omega (arith, n, w.inside);
        small = w.small;
      },
    )

pub Room-split :
    (x : Xdr) (hs ts : List ℕ)
    → length hs % 4 ≡ 0
    → Room x (length (hs ++ ts))
    → Room x (length hs) × Room (emit hs x) (length ts)
Room-split x hs ts al r =
    let n = length-append hs ts in
    (
      record { aligned = r.aligned; inside = omega (arith, n, r.inside) },
      record { aligned = omega (arith, r.aligned, al); inside = omega (arith, n, r.inside) },
    )

-- Sends and receives in sequence.
pub Sends-both :
    {s t : Send} {bs cs : List ℕ} → Sends s bs → Sends t cs → Sends (s &&& t) (bs ++ cs)
Sends-both {s} {t} {bs} {cs} p q = record {
  whole = omega (arith, length-append bs cs, p.whole, q.whole);
  sends = λ x r.
      let (first, second) = Room-split x bs cs (p.whole) r in
      rw (p.sends x first) (q.sends (emit bs x) second ∙ ap (λ y. (true, y)) (emit-append bs cs x));
}

pub Receives-bind :
    {A B : Type 0} {r : Recv A} (f : A → Recv B) {bs cs : List ℕ} {a : A} {b : B}
    → Receives r bs a
    → Receives (f a) cs b
    → Receives (r >>= f) (bs ++ cs) b
Receives-bind {A} {B} {r} f {bs} {cs} {a} {b} p q = record {
  whole = omega (arith, length-append bs cs, p.whole, q.whole);
  receives = λ x w.
      let (first, second) = Pending-split x bs cs (p.whole) w in
      let step : x.in_next + length bs + length cs ≡ x.in_next + length (bs ++ cs) =
        omega (arith, length-append bs cs) in
      rw (p.receives x first) (
        q.receives (skip (length bs) x) second ∙ ap (λ k. (some b, record x { in_next = k })) step);
}

-- What was put at the start of a message is pending for whoever reads from there.
pub put-Pending :
    (x z : Xdr) (bs : List ℕ)
    → Room x (length bs)
    → z.in_msg ≡ put x.out_msg x.out_next bs
    → z.in_next ≡ x.out_next
    → z.in_len ≡ x.out_next + length bs
    → Pending z bs
put-Pending x z bs room msg start stop = record {
  aligned = omega (arith, start, room.aligned);
  bytes = rw (msg, start) (window-put x.out_msg x.out_next bs);
  inside = omega (arith, start, stop);
  small = omega (arith, stop, room.inside);
}

pub got-Receives : {A : Type 0} (a : A) → Receives (got a) [] a
got-Receives a = record {
  whole = refl;
  receives = λ x p.
      let e : x.in_next ≡ x.in_next + 0 = omega arith in
      ap (λ k. (some a, record x { in_next = k })) e;
}

-- A receive and a computation.
pub Receives-then :
    {A B : Type 0} {r : Recv A} (f : A → Recv B) {bs : List ℕ} {a : A} {b : B}
    → Receives r bs a
    → f a ≡ got b
    → Receives (r >>= f) bs b
Receives-then f {bs} {a} {b} p e =
    rw (append-nil bs) at (Receives-bind f {cs = []} {b = b} p (rw e (got-Receives b)))

pub accept-Sends : Sends accept []
unfolding put
accept-Sends = record {
  whole = refl;
  sends = λ x r.
      let e : x.out_next ≡ x.out_next + 0 = omega arith in
      ap (λ k. (true, record x { out_next = k })) e;
}

-- The message buffer of a sender, as a receiver at the same place finds it.
pub record Carried (x y z : Xdr) : Type 0 where
  pub bytes : z.in_msg ≡ y.out_msg
  pub start : z.in_next ≡ x.out_next
  pub stop : z.in_len ≡ y.out_next

-- What one side sends the other side receives.
pub transfer :
    {A : Type 0} {s : Send} {r : Recv A} {bs : List ℕ} {a : A}
    → Sends s bs
    → Receives r bs a
    → (x z : Xdr) → Room x (length bs)
    → Carried x (s x).1 z
    → ((s x).0 ≡ true) × (r z ≡ (some a, record z { in_next = z.in_len }))
transfer {A} {s} {r} {bs} {a} p q x z room c =
    let e : s x ≡ (true, emit bs x) = p.sends x room in
    let msg : z.in_msg ≡ put x.out_msg x.out_next bs = c.bytes ∙ ap (λ o. o.1.out_msg) e in
    let stop : z.in_len ≡ x.out_next + length bs = c.stop ∙ ap (λ o. o.1.out_next) e in
    let pending = put-Pending x z bs room msg c.start stop in
    let end : z.in_next + length bs ≡ z.in_len = omega (arith, c.start, stop) in
    (ap (λ o. o.0) e, q.receives z pending ∙ ap (λ k. (some a, record z { in_next = k })) end)
