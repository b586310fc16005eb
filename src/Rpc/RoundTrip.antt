-- ===== src/Rpc/RoundTrip.antt =====
-- gps/libloc/librpc: the reply header that rpc.c writes is the one that clnt.c reads.
use android_device_generic_m.Base.{
  ℕ, ◌^◌, ◌≤◌, ◌<◌, ◌≡◌, ◌≢◌, refl, sym, ◌∙◌, true, Option, none, some, List, ◌++◌, length, leb,
  ne→not_eq, arith, append-nil,
}
use mathlib.Core.Path.{ap₂}
use android_device_generic_m.Xdr.{Bytes, Xdr, be32, Send, Recv, after, ◌&&&◌, ◌>>=◌, got, accept}
use android_device_generic_m.Xdr.Transport.{send_int32, recv_uint32, recv_int32}
use android_device_generic_m.Xdr.Wire.{
  Receives-then, Sends, Receives, Room, Carried, send_uint32-Sends, recv_uint32-Receives,
  Sends-both, Receives-bind, accept-Sends, transfer,
}
use android_device_generic_m.Rpc.{
  OpaqueAuth, AcceptStat, prog_mismatch, other_accept, DeniedReply, mismatch, auth_error,
  other_reject, ReplyHeader, accepted, denied, other_reply, xdr_send_enum, xdr_recv_enum,
  xdr_send_auth, xdr_recv_auth, xdr_send_accepted_reply_header, xdr_send_denied_reply,
  xdr_send_reply_header, accept_body, xdr_recv_accepted_reply_header, denied_body,
  xdr_recv_denied_reply, reply_body, xdr_recv_reply_header,
}

-- A 32-bit word.
abbrev pub IsWord : ℕ → Type 0
IsWord v = v < 2 ^ 32

-- The bytes of a verifier without a body.
abbrev pub auth_wire : OpaqueAuth → List ℕ
auth_wire auth = be32 auth.oa_flavor ++ be32 auth.oa_length

abbrev pub accept_wire : AcceptStat → List ℕ
accept_wire (prog_mismatch low high) = be32 2 ++ (be32 low ++ be32 high)
accept_wire (other_accept stat) = be32 stat

abbrev pub denied_wire : DeniedReply → List ℕ
denied_wire (mismatch low high) = be32 0 ++ (be32 low ++ be32 high)
denied_wire (auth_error why) = be32 1 ++ be32 why
denied_wire (other_reject stat) = be32 stat

-- The reply header of RFC 5531 behind the xid and the message type.
abbrev pub reply_wire : ReplyHeader → List ℕ
reply_wire (accepted verf body) = be32 0 ++ (auth_wire verf ++ accept_wire body)
reply_wire (denied body) = be32 1 ++ denied_wire body
reply_wire (other_reply stat) = be32 stat

-- A verifier that carries no bytes, and keeps `base`.
pub record Bare (base : Bytes) (auth : OpaqueAuth) : Type 0 where
  pub flavor : IsWord auth.oa_flavor
  pub none_follow : auth.oa_length ≡ 0
  pub kept : auth.oa_base ≡ base

abbrev pub IsAccept : AcceptStat → Type 0
IsAccept (prog_mismatch low high) = IsWord low × IsWord high
IsAccept (other_accept stat) = (stat ≤ 6) × (stat ≢ 2)

abbrev pub IsDenied : DeniedReply → Type 0
IsDenied (mismatch low high) = IsWord low × IsWord high
IsDenied (auth_error why) = IsWord why
IsDenied (other_reject stat) = ⊥

-- A header that the protocol knows, whose verifier is bare.
abbrev pub IsReply : (base : Bytes) → ReplyHeader → Type 0
IsReply base (accepted verf body) = Bare base verf × IsAccept body
IsReply base (denied body) = IsDenied body
IsReply base (other_reply stat) = ⊥

Sends-end : {s : Send} {bs : List ℕ} → Sends s bs → Sends (s &&& accept) bs
Sends-end {s} {bs} p = rw (append-nil bs) at (Sends-both p accept-Sends)

after_assoc :
    {A B C : Type 0} (o : Option A × Xdr) (f : A → Recv B) (g : B → Recv C)
    → after (after o f) g ≡ after o (λ a. f a >>= g)
after_assoc (some a, x) f g = refl
after_assoc (none, x) f g = refl

Receives-assoc :
    {A B C : Type 0} (r : Recv A) (f : A → Recv B) (g : B → Recv C) {bs : List ℕ} {c : C}
    → Receives ((r >>= f) >>= g) bs c
    → Receives (r >>= (λ a. f a >>= g)) bs c
Receives-assoc r f g p = record {
  whole = p.whole;
  receives = λ x w. sym (after_assoc (r x) f g) ∙ p.receives x w;
}

-- Two words make one value.
Receives-pair :
    {B : Type 0} (g : ℕ → ℕ → B) {u v : ℕ}
    → IsWord u
    → IsWord v
    → Receives
        (recv_uint32 >>= (λ a. recv_uint32 >>= (λ b. got (g a b))))
        (be32 u ++ be32 v)
        (g u v)
Receives-pair g {u} {v} p q =
    Receives-bind (λ a. recv_uint32 >>= (λ b. got (g a b))) (recv_uint32-Receives u p)
      (Receives-then (λ b. got (g u b)) (recv_uint32-Receives v q) refl)

enum-Sends : (v : ℕ) → Sends (xdr_send_enum v 4) (be32 v)
unfolding xdr_send_enum send_int32
enum-Sends v = send_uint32-Sends v

enum-Receives : (v : ℕ) → IsWord v → Receives (xdr_recv_enum 4) (be32 v) v
unfolding xdr_recv_enum recv_int32
enum-Receives v h = recv_uint32-Receives v h

pub auth-Sends :
    (auth : OpaqueAuth) → auth.oa_length ≡ 0 → Sends (xdr_send_auth auth) (auth_wire auth)
unfolding xdr_send_auth send_int32
auth-Sends auth e =
    rw e (Sends-both (send_uint32-Sends auth.oa_flavor) (Sends-end (send_uint32-Sends 0)))

auth-Receives :
    (base : Bytes) (flavor : ℕ)
    → IsWord flavor
    → Receives
        (xdr_recv_auth base)
        (be32 flavor ++ be32 0)
        (record { oa_flavor = flavor; oa_length = 0; oa_base = base })
unfolding xdr_recv_auth recv_int32
auth-Receives base flavor h =
    Receives-bind _ (recv_uint32-Receives flavor h)
      (Receives-then _ (recv_uint32-Receives 0 (omega arith)) refl)

-- The same for a verifier that is known to be bare.
Bare-Receives :
    (base : Bytes) (auth : OpaqueAuth)
    → Bare base auth
    → Receives (xdr_recv_auth base) (auth_wire auth) auth
Bare-Receives base auth b =
    let e : record { oa_flavor = auth.oa_flavor; oa_length = 0; oa_base = base } ≡ auth =
      ap₂ (λ n o. record { oa_flavor = auth.oa_flavor; oa_length = n; oa_base = o })
        (sym b.none_follow) (sym b.kept) in
    simp (b.none_follow) (rw e at (auth-Receives base auth.oa_flavor b.flavor))

accepted-Sends :
    (base : Bytes) (verf : OpaqueAuth) (body : AcceptStat)
    → Bare base verf
    → IsAccept body
    → Sends (xdr_send_accepted_reply_header verf body) (auth_wire verf ++ accept_wire body)
unfolding xdr_send_accepted_reply_header
accepted-Sends base verf (prog_mismatch low high) b h =
    Sends-both (auth-Sends verf b.none_follow)
      (Sends-both (enum-Sends 2) (Sends-both (send_uint32-Sends low) (send_uint32-Sends high)))
accepted-Sends base verf (other_accept stat) b (known, other) =
    let e : leb stat 6 ≡ true = ground arith in
    rw e (Sends-both (auth-Sends verf b.none_follow) (Sends-end (enum-Sends stat)))

denied-Sends :
    (body : DeniedReply) → IsDenied body → Sends (xdr_send_denied_reply body) (denied_wire body)
unfolding xdr_send_denied_reply
denied-Sends (mismatch low high) h =
    Sends-both (enum-Sends 0) (Sends-both (send_uint32-Sends low) (send_uint32-Sends high))
denied-Sends (auth_error why) h = Sends-both (enum-Sends 1) (enum-Sends why)
denied-Sends (other_reject stat) h = absurd h

pub reply-Sends :
    (base : Bytes) (h : ReplyHeader)
    → IsReply base h
    → Sends (xdr_send_reply_header h) (reply_wire h)
unfolding xdr_send_reply_header
reply-Sends base (accepted verf body) (b, k) =
    Sends-both (enum-Sends 0) (accepted-Sends base verf body b k)
reply-Sends base (denied body) k = Sends-both (enum-Sends 1) (denied-Sends body k)
reply-Sends base (other_reply stat) k = absurd k

-- A known accepted status and its body.
accept-Receives :
    (body : AcceptStat)
    → IsAccept body
    → Receives (xdr_recv_enum 4 >>= accept_body) (accept_wire body) body
unfolding accept_body
accept-Receives (prog_mismatch low high) (p, q) =
    Receives-bind accept_body (enum-Receives 2 (omega arith)) (Receives-pair prog_mismatch p q)
accept-Receives (other_accept stat) (known, other) =
    let e : leb stat 6 ≡ true = ground arith in
    Receives-then accept_body (enum-Receives stat (omega arith)) (rw (ne→not_eq other, e) refl)

denied-Receives :
    (body : DeniedReply) → IsDenied body → Receives xdr_recv_denied_reply (denied_wire body) body
unfolding denied_body xdr_recv_denied_reply
denied-Receives (mismatch low high) (p, q) =
    Receives-bind denied_body (enum-Receives 0 (omega arith)) (Receives-pair mismatch p q)
denied-Receives (auth_error why) h =
    Receives-bind denied_body (enum-Receives 1 (omega arith))
      (Receives-then _ (enum-Receives why h) refl)
denied-Receives (other_reject stat) h = absurd h

accepted-Receives :
    (base : Bytes) (verf : OpaqueAuth) (body : AcceptStat)
    → Bare base verf
    → IsAccept body
    → Receives
        (xdr_recv_accepted_reply_header base)
        (auth_wire verf ++ accept_wire body)
        (accepted verf body)
unfolding xdr_recv_accepted_reply_header
accepted-Receives base verf body b h = Receives-bind _ (Bare-Receives base verf b) (
    Receives-assoc (xdr_recv_enum 4) accept_body (λ c. got (accepted verf c))
      (Receives-then _ (accept-Receives body h) refl))

pub reply-Receives :
    (base : Bytes) (h : ReplyHeader)
    → IsReply base h
    → Receives (xdr_recv_reply_header base) (reply_wire h) h
unfolding reply_body xdr_recv_reply_header
reply-Receives base (accepted verf body) (b, k) =
    Receives-bind (reply_body base) (enum-Receives 0 (omega arith))
      (accepted-Receives base verf body b k)
reply-Receives base (denied body) k =
    Receives-bind (reply_body base) (enum-Receives 1 (omega arith))
      (Receives-then _ (denied-Receives body k) refl)
reply-Receives base (other_reply stat) k = absurd k

-- A reply header that the protocol knows, with a verifier without a body, is sent whole into a buffer
-- with room for it, and the receiver of that buffer reads the same header and nothing more.
pub reply_header_roundtrip :
    (base : Bytes) (h : ReplyHeader)
    → IsReply base h
    → (x z : Xdr) → Room x (length (reply_wire h))
    → Carried x (xdr_send_reply_header h x).1 z
    → ((xdr_send_reply_header h x).0 ≡ true)
      × (xdr_recv_reply_header base z ≡ (some h, record z { in_next = z.in_len }))
reply_header_roundtrip base h k x z room c =
    transfer (reply-Sends base h k) (reply-Receives base h k) x z room c
