-- ===== src/Ni/Requests.antt =====
-- gps/libloc/libloc_api/loc_eng_ni.cpp: what a request of the modem leaves behind while a notification is in
-- progress and while none is, and what a response leaves alone.
use android_device_generic_m.Base.{
  ℕ, ◌≡◌, refl, ap, ◌∙◌, Bool, true, false, some, [], ◌⊎◌, inl, inr, if◌then◌else◌, arith,
}
use android_device_generic_m.Ni.{
  NiEvent, vx, umts_cp, supl, other_request, NiRequest, UserResponse, response_accept,
  response_deny, response_noresp, other_response, Notification, Sizes, NiData, expect, ask,
  fill_notif, loc_ni_request_handler, loc_eng_ni_callback, loc_ni_process_user_response,
  loc_eng_ni_respond, for_kind,
}

pub respond_same :
    (id : ℕ) (r : UserResponse) (d : NiData)
    → ((loc_eng_ni_respond id r d).notif_in_progress ≡ d.notif_in_progress)
      × ((loc_eng_ni_respond id r d).loc_ni_request ≡ d.loc_ni_request)
      × ((loc_eng_ni_respond id r d).locked ≡ d.locked)
unfolding loc_eng_ni_respond loc_ni_process_user_response
respond_same id response_accept d = ground arith
respond_same id response_deny d = ground arith
respond_same id response_noresp d = ground arith
respond_same id other_response d = ground arith

for_kind_same : (k : NiEvent) (d : NiData) → for_kind k (d, []) d ≡ (d, [])
for_kind_same other_request d = refl
for_kind_same k d = refl

pub callback_busy :
    (z : Sizes) (rand : ℕ) (created notify_cb : Bool) (r : NiRequest) (d : NiData)
    → d.notif_in_progress ≡ true
    → loc_eng_ni_callback z rand created notify_cb r d ≡ (d, [])
unfolding loc_eng_ni_callback loc_ni_request_handler
callback_busy z rand created notify_cb r d h =
    ap
      (λ b.
        for_kind r.event
          (if b
            then (d, [])
            else ask created notify_cb r (fill_notif z rand r.event r) (expect rand r d))
          d)
      h
    ∙ for_kind_same r.event d

asked_kind :
    (k : NiEvent) (z : Sizes) (rand : ℕ) (created notify_cb : Bool) (r : NiRequest) (d : NiData)
    → (for_kind k (ask created notify_cb r (fill_notif z rand k r) (expect rand r d)) d ≡ (d, []))
      ⊎ ((n : Notification) × (for_kind k
              (ask created notify_cb r (fill_notif z rand k r) (expect rand r d))
              d
            ≡ ask created notify_cb r (some n) (expect rand r d)))
unfolding fill_notif
asked_kind other_request z rand created notify_cb r d = inl refl
asked_kind vx z rand created notify_cb r d = inr (_, refl)
asked_kind umts_cp z rand created notify_cb r d = inr (_, refl)
asked_kind supl z rand created notify_cb r d = inr (_, refl)

-- A request while none is in progress: it is of an unknown kind, or it is asked of the user.
pub callback_free :
    (z : Sizes) (rand : ℕ) (created notify_cb : Bool) (r : NiRequest) (d : NiData)
    → d.notif_in_progress ≡ false
    → (loc_eng_ni_callback z rand created notify_cb r d ≡ (d, []))
      ⊎ ((n : Notification) × (loc_eng_ni_callback z rand created notify_cb r d
            ≡ ask created notify_cb r (some n) (expect rand r d)))
unfolding loc_eng_ni_callback loc_ni_request_handler
callback_free z rand created notify_cb r d h =
    let asked = ask created notify_cb r (fill_notif z rand r.event r) (expect rand r d) in
    let e = ap (λ b. for_kind r.event (if b then (d, []) else asked) d) h in
    elim (asked_kind r.event z rand created notify_cb r d) [
      | inl p ↦ inl (e ∙ p)
      | inr (n, p) ↦ inr (n, e ∙ p)
    ]
