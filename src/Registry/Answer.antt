-- ===== src/Registry/Answer.antt =====
-- Service::request queues all of its requests or none of them.
use mapget.Base.{
  ℕ, ◌≡◌, ◌≢◌, Bool, true, false, List, [], ◌∷◌, ◌++◌, Option, refl, arith, if◌then◌else◌, filter,
  All, Bool-cases, inl, inr, ap, sym, ◌∙◌, append_assoc, append-nil,
}
use mapget.Base.Text.{Text}
use mapget.Request.{
  RequestStatus, open_, success, no_data_source, unauthorized, aborted, is_open, set_status,
}
use mapget.Request.Count.{set_status-SameTask}
use mapget.Source.{SourceInfo}
use mapget.Controller.{TileCache, State, add_request}
use mapget.Controller.Queue.{write-store, write-requests, add_request-requests, add_request-status}
use mapget.Registry.{
  Headers, has_layer_and_can_access, access, deny, first_pass, second_pass, request,
}

filter_same : (p q : ℕ → Bool) (xs : List ℕ) → ((n : ℕ) → p n ≡ q n) → filter p xs ≡ filter q xs
filter_same p q [] h = refl
filter_same p q (x ∷ xs) h = rw (h x, filter_same p q xs h)

module _ (authorized : ℕ → Headers → Bool) (headers : Option Headers) {Layer : Type 0}
    (tc : TileCache Layer) (sources : List (ℕ × SourceInfo)) where
  -- The access that a request's map and layer have.
  abbrev pub Accessible : State tc → ℕ → Type 0
  Accessible s r =
      has_layer_and_can_access authorized headers sources (s.store r).map_id (s.store r).layer_id
      ≡ success

  -- Statuses are kept and the open requests join the queue, or the queue is kept and no request is
  -- left open.
  abbrev pub Answered : Bool → List ℕ → State tc → State tc → Type 0
  Answered true rs s t =
      All (Accessible s) rs
      × (t.requests ≡ s.requests ++ filter (λ r. is_open (s.store r).status) rs)
      × ((n : ℕ) → (t.store n).status ≡ (s.store n).status)
  Answered false rs s t =
      (¬ All (Accessible s) rs)
      × (t.requests ≡ s.requests)
      × All (λ r. is_open (t.store r).status ≡ false) rs

  deny_requests :
      (st : RequestStatus) (r : ℕ) (s : State tc)
      → (deny authorized headers tc sources st r s).requests ≡ s.requests
  unfolding deny
  deny_requests st r s = write-requests tc s r (set_status st (s.store r))

  first_pass-requests :
      (rs : List ℕ) (ok : Bool) (s : State tc)
      → (first_pass authorized headers tc sources rs ok s).1.requests ≡ s.requests
  unfolding first_pass
  first_pass-requests [] ok s = refl
  first_pass-requests (r ∷ rs) ok s = ground (
    arith,
    first_pass-requests rs ok s,
    first_pass-requests rs false (deny authorized headers tc sources no_data_source r s),
    first_pass-requests rs false (deny authorized headers tc sources unauthorized r s),
    deny_requests no_data_source r s,
    deny_requests unauthorized r s,
  )

  first_pass-denied :
      (rs : List ℕ) (s : State tc) → (first_pass authorized headers tc sources rs false s).0 ≡ false
  unfolding first_pass
  first_pass-denied [] s = refl
  first_pass-denied (r ∷ rs) s = ground (
    arith,
    first_pass-denied rs s,
    first_pass-denied rs (deny authorized headers tc sources no_data_source r s),
    first_pass-denied rs (deny authorized headers tc sources unauthorized r s),
  )

  -- The lookup answers with one of three statuses.
  access-cases :
      (es : List (ℕ × SourceInfo)) (m l : Text)
      → (has_layer_and_can_access authorized headers es m l ≢ open_)
        × (has_layer_and_can_access authorized headers es m l ≢ aborted)
  unfolding has_layer_and_can_access
  access-cases [] m l = ground arith
  access-cases ((ds, info) ∷ es) m l = ground (arith, access-cases es m l)

  first_pass-available :
      (rs : List ℕ) (s : State tc)
      → (first_pass authorized headers tc sources rs true s).0 ≡ true
      → ((first_pass authorized headers tc sources rs true s).1 ≡ s) × All (Accessible s) rs
  unfolding first_pass access
  first_pass-available [] s h = (refl, tt)
  first_pass-available (r ∷ rs) s h = ground (
    arith,
    access-cases sources (s.store r).map_id (s.store r).layer_id,
    first_pass-available rs s,
    first_pass-denied rs (deny authorized headers tc sources no_data_source r s),
    first_pass-denied rs (deny authorized headers tc sources unauthorized r s),
  )

  first_pass-refused :
      (rs : List ℕ) (s : State tc)
      → (first_pass authorized headers tc sources rs true s).0 ≡ false
      → ¬ All (Accessible s) rs
  unfolding first_pass access
  first_pass-refused [] s h all = cc
  first_pass-refused (r ∷ rs) s h all = ground (arith, first_pass-refused rs s)

  second_pass-queue :
      (rs : List ℕ) (s : State tc)
      → ((second_pass authorized headers tc sources rs true s).requests
          ≡ s.requests ++ filter (λ r. is_open (s.store r).status) rs)
        × ((n : ℕ)
            → ((second_pass authorized headers tc sources rs true s).store n).status
              ≡ (s.store n).status)
  unfolding second_pass
  second_pass-queue [] s = (sym (append-nil s.requests), λ n. refl)
  second_pass-queue (r ∷ rs) s =
      let (queue, statuses) = second_pass-queue rs (add_request tc r s) in
      (
        queue ∙ enqueue s (filter_same _ _ rs (λ n. ap is_open (add_request-status tc r n s))),
        λ n. statuses n ∙ add_request-status tc r n s,
      )
    where
      enqueue :
          (s : State tc)
          → filter (λ n. is_open ((add_request tc r s).store n).status) rs
            ≡ filter (λ n. is_open (s.store n).status) rs
          → (add_request tc r s).requests
              ++ filter (λ n. is_open ((add_request tc r s).store n).status) rs
            ≡ s.requests ++ filter (λ n. is_open (s.store n).status) (r ∷ rs)
      enqueue s same = elim (Bool-cases (is_open (s.store r).status)) [
        | inl e ↦ rw (same, add_request-requests tc r s, e) (simp append_assoc)
        | inr e ↦ rw (same, add_request-requests tc r s, e) refl
      ]

  second_pass-requests :
      (rs : List ℕ) (s : State tc)
      → (second_pass authorized headers tc sources rs false s).requests ≡ s.requests
  unfolding second_pass
  second_pass-requests [] s = refl
  second_pass-requests (r ∷ rs) s = ground (
    arith,
    second_pass-requests rs s,
    second_pass-requests rs (deny authorized headers tc sources aborted r s),
    deny_requests aborted r s,
  )

  -- A request that is done stays done.
  deny_done :
      (r n : ℕ) (s : State tc)
      → is_open (s.store n).status ≡ false
      → is_open ((deny authorized headers tc sources aborted r s).store n).status ≡ false
  unfolding deny
  deny_done r n s h = ground (
    arith,
    write-store tc s r n (set_status aborted (s.store r)),
    set_status-SameTask aborted (s.store r),
  )

  deny_self :
      (r : ℕ) (s : State tc)
      → is_open ((deny authorized headers tc sources aborted r s).store r).status ≡ false
  unfolding deny
  deny_self r s = ground (
    arith,
    write-store tc s r r (set_status aborted (s.store r)),
    set_status-SameTask aborted (s.store r),
  )

  second_pass-stays :
      (rs : List ℕ) (n : ℕ) (s : State tc)
      → is_open (s.store n).status ≡ false
      → is_open ((second_pass authorized headers tc sources rs false s).store n).status ≡ false
  unfolding second_pass
  second_pass-stays [] n s h = h
  second_pass-stays (r ∷ rs) n s h = ground (
    arith,
    second_pass-stays rs n s,
    second_pass-stays rs n (deny authorized headers tc sources aborted r s),
    deny_done r n s h,
  )

  second_pass-closes :
      (rs : List ℕ) (s : State tc)
      → All
          (λ r.
            is_open ((second_pass authorized headers tc sources rs false s).store r).status ≡ false)
          rs
  unfolding second_pass
  second_pass-closes [] s = tt
  second_pass-closes (r ∷ rs) s = (
    second_pass-stays rs r _ (elim (Bool-cases (is_open (s.store r).status)) [
      | inl e ↦ rw e (deny_self r s)
      | inr e ↦ rw e e
    ]),
    second_pass-closes rs
        (if is_open (s.store r).status then deny authorized headers tc sources aborted r s else s),
  )

  -- Service::request returns true exactly when every one of its requests is for a layer that a data
  -- source has and that the client may access. Then the requests that are open join the queue in
  -- their order and no status changes; otherwise the queue stays as it is and none of the requests
  -- is left open.
  pub request-Answered :
      (rs : List ℕ) (s : State tc)
      → Answered
          (request authorized headers tc sources rs s).0
          rs
          s
          (request authorized headers tc sources rs s).1
  unfolding request
  request-Answered rs s = elim (Bool-cases (first_pass authorized headers tc sources rs true s).0) [
    | inl e ↦
        let (same, all) = first_pass-available rs s e in
        let (queue, statuses) = second_pass-queue rs s in rw (e, same) (all, queue, statuses)
    | inr e ↦
        let t = (first_pass authorized headers tc sources rs true s).1 in
        rw e (
          first_pass-refused rs s e,
          second_pass-requests rs t ∙ first_pass-requests rs true s,
          second_pass-closes rs t,
        )
  ]
