-- ===== src/Controller/Queue.antt =====
-- The list of requests and their status when a request is added or written.
use mapget.Base.{
  ℕ, ◌≡◌, [], ◌∷◌, ◌++◌, refl, arith, ◌==◌, if◌then◌else◌, Bool-cases, inl, inr, ap, ◌∙◌,
}
use mapget.Request.{Request, is_open}
use mapget.Request.Count.{notify_status-status}
use mapget.Controller.{TileCache, State, update, write, add_request}

module _ {Layer : Type 0} (tc : TileCache Layer) where
  pub write-store :
      (s : State tc) (r n : ℕ) (q : Request Layer)
      → (write tc s r q).store n ≡ (if r == n then q else s.store n)
  unfolding write update
  write-store s r n q = refl

  pub write-requests :
      (s : State tc) (r : ℕ) (q : Request Layer) → (write tc s r q).requests ≡ s.requests
  unfolding write
  write-requests s r q = refl

  pub add_request-requests :
      (r : ℕ) (s : State tc)
      → (add_request tc r s).requests
        ≡ (if is_open (s.store r).status then s.requests ++ (r ∷ []) else s.requests)
  unfolding add_request write
  add_request-requests r s = ground arith

  pub add_request-status :
      (r n : ℕ) (s : State tc) → ((add_request tc r s).store n).status ≡ (s.store n).status
  unfolding add_request write update
  add_request-status r n s = elim (Bool-cases (is_open (s.store r).status)) [
    | inl e ↦ rw e refl
    | inr e ↦ rw e (elim (Bool-cases (r == n)) [
      | inl same ↦
          rw same (notify_status-status (s.store r) ∙ ap (λ k. (s.store k).status) (ground arith))
      | inr other ↦ rw other refl
    ])
  ]
