-- ===== src/Config/Knows.antt =====
-- What the subscribers of the configuration service know, and what its hash stands for.
use mapget.Base.{
  ℕ, ◌≡◌, ◌≢◌, ◌⊎◌, inl, inr, Bool, true, false, List, [], ◌∷◌, ◌++◌, Option, none, some, refl, ◌∙◌,
  ap, ◌+◌, ◌%◌, ◌^◌, ◌==◌, ==_refl, if◌then◌else◌, All, Bool-cases, arith,
}
use mapget.Base.Text.{Text, text_eq}
use mapget.Config.{
  CallResult, returned, after_success, settle_subscription, subscribe, Yaml, yaml_exception,
  no_sources, sources, Call, success, error, ConfigService, set_subscription, notify_success,
  notify_error, call_now, report_error, accept_config, load_parsed, load_content, load_config,
}

-- The configuration of the last success call of a subscription.
abbrev pub latest : {Node : Type 0} → ℕ → List (Call Node) → Option (List Node)
latest id [] = none
latest id (success j config ∷ cs) =
    let before = latest id cs in if j == id then some config else before
latest id (error j ∷ cs) = latest id cs

module _ {Node : Type 0} where
  -- The subscription has been told the configuration, where there is one.
  abbrev pub Knows : List Node → List (Call Node) → ℕ × Bool → Type 0
  Knows config calls (id, e) = config ≢ [] → latest id calls ≡ some config

  -- The calls of subscribers that return.
  pub tell : List (ℕ × Bool) → List Node → List (Call Node) → List (Call Node)
  tell [] config calls = calls
  tell ((id, e) ∷ subs) config calls = tell subs config (success id config ∷ calls)

  abbrev pub tell_now : ℕ → List Node → List (Call Node) → List (Call Node)
  tell_now id [] calls = calls
  tell_now id (n ∷ ns) calls = success id (n ∷ ns) ∷ calls

  -- No call for a success throws.
  abbrev pub Quiet : (List (Call Node) → ℕ → List Node → CallResult) → Type 0
  Quiet outcome =
      (calls : List (Call Node)) (id : ℕ) (config : List Node) → outcome calls id config ≡ returned

  notify_success-tell :
      (outcome : List (Call Node) → ℕ → List Node → CallResult)
      → Quiet outcome
      → (subs : List (ℕ × Bool)) (config : List Node) (calls : List (Call Node))
      → notify_success outcome subs config calls ≡ (tell subs config calls, returned)
  unfolding notify_success tell
  notify_success-tell outcome quiet [] config calls = refl
  notify_success-tell outcome quiet ((id, e) ∷ subs) config calls =
      rw (notify_success, quiet calls id config)
        (notify_success-tell outcome quiet subs config (success id config ∷ calls))

  call_now-tell_now :
      (outcome : List (Call Node) → ℕ → List Node → CallResult)
      → Quiet outcome
      → (id : ℕ) (config : List Node) (calls : List (Call Node))
      → call_now outcome id config calls ≡ (tell_now id config calls, returned)
  call_now-tell_now outcome quiet id [] calls = refl
  call_now-tell_now outcome quiet id (n ∷ ns) calls = rw (quiet calls id (n ∷ ns)) refl

  tell-latest :
      (subs : List (ℕ × Bool)) (config : List Node) (calls : List (Call Node)) (id : ℕ)
      → latest id calls ≡ some config
      → latest id (tell subs config calls) ≡ some config
  unfolding tell
  tell-latest [] config calls id h = h
  tell-latest ((j, e) ∷ subs) config calls id h =
      tell-latest subs config (success j config ∷ calls) id
        (elim (Bool-cases (j == id)) [ inl t ↦ rw t refl | inr f ↦ rw f h ])

  tell-Knows :
      (subs : List (ℕ × Bool)) (config : List Node) (calls : List (Call Node))
      → All (Knows config (tell subs config calls)) subs
  unfolding tell
  tell-Knows [] config calls = tt
  tell-Knows ((j, e) ∷ subs) config calls = (
    λ h. tell-latest subs config (success j config ∷ calls) j (rw (==_refl j) refl),
    tell-Knows subs config (success j config ∷ calls),
  )

  notify_error-latest :
      (subs : List (ℕ × Bool)) (calls : List (Call Node)) (id : ℕ)
      → latest id (notify_error subs calls) ≡ latest id calls
  unfolding notify_error
  notify_error-latest [] calls id = refl
  notify_error-latest ((j, true) ∷ subs) calls id = notify_error-latest subs (error j ∷ calls) id
  notify_error-latest ((j, false) ∷ subs) calls id = notify_error-latest subs calls id

  -- A subscription that is called now knows, and the others know what they knew.
  tell_now-Knows :
      (id : ℕ) (config : List Node) (calls : List (Call Node)) (j : ℕ)
      → (config ≢ [] → latest j calls ≡ some config) ⊎ (j ≡ id)
      → config ≢ []
      → latest j (tell_now id config calls) ≡ some config
  tell_now-Knows id [] calls j h ne = absurd (ne refl)
  tell_now-Knows id (n ∷ ns) calls j h ne = elim (Bool-cases (id == j)) [
    | inl t ↦ rw t refl
    | inr f ↦ rw f (elim h [ inl known ↦ known ne | inr e ↦ absurd (ground arith) ])
  ]

  pub set_subscription-Knows :
      (id : ℕ) (e : Bool) (subs : List (ℕ × Bool)) (config : List Node) (calls : List (Call Node))
      → All (Knows config calls) subs
      → All (Knows config (tell_now id config calls)) (set_subscription id e subs)
  unfolding set_subscription
  set_subscription-Knows id e [] config calls h =
      ((λ ne. tell_now-Knows id config calls id (inr refl) ne), tt)
  set_subscription-Knows id e ((j, f) ∷ subs) config calls (k, h) = elim (Bool-cases (j == id)) [
    | inl t ↦
        rw (set_subscription, t)
          ((λ ne. tell_now-Knows id config calls id (inr refl) ne), others subs h)
    | inr n ↦
        rw (set_subscription, n)
          (
            (λ ne. tell_now-Knows id config calls j (inl k) ne),
            set_subscription-Knows id e subs config calls h,
          )
  ]
    where
      others :
          (subs : List (ℕ × Bool))
          → All (Knows config calls) subs
          → All (Knows config (tell_now id config calls)) subs
      others [] h = tt
      others ((i, g) ∷ subs) (k, h) =
          ((λ ne. tell_now-Knows id config calls i (inl k) ne), others subs h)

  notify_error-Knows :
      (all subs : List (ℕ × Bool)) (config : List Node) (calls : List (Call Node))
      → All (Knows config calls) subs
      → All (Knows config (notify_error all calls)) subs
  notify_error-Knows all [] config calls h = tt
  notify_error-Knows all ((j, e) ∷ subs) config calls (k, h) =
      (λ ne. notify_error-latest all calls j ∙ k ne, notify_error-Knows all subs config calls h)

module _ {Node Source : Type 0} (sha256 : Text → Text) (load_yaml : Text → Yaml Node) where
  -- The hash that is kept is that of a file with the configuration that is kept.
  abbrev pub Synced : ConfigService Node Source → Type 0
  Synced s =
      (s.last_config_sha256 ≡ [])
      ⊎ ((content : Text) × (s.last_config_sha256 ≡ sha256 (content ++ s.config_file_path))
          × (load_yaml content ≡ sources s.current_config))

  abbrev pub AllKnow : ConfigService Node Source → Type 0
  AllKnow s = All (Knows s.current_config s.calls) s.subscriptions

  module _ (outcome : List (Call Node) → ℕ → List Node → CallResult) (quiet : Quiet outcome) where
    -- An operation whose calls all return.
    pub subscribe-tell_now :
        (e : Bool) (s : ConfigService Node Source)
        → subscribe outcome e s ≡ record s {
          next_subscription_id = (s.next_subscription_id + 1) % 2 ^ 32;
          subscriptions = set_subscription s.next_subscription_id e s.subscriptions;
          calls = tell_now s.next_subscription_id s.current_config s.calls;
        }
    unfolding subscribe settle_subscription
    subscribe-tell_now e s =
        rw (call_now-tell_now outcome quiet s.next_subscription_id s.current_config s.calls) refl

    pub load_parsed-tell :
        (sha : Text) (nodes : List Node) (s : ConfigService Node Source)
        → load_parsed sha256 load_yaml outcome sha (sources nodes) s ≡ (
          record s {
            current_config = nodes;
            last_config_sha256 = sha;
            calls = tell s.subscriptions nodes s.calls;
          },
          false,
        )
    unfolding load_parsed accept_config after_success
    load_parsed-tell sha nodes s =
        rw (notify_success-tell outcome quiet s.subscriptions nodes s.calls) refl

    load_parsed-returns :
        (sha : Text) (y : Yaml Node) (s : ConfigService Node Source)
        → (load_parsed sha256 load_yaml outcome sha y s).1 ≡ false
    unfolding load_parsed
    load_parsed-returns sha yaml_exception s = refl
    load_parsed-returns sha no_sources s = refl
    load_parsed-returns sha (sources nodes) s = ap (λ r. r.1) (load_parsed-tell sha nodes s)

    pub load_config-returns :
        (file : Option Text) (s : ConfigService Node Source)
        → (load_config sha256 load_yaml outcome file s).1 ≡ false
    unfolding load_config load_content
    load_config-returns none s = refl
    load_config-returns (some content) s =
        elim (Bool-cases (text_eq (sha256 (content ++ s.config_file_path)) s.last_config_sha256)) [
          | inl t ↦ rw (load_config, load_content, t) refl
          | inr f ↦ rw (load_config, load_content, f) (load_parsed-returns _ (load_yaml content) s)
        ]

    load_parsed-AllKnow :
        (sha : Text) (y : Yaml Node) (s : ConfigService Node Source)
        → AllKnow s
        → AllKnow (load_parsed sha256 load_yaml outcome sha y s).0
    unfolding load_parsed report_error
    load_parsed-AllKnow sha yaml_exception s h =
        notify_error-Knows s.subscriptions s.subscriptions s.current_config s.calls h
    load_parsed-AllKnow sha no_sources s h =
        notify_error-Knows s.subscriptions s.subscriptions s.current_config s.calls h
    load_parsed-AllKnow sha (sources nodes) s h =
        rw (load_parsed-tell sha nodes s) (tell-Knows s.subscriptions nodes s.calls)

    pub load_config-AllKnow :
        (file : Option Text) (s : ConfigService Node Source)
        → AllKnow s
        → AllKnow (load_config sha256 load_yaml outcome file s).0
    unfolding load_config load_content report_error
    load_config-AllKnow none s h =
        notify_error-Knows s.subscriptions s.subscriptions s.current_config s.calls h
    load_config-AllKnow (some content) s h =
        elim (Bool-cases (text_eq (sha256 (content ++ s.config_file_path)) s.last_config_sha256)) [
          | inl t ↦ rw (load_config, load_content, t) h
          | inr f ↦
              rw (load_config, load_content, f) (load_parsed-AllKnow _ (load_yaml content) s h)
        ]

    load_parsed-Synced :
        (content : Text) (y : Yaml Node) (s : ConfigService Node Source)
        → load_yaml content ≡ y
        → Synced s
        → Synced
            (load_parsed sha256 load_yaml outcome (sha256 (content ++ s.config_file_path)) y s).0
    unfolding load_parsed report_error
    load_parsed-Synced content yaml_exception s e h = h
    load_parsed-Synced content no_sources s e h = h
    load_parsed-Synced content (sources nodes) s e h =
        rw (load_parsed-tell (sha256 (content ++ s.config_file_path)) nodes s)
          (inr (content, refl, e))

    pub load_config-Synced :
        (file : Option Text) (s : ConfigService Node Source)
        → Synced s
        → Synced (load_config sha256 load_yaml outcome file s).0
    unfolding load_config load_content report_error
    load_config-Synced none s h = h
    load_config-Synced (some content) s h =
        elim (Bool-cases (text_eq (sha256 (content ++ s.config_file_path)) s.last_config_sha256)) [
          | inl t ↦ rw (load_config, load_content, t) h
          | inr f ↦
              rw (load_config, load_content, f)
                (load_parsed-Synced content (load_yaml content) s refl h)
        ]
