-- ===== src/Config/Outcome.antt =====
-- The states that the configuration service reaches, and what holds in all of them.
use mapget.Base.{
  All-filter, All, ℕ, ◌≡◌, ◌≢◌, inl, inr, Bool, true, false, List, [], ◌∷◌, ◌++◌, Option, none,
  some, refl, sym, subst, ap, ◌∙◌, ◌==◌, ==_iff, length, length-append, Bool-cases, arith,
}
use mapget.Base.Text.{Text, text_eq, text_eq→eq}
use mapget.Config.{
  CallResult, Yaml, sources, Call, ConfigService, new_service, Made, subscribe, unsubscribe,
  accept_config, reset, register_data_source_type, load_parsed, load_content, load_config,
  load_config_from, watch_round,
}
use mapget.Config.Knows.{
  Quiet, subscribe-tell_now, load_parsed-tell, load_config-returns, latest, Knows, AllKnow, Synced,
  set_subscription-Knows, load_config-AllKnow, load_config-Synced,
}

append-cancel {ℓ} : {A : Type ℓ} (xs ys zs : List A) → xs ++ zs ≡ ys ++ zs → xs ≡ ys
append-cancel [] [] zs e = refl
append-cancel [] (y ∷ ys) zs e = absurd (omega (arith, ap length e, length-append ys zs))
append-cancel (x ∷ xs) [] zs e = absurd (omega (arith, ap length e, length-append xs zs))
append-cancel (x ∷ xs) (y ∷ ys) zs e =
    let heads : x ≡ y = cc in
    let tails : xs ++ zs ≡ ys ++ zs = cc in rw (heads, append-cancel xs ys zs tails) refl

sources_injective : {Node : Type 0} {a b : List Node} → sources a ≡ sources b → a ≡ b
sources_injective e = cc

told :
    {Node : Type 0} (nodes config : List Node) (calls : List (Call Node)) (subs : List (ℕ × Bool))
    → config ≡ nodes
    → nodes ≢ []
    → All (Knows config calls) subs
    → All (λ ((id, e) : ℕ × Bool). latest id calls ≡ some nodes) subs
told nodes config calls [] same ne h = tt
told nodes config calls ((id, e) ∷ subs) same ne (k, h) = (
  k (λ none_left. ne (sym same ∙ none_left)) ∙ ap some same,
  told nodes config calls subs same ne h,
)

module _ {Node Source : Type 0} (sha256 : Text → Text) (load_yaml : Text → Yaml Node)
    (outcome : List (Call Node) → ℕ → List Node → CallResult) where
  pub data Reach : ConfigService Node Source → Type 0 where
    started : Reach new_service
    subscribed :
        {s : ConfigService Node Source} (has_error : Bool)
        → Reach s
        → Reach (subscribe outcome has_error s)
    unsubscribed : {s : ConfigService Node Source} (id : ℕ) → Reach s → Reach (unsubscribe id s)
    registered :
        {s : ConfigService Node Source} (name : Text) (c : Node → Made Source)
        → Reach s
        → Reach (register_data_source_type name c s)
    loaded :
        {s : ConfigService Node Source} (path : Text) (start_watching : Bool) (file : Option Text)
        → Reach s
        → Reach (load_config_from sha256 load_yaml outcome path start_watching file s).0
    watched :
        {s : ConfigService Node Source} (last now : Option ℕ) (file : Option Text)
        → s.watching ≡ true
        → (watch_round sha256 load_yaml outcome last now file s).1 ≡ false
        → Reach s
        → Reach (watch_round sha256 load_yaml outcome last now file s).0
    was_reset : {s : ConfigService Node Source} → Reach s → Reach (reset s)

  -- What loadConfig(path, ...) sets before it loads.
  abbrev cleared : Text → ConfigService Node Source → ConfigService Node Source
  cleared path s = record s { config_file_path = path; last_config_sha256 = [] }

  module _ (quiet : Quiet outcome) where
    -- A change of the fields that the subscribers do not see.
    load_config_from-AllKnow :
        (path : Text) (start_watching : Bool) (file : Option Text) (s : ConfigService Node Source)
        → AllKnow sha256 load_yaml s
        → AllKnow sha256 load_yaml
            (load_config_from sha256 load_yaml outcome path start_watching file s).0
    unfolding load_config_from
    load_config_from-AllKnow path true file s h =
        rw (load_config-returns sha256 load_yaml outcome quiet file (cleared path s))
          (load_config-AllKnow sha256 load_yaml outcome quiet file (cleared path s) h)
    load_config_from-AllKnow path false file s h =
        load_config-AllKnow sha256 load_yaml outcome quiet file (cleared path s) h

    load_config_from-Synced :
        (path : Text) (start_watching : Bool) (file : Option Text) (s : ConfigService Node Source)
        → Synced sha256 load_yaml
            (load_config_from sha256 load_yaml outcome path start_watching file s).0
    unfolding load_config_from
    load_config_from-Synced path true file s =
        rw (load_config-returns sha256 load_yaml outcome quiet file (cleared path s))
          (load_config-Synced sha256 load_yaml outcome quiet file (cleared path s) (inl refl))
    load_config_from-Synced path false file s =
        load_config-Synced sha256 load_yaml outcome quiet file (cleared path s) (inl refl)

    watch_round-AllKnow :
        (last now : Option ℕ) (file : Option Text) (s : ConfigService Node Source)
        → AllKnow sha256 load_yaml s
        → AllKnow sha256 load_yaml (watch_round sha256 load_yaml outcome last now file s).0
    unfolding watch_round
    watch_round-AllKnow last none file s h = h
    watch_round-AllKnow none (some now) file s h =
        load_config-AllKnow sha256 load_yaml outcome quiet file s h
    watch_round-AllKnow (some last) (some now) file s h = elim (Bool-cases (now == last)) [
      | inl t ↦ rw (watch_round, t) h
      | inr f ↦ rw (watch_round, f) (load_config-AllKnow sha256 load_yaml outcome quiet file s h)
    ]

    watch_round-returns :
        (last now : Option ℕ) (file : Option Text) (s : ConfigService Node Source)
        → (watch_round sha256 load_yaml outcome last now file s).1 ≡ false
    unfolding watch_round
    watch_round-returns last none file s = refl
    watch_round-returns none (some now) file s =
        load_config-returns sha256 load_yaml outcome quiet file s
    watch_round-returns (some last) (some now) file s = elim (Bool-cases (now == last)) [
      | inl t ↦ rw (watch_round, t) refl
      | inr f ↦ rw (watch_round, f) (load_config-returns sha256 load_yaml outcome quiet file s)
    ]

    watch_round-Synced :
        (last now : Option ℕ) (file : Option Text) (s : ConfigService Node Source)
        → Synced sha256 load_yaml s
        → Synced sha256 load_yaml (watch_round sha256 load_yaml outcome last now file s).0
    unfolding watch_round
    watch_round-Synced last none file s h = h
    watch_round-Synced none (some now) file s h =
        load_config-Synced sha256 load_yaml outcome quiet file s h
    watch_round-Synced (some last) (some now) file s h = elim (Bool-cases (now == last)) [
      | inl t ↦ rw (watch_round, t) h
      | inr f ↦ rw (watch_round, f) (load_config-Synced sha256 load_yaml outcome quiet file s h)
    ]

    -- Where no call of a subscriber throws, in every state that the service reaches, each subscription
    -- that stands has been told the current configuration in its latest success call, where that
    -- configuration has any source.
    pub Reach-AllKnow : {s : ConfigService Node Source} → Reach s → AllKnow sha256 load_yaml s
    unfolding unsubscribe register_data_source_type reset
    Reach-AllKnow started = tt
    Reach-AllKnow (subscribed {s = s} e r) =
        subst (AllKnow sha256 load_yaml)
          (sym (subscribe-tell_now sha256 load_yaml outcome quiet e s))
          (set_subscription-Knows s.next_subscription_id e s.subscriptions s.current_config s.calls
            (Reach-AllKnow r))
    Reach-AllKnow (unsubscribed {s = s} id r) =
        All-filter (Knows s.current_config s.calls) _ s.subscriptions (Reach-AllKnow r)
    Reach-AllKnow (registered name c r) = Reach-AllKnow r
    Reach-AllKnow (loaded {s = s} path w file r) =
        load_config_from-AllKnow path w file s (Reach-AllKnow r)
    Reach-AllKnow (watched {s = s} last now file w ended r) =
        watch_round-AllKnow last now file s (Reach-AllKnow r)
    Reach-AllKnow (was_reset r) = tt

    Reach-Synced :
        {s : ConfigService Node Source} → Reach s → s.watching ≡ true → Synced sha256 load_yaml s
    unfolding unsubscribe register_data_source_type reset
    Reach-Synced started w = cc
    Reach-Synced (subscribed {s = s} e r) w =
        let told_now = subscribe-tell_now sha256 load_yaml outcome quiet e s in
        subst (Synced sha256 load_yaml) (sym told_now)
          (Reach-Synced r (ap (λ (u : ConfigService Node Source). u.watching) (sym told_now) ∙ w))
    Reach-Synced (unsubscribed id r) w = Reach-Synced r w
    Reach-Synced (registered name c r) w = Reach-Synced r w
    Reach-Synced (loaded {s = s} path start file r) w = load_config_from-Synced path start file s
    Reach-Synced (watched {s = s} last now file w' ended r) w =
        watch_round-Synced last now file s (Reach-Synced r w')
    Reach-Synced (was_reset r) w = cc

    -- Loading a file whose content is known to parse, in a state in which the hash is of such a file.
    load_content-current :
        (content : Text) (nodes : List Node) (s : ConfigService Node Source)
        → ((a b : Text) → sha256 a ≡ sha256 b → a ≡ b)
        → ((a : Text) → sha256 a ≢ [])
        → load_yaml content ≡ sources nodes
        → Synced sha256 load_yaml s
        → (load_config sha256 load_yaml outcome (some content) s).0.current_config ≡ nodes
    unfolding load_config load_content load_parsed accept_config
    load_content-current content nodes s collision_free filled e h =
        elim (Bool-cases (text_eq (sha256 (content ++ s.config_file_path)) s.last_config_sha256)) [
          | inr f ↦
              rw (load_config, load_content, f, e)
                (ap (λ r. r.0.current_config)
                  (load_parsed-tell sha256 load_yaml outcome quiet _ nodes s))
          | inl t ↦
              rw (load_config, load_content, t)
                (let same = text_eq→eq _ s.last_config_sha256 t in
                  elim h [
                    | inl none_yet ↦ absurd (filled _ (same ∙ none_yet))
                    | inr (old, hashed, parsed) ↦
                        (let equal =
                            append-cancel content old s.config_file_path
                              (collision_free _ _ (same ∙ hashed)) in
                          sources_injective (sym parsed ∙ ap load_yaml (sym equal) ∙ e))
                  ])
        ]

    -- While the watch thread runs, in any state that the service reaches, a round that sees a file
    -- with a time of modification other than at the last round leaves the sources of that file as the
    -- current configuration, where the file parses and has sources, even if it is found unchanged.
    -- The hash is taken to be free of collisions and never empty.
    watch_round-current :
        {s : ConfigService Node Source} (last : Option ℕ) (now : ℕ) (content : Text)
        (nodes : List Node)
        → Reach s
        → s.watching ≡ true
        → ((a b : Text) → sha256 a ≡ sha256 b → a ≡ b)
        → ((a : Text) → sha256 a ≢ [])
        → last ≢ some now
        → load_yaml content ≡ sources nodes
        → (watch_round sha256 load_yaml outcome last (some now) (some content) s).0.current_config
          ≡ nodes
    unfolding watch_round
    watch_round-current {s = s} none now content nodes r w collision_free filled changed e =
        load_content-current content nodes s collision_free filled e (Reach-Synced r w)
    watch_round-current {s = s} (some last) now content nodes r w collision_free filled changed e =
        elim (Bool-cases (now == last)) [
          | inl t ↦ absurd (changed (ap some (sym ((==_iff now last).0 t))))
          | inr f ↦
              rw (watch_round, f)
                (load_content-current content nodes s collision_free filled e (Reach-Synced r w))
        ]

    -- A changed file reaches everyone where no call of a subscriber throws: while the watch thread
    -- runs, in any state that the service reaches, one round that sees a file with another time of
    -- modification, which parses and has at least one source, ends with the sources of that file as
    -- what every subscription that stands was told last. The hash is taken to be free of collisions
    -- and never empty.
    pub watch_round-Knows :
        {s : ConfigService Node Source} (last : Option ℕ) (now : ℕ) (content : Text) (node : Node)
        (nodes : List Node)
        → Reach s
        → s.watching ≡ true
        → ((a b : Text) → sha256 a ≡ sha256 b → a ≡ b)
        → ((a : Text) → sha256 a ≢ [])
        → last ≢ some now
        → load_yaml content ≡ sources (node ∷ nodes)
        → All
            (λ ((id, e) : ℕ × Bool).
              latest id
                (watch_round sha256 load_yaml outcome last (some now) (some content) s).0.calls
              ≡ some (node ∷ nodes))
            (watch_round sha256 load_yaml outcome last (some now) (some content) s).0.subscriptions
    watch_round-Knows {s = s} last now content node nodes r w collision_free filled changed e =
        let after = (watch_round sha256 load_yaml outcome last (some now) (some content) s).0 in
        told (node ∷ nodes) after.current_config after.calls after.subscriptions
          (watch_round-current last now content (node ∷ nodes) r w collision_free filled changed e)
          (λ none_left. cc)
          (Reach-AllKnow (
            watched last (some now) (some content) w
              (watch_round-returns last (some now) (some content) s) r))
