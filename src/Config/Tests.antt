-- ===== src/Config/Tests.antt =====
-- A run of the configuration service: nodes are numbers, a file holds one node per character, and
-- the hash of a text is the text behind one character.
use mapget.Base.{
  ◌==◌, if◌then◌else◌, List, false, Bool, [], ◌∷◌, ℕ, ◌≡◌, true, ◌∷◌, none, some, refl, All,
}
use mapget.Base.Text.{Text, codes, text_eq}
use mapget.Config.{
  Call, CallResult, returned, threw, set_subscription, load_config, load_content, load_parsed,
  accept_config, after_success, notify_success, settle_subscription, Yaml, sources, ConfigService,
  new_service, subscribe, load_config_from, watch_round,
}
use mapget.Config.Knows.{Quiet, Knows, latest}
use mapget.Config.Outcome.{
  Reach, started, subscribed, loaded, watched, Reach-AllKnow, watch_round-Knows,
}

abbrev sha : Text → Text
sha t = 1 ∷ t

abbrev yaml : Text → Yaml ℕ
yaml t = sources t

abbrev config : Text
config = codes "ab"

abbrev return_all : List (Call ℕ) → ℕ → List ℕ → CallResult
return_all calls id nodes = returned

abbrev quiet : Quiet return_all
quiet calls id nodes = refl

abbrev watching : ConfigService ℕ ℕ
watching =
    (load_config_from sha yaml return_all (codes "f") true (some config)
      (subscribe return_all true new_service)).0

watching-Reach : Reach sha yaml return_all watching
watching-Reach = loaded (codes "f") true (some config) (subscribed true started)

still_watching : watching.watching ≡ true
unfolding load_config_from load_config load_content load_parsed accept_config after_success
    notify_success subscribe settle_subscription text_eq
still_watching = refl

round_returns : (watch_round sha yaml return_all none (some 5) none watching).1 ≡ false
unfolding watch_round load_config
round_returns = refl

Reach-AllKnow_example :
    All
      (Knows
        (watch_round sha yaml return_all none (some 5) none watching).0.current_config
        (watch_round sha yaml return_all none (some 5) none watching).0.calls)
      (watch_round sha yaml return_all none (some 5) none watching).0.subscriptions
Reach-AllKnow_example =
    Reach-AllKnow sha yaml return_all quiet
      (watched none (some 5) none still_watching round_returns watching-Reach)

watch_round-Knows_example :
    All
      (λ ((id, e) : ℕ × Bool).
        latest id
          (watch_round sha yaml return_all (some 4) (some 5) (some (codes "cd")) watching).0.calls
        ≡ some (codes "cd"))
      (watch_round sha yaml return_all
        (some 4)
        (some 5)
        (some (codes "cd"))
        watching).0.subscriptions
watch_round-Knows_example =
    watch_round-Knows sha yaml return_all quiet (some 4) 5 (codes "cd") 99 (100 ∷ []) watching-Reach
      still_watching (λ a b e. cc) (λ a e. cc) (λ e. cc) refl

-- The first of two subscribers throws: the second is not called, and loading the same file again
-- does not call it either, since the hash is set already.
abbrev throw_first : List (Call ℕ) → ℕ → List ℕ → CallResult
throw_first calls id nodes = if id == 0 then threw else returned

abbrev two : ConfigService ℕ ℕ
two = subscribe throw_first false (subscribe throw_first false new_service)

abbrev after_throw : ConfigService ℕ ℕ × Bool
after_throw = load_config sha yaml throw_first (some config) two

second_not_called :
    (after_throw.1 ≡ true)
    × (latest 1 (load_config sha yaml throw_first (some config) after_throw.0).0.calls ≡ none)
unfolding load_config load_content load_parsed accept_config after_success notify_success subscribe
    settle_subscription set_subscription text_eq
second_not_called = (refl, refl)
