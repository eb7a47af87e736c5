-- ===== src/Cli/OneOff.antt =====
-- cli/cli.go with --one-off: what the whole of Main does.
use locutus.Prelude.{ℕ, true, ◌≡◌, refl, ap, ◌∙◌, none, some, List, [], ◌∷◌, ◌++◌, map}
use locutus.Outcome.{Outcome, ok, err, panic, >>=-eq-ok}
use locutus.Env.{Env}
use locutus.Rollout.Config.{pass_config}
use locutus.Trigger.{execute_each}
use locutus.Trigger.Resource.{Regexp}
use locutus.Cli.{
  Flags, ConfiguredTrigger, resource_trigger, interval_trigger, database_trigger, one_off_trigger,
  Outside, Wired, client_config,
}
use locutus.Cli.Kinds.{kind_of, of_one_off}
use locutus.Cli.Wiring.{wire-wired}
use locutus.Cli.Actors.{add_actors, group_runs}
use locutus.Cli.Running.{
  RolloutState, Runtime, no_metrics, file_passer, trigger_actor, actors, serve, exit_code, start,
  main,
}

module _ (env : Env) (re : Regexp) where
  open env use {World}

  one_off_alone :
      (ts : List (ConfiguredTrigger env re))
      → map (kind_of env re) ts ≡ of_one_off ∷ []
      → ts ≡ one_off_trigger ∷ []
  one_off_alone [] h = cc
  one_off_alone (one_off_trigger ∷ []) h = refl
  one_off_alone (resource_trigger t ∷ ts) h = cc
  one_off_alone (interval_trigger d ∷ ts) h = cc
  one_off_alone (database_trigger c cs t ∷ ts) h = cc
  one_off_alone (one_off_trigger ∷ t ∷ ts) h = cc

  -- The exit code for how a rollout ended, and what that left of the world.
  abbrev pub exits : Outcome (Unit {0}) × RolloutState env re → Outcome ℕ × World
  exits (ok _, (w, m)) = (ok 0, w)
  exits (err e, (w, m)) = (ok 1, w)
  exits (panic, (w, m)) = (panic, w)

  module _ (out : Outside env re) (rt : Runtime env re) (flags : Flags) where
    wired-one_off :
        (w w₁ : World) (wired : Wired env re)
        → flags.one_off ≡ true
        → start env re out flags w ≡ (ok wired, w₁)
        → wired.triggers ≡ one_off_trigger ∷ []
    wired-one_off w w₁ wired only started =
        let (cfg, w₀, _, wires) = >>=-eq-ok (client_config env re out flags) _ w started in
        let kinds = (wire-wired env re out flags cfg w₀ w₁ wired wires).0 in
        one_off_alone wired.triggers (rw only at kinds)

    -- The exit code and the world, for how the run group ended.
    abbrev codes : Outcome (Unit {0}) × RolloutState env re → Outcome ℕ × World
    codes (ok _, (w, m)) = (ok 0, w)
    codes (err e, (w, m)) = (ok 1, w)
    codes (panic, (w, m)) = (panic, w)

    coded :
        (r : Outcome (Unit {0}) × RolloutState env re)
        → (exit_code env re (codes r).0, (codes r).1) ≡ codes r
    coded (ok _, s) = refl
    coded (err e, s) = refl
    coded (panic, s) = refl

    serve-codes :
        (wired : Wired env re) (w₁ w₂ : World) (r : Outcome (Unit {0}) × RolloutState env re)
        → rt.listen w₁ ≡ (ok tt, w₂)
        → rt.run_group (actors env re rt wired) (w₂, no_metrics env re) ≡ r
        → serve env re rt wired w₁ ≡ codes r
    serve-codes wired w₁ w₂ (ok _, (w, m)) listening ran = rw (listening, ran)
    serve-codes wired w₁ w₂ (err e, (w, m)) listening ran = rw (listening, ran)
    serve-codes wired w₁ w₂ (panic, (w, m)) listening ran = rw (listening, ran)

    one_actor :
        (wired : Wired env re)
        → wired.triggers ≡ one_off_trigger ∷ []
        → actors env re rt wired
          ≡ rt.serve_http
            ∷ trigger_actor env re rt wired (some one_off_trigger)
            ∷ rt.until_signal
            ∷ []
    unfolding add_actors
    one_actor wired e =
        ap
          (λ ts.
            rt.serve_http
            ∷ (map (trigger_actor env re rt wired) (group_runs ts) ++ (rt.until_signal ∷ [])))
          e

    -- What the actor of the trigger does, by how its one execution ends.
    once-exits :
        (wired : Wired env re) (s : RolloutState env re)
        (r : Outcome (Unit {0}) × RolloutState env re)
        → pass_config env (RolloutState env re) (file_passer env re wired) none s ≡ r
        → codes (trigger_actor env re rt wired (some one_off_trigger) s) ≡ exits r
    unfolding execute_each
    once-exits wired s (ok _, (w, m)) ran = rw ran
    once-exits wired s (err e, (w, m)) ran = rw ran
    once-exits wired s (panic, (w, m)) ran = rw ran

    -- With --one-off, where Main wires its components and can listen, and the run group ends with
    -- the function of its trigger, the whole of Main is one execution behind the file of the
    -- configuration, of the runner that was wired, with new metrics: the exit code is 0 if that
    -- returns no error and 1 if it returns one, and a panic of it is a panic of Main.
    pub main-one_off :
        (w w₁ w₂ : World) (wired : Wired env re)
        → flags.one_off ≡ true
        → start env re out flags w ≡ (ok wired, w₁)
        → rt.listen w₁ ≡ (ok tt, w₂)
        → rt.run_group
            (rt.serve_http
              ∷ trigger_actor env re rt wired (some one_off_trigger)
              ∷ rt.until_signal
              ∷ [])
            (w₂, no_metrics env re)
          ≡ trigger_actor env re rt wired (some one_off_trigger) (w₂, no_metrics env re)
        → main env re out rt flags w
          ≡ exits (
              pass_config env
                (RolloutState env re)
                (file_passer env re wired)
                none
                (w₂, no_metrics env re))
    unfolding main
    main-one_off w w₁ w₂ wired only started listening group =
        let once = trigger_actor env re rt wired (some one_off_trigger) (w₂, no_metrics env re) in
        let ran : rt.run_group (actors env re rt wired) (w₂, no_metrics env re) ≡ once =
          ap (λ as'. rt.run_group as' (w₂, no_metrics env re))
            (one_actor wired (wired-one_off w w₁ wired only started))
          ∙ group in
        rw started (
          ap (λ x. (exit_code env re x.0, x.1)) (serve-codes wired w₁ w₂ once listening ran)
          ∙ coded once
          ∙ once-exits wired (w₂, no_metrics env re) _ refl)
