-- ===== src/Rollout/Checks/Registry.antt =====
-- NewChecks of rollout/checks/checks.go: which checks are known afterwards.
use locutus.Prelude.{
  ◌≡◌, subst, inl, inr, Option, none, some, List, [], ◌∷◌, All, ◌==◌, eq_iff, ==_refl, Bool-cases,
  Option-cases,
}
use locutus.Outcome.{ok, chain-eq-ok}
use locutus.Maps.{Assoc, lookup, insert, lookup-insert}
use locutus.Env.{Env}
use locutus.Db.{Connections}
use locutus.Client.{Client}
use locutus.Rollout.Checks.Runner.{Check, Checks, register_checks, new_checks}

module _ (env : Env) where
  abbrev pub Known : Assoc (Check env) → Check env → Type 0
  Known known c = lookup c.check_name known ≡ some c

  register_checks-kept :
      (cs : List (Check env)) (known known' : Assoc (Check env)) (c : Check env)
      → register_checks env cs known ≡ ok known'
      → Known known c
      → Known known' c
  unfolding register_checks
  register_checks-kept [] known known' c h k =
      let same : known ≡ known' = cc in subst (λ m. Known m c) same k
  register_checks-kept (d ∷ cs) known known' c h k =
      elim (Option-cases (lookup d.check_name known)) [
        | inl free ↦
            register_checks-kept cs (insert d.check_name d known) known' c (rw free at h)
              (kept free)
        | inr (old, taken) ↦ absurd (cc (rw taken at h))
      ]
    where
      kept : lookup d.check_name known ≡ none → Known (insert d.check_name d known) c
      kept free = elim (Bool-cases (d.check_name == c.check_name)) [
        | inl same ↦ absurd (cc (free, k, (eq_iff d.check_name c.check_name).0 same))
        | inr other ↦ rw (lookup-insert d.check_name c.check_name d known, other) k
      ]

  register_checks-Known :
      (cs : List (Check env)) (known known' : Assoc (Check env))
      → register_checks env cs known ≡ ok known'
      → All (Known known') cs
  unfolding register_checks
  register_checks-Known [] known known' h = tt
  register_checks-Known (d ∷ cs) known known' h = elim (Option-cases (lookup d.check_name known)) [
    | inl free ↦
        let h' = rw free at h in
        (
          register_checks-kept cs (insert d.check_name d known) known' d h'
              (rw (lookup-insert d.check_name d.check_name d known, ==_refl d.check_name)),
          register_checks-Known cs (insert d.check_name d known) known' h',
        )
    | inr (old, taken) ↦ absurd (cc (rw taken at h))
  ]

  -- Where NewChecks returns no error, each of the checks that it was given is known under its own
  -- name.
  new_checks-Known :
      (client : Client env) (dbs : Option Connections) (cs : List (Check env)) (c : Checks env)
      → new_checks env client dbs cs ≡ ok c
      → All (Known c.known_checks) cs
  unfolding new_checks
  new_checks-Known client dbs cs c h =
      let (known, registered, rest) = chain-eq-ok (register_checks env cs []) _ h in
      let same : known ≡ c.known_checks = cc in
      subst (λ m. All (Known m) cs) same (register_checks-Known cs [] known registered)
