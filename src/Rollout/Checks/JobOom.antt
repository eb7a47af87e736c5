-- ===== src/Rollout/Checks/JobOom.antt =====
-- rollout/checks/job_oom.go: the failure check for jobs with a pod that ran out of memory.
use Prim.Native.String.{◌++◌}
use mathlib.Core.List.{Memᴰ}
use locutus.Prelude.{
  String, Bool, true, false, ◌≡◌, refl, sym, ap, ◌⊎◌, Option, none, some, List, [], ◌∷◌, ◌==◌,
  eq_iff, if◌then◌else◌, arith, Bool-cases, inl, inr,
}
use locutus.Outcome.{
  Error, wrap, oom_killed, not_a_job, Outcome, ok, err, M, throw, lift, wrapping, is_oom_killed,
  ◌>>=◌,
}
use locutus.Env.{Env, Pod}
use locutus.Client.{Client}
use locutus.Rollout.Checks.Runner.{Check}

abbrev pub oom_error : Pod → Error
oom_error pod = wrap "pod %s/%s was OOMKilled: %w" (pod.namespace ∷ pod.name ∷ []) oom_killed

-- the inner loop: whether a container of the pod was terminated for this reason
unfoldable pub was_killed : List (Option String) → Bool
was_killed [] = false
was_killed (none ∷ rest) = was_killed rest
was_killed (some reason ∷ rest) = if reason == "OOMKilled" then true else was_killed rest

-- the outer loop, which returns at the first such pod
unfoldable pub look_for_killed : List Pod → Outcome (Unit {0})
unfolding was_killed
look_for_killed [] = ok tt
look_for_killed (pod ∷ pods) =
    if was_killed pod.terminated then err (oom_error pod) else look_for_killed pods

module _ (env : Env) where
  open env use {World, Obj, kind, name, namespace, list_pods}

  unfoldable pub job_oom_execute : Client env → Obj → M World (Unit {0})
  job_oom_execute client u =
      if kind u == "Job"
      then (wrapping (wrap "listing pods" []) (list_pods (namespace u) ("job-name=" ++ name u))
          >>= (λ pods. lift (look_for_killed pods)))
      else throw not_a_job

  abbrev pub job_oom_killed_check : Check env
  job_oom_killed_check = record {
    check_name = "JobOOMKilled";
    execute = job_oom_execute;
    is_failed_error = is_oom_killed;
  }

  abbrev pub default_checks : List (Check env)
  default_checks = job_oom_killed_check ∷ []

-- Some container of some pod of the list was terminated because it ran out of memory.
abbrev pub Killed : List Pod → Type 0
Killed pods = (p : Pod) × Memᴰ p pods × Memᴰ (some "OOMKilled") p.terminated

was_killed_complete : (l : List (Option String)) → Memᴰ (some "OOMKilled") l → was_killed l ≡ true
unfolding was_killed
was_killed_complete [] m = elim m [ ]
was_killed_complete (none ∷ l) (Memᴰ.head e) = cc
was_killed_complete (some r ∷ l) (Memᴰ.head e) = ground (arith, eq_iff r "OOMKilled")
was_killed_complete (none ∷ l) (Memᴰ.tail m) = was_killed_complete l m
was_killed_complete (some r ∷ l) (Memᴰ.tail m) = ground (arith, was_killed_complete l m)

was_killed_sound : (l : List (Option String)) → was_killed l ≡ true → Memᴰ (some "OOMKilled") l
unfolding was_killed
was_killed_sound [] h = cc
was_killed_sound (none ∷ l) h = Memᴰ.tail (was_killed_sound l h)
was_killed_sound (some r ∷ l) h = elim (Bool-cases (r == "OOMKilled")) [
  | inl e ↦ Memᴰ.head (ap some (sym ((eq_iff r "OOMKilled").0 e)))
  | inr e ↦ Memᴰ.tail (was_killed_sound l (rw e at h))
]

look_for_killed_complete :
    (pods : List Pod) (p : Pod)
    → Memᴰ p pods
    → was_killed p.terminated ≡ true
    → (q : Pod) × (look_for_killed pods ≡ err (oom_error q))
unfolding look_for_killed
look_for_killed_complete [] q m h = elim m [ ]
look_for_killed_complete (p ∷ pods) q m h = elim (Bool-cases (was_killed p.terminated)) [
  | inl k ↦ (p, rw k)
  | inr k ↦ let (r, e) = look_for_killed_complete pods q (rest m k) h in (r, rw k e)
]
  where
    rest : Memᴰ q (p ∷ pods) → was_killed p.terminated ≡ false → Memᴰ q pods
    rest (Memᴰ.head e) k = cc (ap (λ (x : Pod). was_killed x.terminated) e)
    rest (Memᴰ.tail m) k = m

look_for_killed_sound : (pods : List Pod) → (look_for_killed pods ≡ ok tt) ⊎ Killed pods
unfolding look_for_killed
look_for_killed_sound [] = inl refl
look_for_killed_sound (p ∷ pods) = elim (Bool-cases (was_killed p.terminated)) [
  | inl k ↦ inr (p, Memᴰ.head refl, was_killed_sound p.terminated k)
  | inr k ↦ elim (look_for_killed_sound pods) [
    | inl e ↦ inl (rw k e)
    | inr (q, m, t) ↦ inr (q, Memᴰ.tail m, t)
  ]
]

module _ (env : Env) where
  open env use {World, Obj, kind, name, namespace, list_pods}

  -- For a Job whose pods were listed, the check fails exactly when some container of a pod was
  -- terminated with the reason OOMKilled, and then with an error that IsFailedError recognises;
  -- otherwise it passes.
  pub job_oom_execute-Killed :
      (client : Client env) (u : Obj) (w w' : World) (pods : List Pod)
      → kind u ≡ "Job"
      → list_pods (namespace u) ("job-name=" ++ name u) w ≡ (ok pods, w')
      → (Killed pods
          → (e : Error) × (job_oom_execute env client u w ≡ (err e, w')) × (is_oom_killed e ≡ true))
        × (¬ Killed pods → job_oom_execute env client u w ≡ (ok tt, w'))
  unfolding job_oom_execute
  job_oom_execute-Killed client u w w' pods k listed = (
    λ (p, m, t).
        let (q, e) = look_for_killed_complete pods p m (was_killed_complete p.terminated t) in
        (oom_error q, rw (k, listed, e), unfold is_oom_killed in refl),
    λ fine. elim (look_for_killed_sound pods) [
      | inl e ↦ rw (k, listed, e)
      | inr killed ↦ absurd (fine killed)
    ],
  )
