-- ===== src/Trigger/Passing.antt =====
-- The order of executions under trigger/trigger.go, and the errors that
-- trigger/interval/interval.go passes over.
use locutus.Trigger.{
  Execution, ExecutionRegister, register, execute_each, execute_registered, run_interval,
}
use locutus.Prelude.{ℕ, zero, suc, ◌≡◌, ◌≢◌, refl, ◌∙◌, Option, none, List, [], ◌∷◌, ◌++◌}
use locutus.Outcome.{Outcome, ok, err, panic, M, pure, and_then, resume, ◌>>◌}

module _ {W : Type 0} where
  then_done : (o : Outcome (Unit {0})) (w : W) → and_then o (λ _. pure tt) w ≡ (o, w)
  then_done (ok _) w = refl
  then_done (err _) w = refl
  then_done panic w = refl

  -- The rest of a chain of calls may be changed for one that does the same.
  then_same :
      (o : Outcome (Unit {0})) (w : W) (m n : M W (Unit {0}))
      → ((w' : W) → m w' ≡ n w')
      → and_then o (λ _. m) w ≡ and_then o (λ _. n) w
  then_same (ok _) w m n h = h w
  then_same (err _) w m n h = refl
  then_same panic w m n h = refl

  then_assoc :
      (o : Outcome (Unit {0})) (w : W) (m n : M W (Unit {0}))
      → and_then o (λ _. m >> n) w
        ≡ and_then (and_then o (λ _. m) w).0 (λ _. n) (and_then o (λ _. m) w).1
  then_assoc (ok _) w m n = refl
  then_assoc (err _) w m n = refl
  then_assoc panic w m n = refl

-- What a number of ticks makes of the state.
abbrev pub ticked : {W : Type 0} → (W → W) → ℕ → W → W
ticked f zero w = w
ticked f (suc n) w = ticked f n (f w)

module _ (W C : Type 0) where
  execute_each-append :
      (es : List (Execution W C)) (e : Execution W C) (config : Option C) (w : W)
      → execute_each W C (es ++ (e ∷ [])) config w ≡ (execute_each W C es config >> e config) w
  unfolding execute_each
  execute_each-append [] e config w = then_done (e config w).0 (e config w).1
  execute_each-append (d ∷ es) e config w =
      then_same (d config w).0 (d config w).1 (execute_each W C (es ++ (e ∷ [])) config)
        (execute_each W C es config >> e config) (execute_each-append es e config)
      ∙ then_assoc (d config w).0 (d config w).1 (execute_each W C es config) (e config)

  -- After one more execution is registered, Execute does what it did before, and then, if that
  -- returned no error, the new execution.
  register-execute :
      (r : ExecutionRegister W C) (e : Execution W C) (config : Option C) (w : W)
      → execute_registered W C (register W C r e) config w
        ≡ (execute_registered W C r config >> e config) w
  register-execute r e config w = execute_each-append r.executions e config w

  resumed :
      (o : Outcome (Unit {0})) (w : W) (m : M W (Unit {0}))
      → o ≢ panic
      → resume o (λ _. m) (λ _. m) w ≡ m w
  resumed (ok _) w m h = refl
  resumed (err _) w m h = refl
  resumed panic w m h = absurd (h refl)

  -- Where no execution panics, the interval trigger executes at each of its ticks, whatever errors
  -- the executions before returned, and returns no error when its context is done.
  pub run_interval-ticked :
      (n : ℕ) (r : ExecutionRegister W C) (w : W)
      → ((w' : W) → (execute_registered W C r none w').0 ≢ panic)
      → run_interval W C n r w ≡ (ok tt, ticked (λ w'. (execute_registered W C r none w').1) n w)
  unfolding run_interval
  run_interval-ticked zero r w h = refl
  run_interval-ticked (suc n) r w h =
      resumed (execute_registered W C r none w).0 (execute_registered W C r none w).1
        (run_interval W C n r) (h w)
      ∙ run_interval-ticked n r (execute_registered W C r none w).1 h
