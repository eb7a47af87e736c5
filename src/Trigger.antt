-- ===== src/Trigger.antt =====
-- trigger/trigger.go, trigger/oneoff/oneoff.go and trigger/interval/interval.go: what a trigger
-- executes, and the two triggers that need nothing but time.
pub mod Passing
pub mod Database
pub mod Resource
use locutus.Prelude.{ℕ, zero, suc, Option, none, List, [], ◌∷◌, ◌++◌}
use locutus.Outcome.{M, pure, attempt, ◌>>◌}

-- `W` is the state that an execution works on, and `C` what *rollout.Config points to.
module _ (W C : Type 0) where
  abbrev pub Execution : Type 0
  Execution = Option C → M W (Unit {0})

  pub record ExecutionRegister : Type 0 where
    pub executions : List Execution

  abbrev pub register : ExecutionRegister → Execution → ExecutionRegister
  register r execution = record { executions = r.executions ++ (execution ∷ []) }

  -- the loop of Execute
  unfoldable pub execute_each : List Execution → Option C → M W (Unit {0})
  execute_each [] config = pure tt
  execute_each (e ∷ executions) config = e config >> execute_each executions config

  abbrev pub execute_registered : ExecutionRegister → Execution
  execute_registered r = execute_each r.executions

  -- Run of the one-off trigger
  abbrev pub run_once : ExecutionRegister → M W (Unit {0})
  run_once r = execute_registered r none

  -- Run of the interval trigger, for the number of ticks before its context is done; an error is
  -- logged.
  unfoldable pub run_interval : ℕ → ExecutionRegister → M W (Unit {0})
  run_interval zero r = pure tt
  run_interval (suc ticks) r =
      attempt (execute_registered r none) (λ _. run_interval ticks r) (λ _. run_interval ticks r)
