-- ===== src/Trigger/Database.antt =====
-- trigger/database/database.go: the runs that the rows of a query start, and when they are
-- forgotten. Go's `activeTriggers` holds pointers to runs; here it holds their places in `runs`,
-- the list of all runs ever started.
pub mod Named
pub mod Safety
pub mod Places
pub mod Keys
pub mod Hex
pub mod Query
pub mod Running
pub mod Growing
use locutus.Prelude.{
  ℕ, zero, suc, ◌+◌, String, Bool, true, false, Option, none, some, List, [], ◌∷◌, ◌++◌, ◌==◌,
  is_some, if◌then◌else◌,
}
use locutus.Outcome.{
  Error, text, wrap, Outcome, ok, err, panic, chain, M, pure, throw, crash, lift, wrapping, ◌>>=◌,
  ◌>>◌,
}
use locutus.Maps.{Assoc, lookup, insert, remove}
use locutus.Db.{Connection, Connections, CockroachClient, type_cockroachdb}

pub record TriggerConfig : Type 0 where
  pub name : String
  pub database_name : String
  pub query : String
  pub key : String
  pub groups_rows_to_array : Bool

-- Of a run, what its execution needs and what `Done` reads.
pub record TriggerRun : Type 0 where
  pub key : String
  pub payload : String
  pub done : Bool

pub record TriggerRunner : Type 0 where
  pub active_triggers : Assoc (Assoc ℕ)
  pub runs : List TriggerRun

abbrev pub count : List TriggerRun → ℕ
count [] = 0
count (r ∷ rs) = suc (count rs)

-- the loop of NewTrigger over its configuration
unfoldable pub name_triggers : List TriggerConfig → Assoc (Assoc ℕ) → Assoc (Assoc ℕ)
name_triggers [] active = active
name_triggers (c ∷ cs) active = name_triggers cs (insert c.name [] active)

abbrev pub new_trigger : List TriggerConfig → TriggerRunner
new_trigger configs = record { active_triggers = name_triggers configs []; runs = [] }

-- TriggerRun.Done, of the run at a place
unfoldable pub is_done : ℕ → List TriggerRun → Bool
is_done _ [] = false
is_done zero (r ∷ rs) = r.done
is_done (suc n) (r ∷ rs) = is_done n rs

unfoldable pub run_at : ℕ → List TriggerRun → Option TriggerRun
run_at _ [] = none
run_at zero (r ∷ rs) = some r
run_at (suc n) (r ∷ rs) = run_at n rs

-- The end of TriggerRun.Run, which runs beside the trigger.
unfoldable pub set_done : ℕ → List TriggerRun → List TriggerRun
set_done _ [] = []
set_done zero (r ∷ rs) = record r { done = true } ∷ rs
set_done (suc n) (r ∷ rs) = r ∷ set_done n rs

abbrev pub finish_run : ℕ → TriggerRunner → TriggerRunner
finish_run n t = record t { runs = set_done n t.runs }

-- The first loop of checkTrigger. As in the source, the entry that goes is the one that the outer
-- map has under the run's key.
unfoldable pub forget_done : Assoc ℕ → List TriggerRun → Assoc (Assoc ℕ) → Assoc (Assoc ℕ)
forget_done [] runs active = active
forget_done ((key, n) ∷ others) runs active =
    forget_done others runs (if is_done n runs then remove key active else active)

-- Reading an absent entry gives a nil map, which has no entries.
abbrev pub or_nothing : Option (Assoc ℕ) → Assoc ℕ
or_nothing none = []
or_nothing (some m) = m

abbrev pub runs_of : String → Assoc (Assoc ℕ) → Assoc ℕ
runs_of name active = or_nothing (lookup name active)

unfoldable pub clean_up : String → TriggerRunner → TriggerRunner
clean_up name t = record t {
  active_triggers = forget_done (runs_of name t.active_triggers) t.runs t.active_triggers;
}

abbrev pub start_run : String → String → String → Assoc ℕ → TriggerRunner → TriggerRunner
start_run trigger_name key payload of_trigger t = record {
  active_triggers = insert trigger_name (insert key (count t.runs) of_trigger) t.active_triggers;
  runs = t.runs ++ (record { key = key; payload = payload; done = false } ∷ []);
}

-- An assignment to an entry of a nil map panics.
unfoldable pub schedule_trigger_run : String → String → String → M TriggerRunner (Unit {0})
schedule_trigger_run trigger_name key payload t =
    if is_some (lookup key t.active_triggers)
    then (ok tt, t)
    else elim (lookup trigger_name t.active_triggers) [
      | none ↦ (panic, t)
      | some of_trigger ↦ (ok tt, start_run trigger_name key payload of_trigger t)
    ]
