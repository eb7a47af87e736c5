-- ===== src/Rollout/Actions.antt =====
-- rollout/actions.go: what the steps of a rollout can do to an object. The object at hand is
-- `unstructured`.
pub mod Effects
use locutus.Prelude.{String, Bool, true, false, Option, List, [], ◌∷◌, if◌then◌else◌}
use locutus.Outcome.{Error, Outcome, ok, err, panic, M, pure, throw, attempt, ◌>>=◌, ◌>>◌}
use locutus.Maps.{Assoc, insert}
use locutus.Env.{Env, foreground}
use locutus.Client.{ResourceClient, on_world, this, update_with_current}

module _ (env : Env) where
  open env use {World, Obj, name, get, create, delete, is_not_found}

  -- An action on the object at hand.
  abbrev pub Act : Type 0
  Act = M (World × Obj) (Unit {0})

  pub record ObjectAction : Type 0 where
    pub action_name : String
    pub execute : ResourceClient env → Act

  -- `_, err := …; return err`
  abbrev pub discard : {A : Type 0} → M (World × Obj) A → Act
  discard m = m >>= λ _. pure tt

  abbrev pub create_it : ResourceClient env → Act
  create_it rc = do u ← this env; discard (on_world env (create rc.endpoint u))

  -- the error of the Get or of the Delete, after which an absent object is dealt with by `f`
  abbrev pub if_not_found : Act → Error → Act
  if_not_found f e = if is_not_found e then f else throw e

  unfoldable pub create_or_update : ResourceClient env → Act
  create_or_update rc = do
    u ← this env
    attempt (on_world env (get rc.endpoint (name u)))
        (λ current. discard (update_with_current env rc current)) (if_not_found (create_it rc))

  unfoldable pub create_if_not_exist : ResourceClient env → Act
  create_if_not_exist rc = do
    u ← this env
    attempt (on_world env (get rc.endpoint (name u))) (λ _. pure tt) (if_not_found (create_it rc))

  unfoldable pub delete_if_exists : ResourceClient env → Act
  delete_if_exists rc = do
    u ← this env
    attempt (on_world env (delete foreground rc.endpoint (name u))) (λ _. pure tt)
        (if_not_found (pure tt))

  abbrev pub default_object_actions : List ObjectAction
  default_object_actions =
      record { action_name = "CreateOrUpdate"; execute = create_or_update }
      ∷ record { action_name = "CreateIfNotExist"; execute = create_if_not_exist }
      ∷ record { action_name = "DeleteIfExist"; execute = delete_if_exists }
      ∷ []

  -- r.actions, by name; of two actions with one name the later one stays
  unfoldable pub set_object_actions : List ObjectAction → Assoc ObjectAction → Assoc ObjectAction
  set_object_actions [] known = known
  set_object_actions (a ∷ as') known = set_object_actions as' (insert a.action_name a known)
