-- ===== src/Rollout/Runner/Objects.antt =====
-- rollout/rollout.go: executing an action on an object, and on each item of a list object.
use locutus.Prelude.{ℕ, zero, suc, String, Option, none, some, List, [], ◌∷◌, map}
use locutus.Outcome.{text, external, Outcome, ok, err, panic, throw, ◌>>=◌}
use locutus.Maps.{Assoc, lookup}
use locutus.Env.{Env}
use locutus.Client.{Client, client_for_unstructured, on_world, this}
use locutus.Rollout.Actions.{Act, ObjectAction}

module _ (env : Env) where
  open env use {World, Obj, items, set_items, depth}

  abbrev pub Actions : Type 0
  Actions = Assoc (ObjectAction env)

  unfoldable pub execute_single_action : Client env → Actions → String → Act env
  execute_single_action client actions action_name = elim (lookup action_name actions) [
    | none ↦
        throw (
          text "unknown action %q: available actions are %v" (action_name ∷ map (λ p. p.0) actions))
    | some action ↦ do
      u ← this env
      rc ← on_world env (client_for_unstructured env client u)
      action.execute rc
  ]

  abbrev pub put_back :
      Option Obj
      → Outcome (Unit {0}) × (World × List (Option Obj))
      → Outcome (Unit {0}) × (World × List (Option Obj))
  put_back x (o, (w, xs)) = (o, (w, x ∷ xs))

  abbrev pub then_items :
      List (Option Obj)
      → (World → Outcome (Unit {0}) × (World × List (Option Obj)))
      → Outcome (Unit {0}) × (World × Obj)
      → Outcome (Unit {0}) × (World × List (Option Obj))
  then_items xs rest (ok _, (w, x)) = put_back (some x) (rest w)
  then_items xs rest (err e, (w, x)) = (err e, (w, some x ∷ xs))
  then_items xs rest (panic, (w, x)) = (panic, (w, some x ∷ xs))

  -- EachListItem: it stops at the first error, and at an item that is no object.
  unfoldable pub each_list_item :
      Act env → List (Option Obj) → World → Outcome (Unit {0}) × (World × List (Option Obj))
  each_list_item f [] w = (ok tt, (w, []))
  each_list_item f (none ∷ xs) w = (err (external "items member is not an object"), (w, none ∷ xs))
  each_list_item f (some x ∷ xs) w = then_items xs (each_list_item f xs) (f (w, x))

  abbrev pub in_list :
      Obj → Outcome (Unit {0}) × (World × List (Option Obj)) → Outcome (Unit {0}) × (World × Obj)
  in_list u (o, (w, xs)) = (o, (w, set_items u xs))

  -- executeAction goes down into lists of lists; on fuel, and without any left it overflows the
  -- stack.
  unfoldable pub execute_action_on : ℕ → Client env → Actions → String → Act env
  unfolding each_list_item
  execute_action_on zero client actions action_name s = (panic, s)
  execute_action_on (suc fuel) client actions action_name (w, u) = elim (items u) [
    | none ↦ execute_single_action client actions action_name (w, u)
    | some xs ↦ in_list u (each_list_item (execute_action_on fuel client actions action_name) xs w)
  ]

  -- The fuel is above the nesting of the object.
  unfoldable pub execute_action : Client env → Actions → String → Act env
  execute_action client actions action_name (w, u) =
      execute_action_on (suc (depth u)) client actions action_name (w, u)
