-- ===== src/Rollout/Runs/Nesting.antt =====
-- Lists of lists under executeAction of rollout/rollout.go.
use locutus.Prelude.{
  ℕ, zero, suc, ◌<◌, String, ◌≡◌, ◌≢◌, ◌⊎◌, refl, sym, ap, ◌∙◌, Option, none, some, List, [], ◌∷◌,
  All, arith, Option-cases, inl, inr,
}
use locutus.Outcome.{Error, Outcome, ok, err, panic}
use locutus.Env.{Env}
use locutus.Client.{Client}
use locutus.Rollout.Actions.{Act}
use locutus.Rollout.Runner.{
  Actions, then_items, in_list, each_list_item, execute_single_action, execute_action_on,
  execute_action,
}

module _ (env : Env) where
  open env use {World, Obj, items, set_items, depth}

  abbrev pub Below : ℕ → Option Obj → Type 0
  Below n none = Unit
  Below n (some x) = depth x < n

  -- The items of a list object are less deep than it: JSON documents are finite.
  pub record Finite : Type 0 where
    pub items_below :
        (u : Obj) (xs : List (Option Obj)) → items u ≡ some xs → All (Below (depth u)) xs

  then_items_cong :
      (xs : List (Option Obj)) (f g : World → Outcome (Unit {0}) × (World × List (Option Obj)))
      (r : Outcome (Unit {0}) × (World × Obj))
      → ((w : World) → f w ≡ g w)
      → then_items env xs f r ≡ then_items env xs g r
  then_items_cong xs f g (ok _, (w, x)) h = rw (h w)
  then_items_cong xs f g (err e, (w, x)) h = refl
  then_items_cong xs f g (panic, (w, x)) h = refl

  each_cong :
      (f g : Act env) (n : ℕ) (xs : List (Option Obj)) (w : World)
      → ((x : Obj) (w : World) → depth x < n → f (w, x) ≡ g (w, x))
      → All (Below n) xs
      → each_list_item env f xs w ≡ each_list_item env g xs w
  unfolding each_list_item
  each_cong f g n [] w h below = refl
  each_cong f g n (none ∷ xs) w h below = refl
  each_cong f g n (some x ∷ xs) w h below = rw (h x w below.0) (
      then_items_cong xs (each_list_item env f xs) (each_list_item env g xs) (g (w, x))
        (λ w'. each_cong f g n xs w' h below.1))

  -- The action went over the items in order, each on the world that the one before left, and stopped
  -- at the first item at which it did not succeed, or that is no object; the items behind it are as
  -- they were.
  abbrev pub Walks :
      Act env
      → List (Option Obj)
      → World
      → Outcome (Unit {0}) × (World × List (Option Obj))
      → Type 0
  Walks f [] w r = r ≡ (ok tt, (w, []))
  Walks f (none ∷ xs) w r = (e : Error) × (r ≡ (err e, (w, none ∷ xs)))
  Walks f (some x ∷ xs) w r =
      ((w₁ : World) × (x₁ : Obj) × (o : Outcome (Unit {0})) × (w' : World) × (xs' : List
          (Option Obj))
        × (f (w, x) ≡ (ok tt, (w₁, x₁)))
        × (r ≡ (o, (w', some x₁ ∷ xs')))
        × Walks f xs w₁ (o, (w', xs')))
      ⊎ ((o : Outcome (Unit {0})) × (w' : World) × (x₁ : Obj) × (f (w, x) ≡ (o, (w', x₁)))
          × (o ≢ ok tt)
          × (r ≡ (o, (w', some x₁ ∷ xs))))

  each_list_item-Walks :
      (f : Act env) (xs : List (Option Obj)) (w : World) → Walks f xs w (each_list_item env f xs w)
  unfolding each_list_item
  each_list_item-Walks f [] w = refl
  each_list_item-Walks f (none ∷ xs) w = (_, refl)
  each_list_item-Walks f (some x ∷ xs) w = go (f (w, x)) refl (each_list_item-Walks f xs)
    where
      go :
          (r : Outcome (Unit {0}) × (World × Obj))
          → f (w, x) ≡ r
          → ((w : World) → Walks f xs w (each_list_item env f xs w))
          → Walks f (some x ∷ xs) w (then_items env xs (each_list_item env f xs) r)
      go (ok _, (w₁, x₁)) e ih =
          let (o, (w', xs')) = each_list_item env f xs w₁ in
          inl (w₁, x₁, o, w', xs', e, refl, ih w₁)
      go (err x', (w₁, x₁)) e ih = inr (err x', w₁, x₁, e, (λ h. cc), refl)
      go (panic, (w₁, x₁)) e ih = inr (panic, w₁, x₁, e, (λ h. cc), refl)

  module _ (client : Client env) (actions : Actions env) (a : String) where
    single_object :
        (n : ℕ) (u : Obj) (w : World)
        → items u ≡ none
        → execute_action_on env (suc n) client actions a (w, u)
          ≡ execute_single_action env client actions a (w, u)
    unfolding execute_action_on
    single_object n u w e = rw (e, execute_action_on)

    list_object :
        (n : ℕ) (u : Obj) (xs : List (Option Obj)) (w : World)
        → items u ≡ some xs
        → execute_action_on env (suc n) client actions a (w, u)
          ≡ in_list env u (each_list_item env (execute_action_on env n client actions a) xs w)
    unfolding execute_action_on
    list_object n u xs w e = rw (e, execute_action_on)

    on_fuel :
        (finite : Finite) (n m : ℕ) (u : Obj) (w : World)
        → depth u < n
        → depth u < m
        → execute_action_on env n client actions a (w, u)
          ≡ execute_action_on env m client actions a (w, u)
    on_fuel finite zero m u w p q = elim p [ ]
    on_fuel finite (suc n) zero u w p q = elim q [ ]
    on_fuel finite (suc n) (suc m) u w p q = elim (Option-cases (items u)) [
      | inl e ↦ single_object n u w e ∙ sym (single_object m u w e)
      | inr (xs, e) ↦
          list_object n u xs w e
          ∙ ap (in_list env u) (
              each_cong (execute_action_on env n client actions a)
                (execute_action_on env m client actions a) (depth u) xs w
                (λ x w' below. on_fuel finite n m x w' (omega arith) (omega arith))
                (finite.items_below u xs e))
          ∙ sym (list_object m u xs w e)
    ]

    execute_action-each :
        (finite : Finite) (u : Obj) (w : World)
        → execute_action env client actions a (w, u) ≡ elim (items u) [
          | none ↦ execute_single_action env client actions a (w, u)
          | some xs ↦ in_list env u (each_list_item env (execute_action env client actions a) xs w)
        ]
    unfolding execute_action
    execute_action-each finite u w = elim (Option-cases (items u)) [
      | inl e ↦ rw e (single_object (depth u) u w e)
      | inr (xs, e) ↦ rw e (
          list_object (depth u) u xs w e
          ∙ ap (in_list env u) (
              each_cong (execute_action_on env (depth u) client actions a)
                (execute_action env client actions a) (depth u) xs w
                (λ x w' below. on_fuel finite (depth u) (suc (depth x)) x w' below (omega arith))
                (finite.items_below u xs e)))
    ]

    -- Where the items of a list object nest less deep than it, executeAction does to an object that
    -- is no list what executeSingleAction does. On a list it acts on the items in order, each on
    -- the world that the one before left, and stops at the first at which it does not succeed, or
    -- that is no object; the items behind that stay as they were. That holds however deep the lists
    -- nest.
    pub execute_action-items :
        (finite : Finite) (u : Obj) (w : World)
        → ((items u ≡ none)
            × (execute_action env client actions a (w, u)
                ≡ execute_single_action env client actions a (w, u)))
          ⊎ ((xs : List (Option Obj)) × (o : Outcome (Unit {0})) × (w' : World) × (xs' : List
                (Option Obj))
              × (items u ≡ some xs)
              × (execute_action env client actions a (w, u) ≡ (o, (w', set_items u xs')))
              × Walks (execute_action env client actions a) xs w (o, (w', xs')))
    execute_action-items finite u w = elim (Option-cases (items u)) [
      | inl e ↦ let run = execute_action-each finite u w in inl (e, rw e at run)
      | inr (xs, e) ↦
          let run = execute_action-each finite u w in
          let (o, (w', xs')) = each_list_item env (execute_action env client actions a) xs w in
          inr (
            xs,
            o,
            w',
            xs',
            e,
            rw e at run,
            each_list_item-Walks (execute_action env client actions a) xs w,
          )
    ]
