-- ===== src/Cli/Actors.antt =====
-- cli/cli.go: the loop of Main that adds each trigger to the run group.
use locutus.Prelude.{◌≡◌, refl, ap, ◌∙◌, Option, none, some, List, [], ◌∷◌, map}
use mathlib.Core.Option
use locutus.Outcome.{ok}
use locutus.Env.{Env, RestConfig}
use locutus.Cli.{Flags, Outside, Wired, wire}
use locutus.Cli.Kinds.{kind_of, asked_for}
use locutus.Cli.Wiring.{wire-wired}
use locutus.Trigger.Resource.{Regexp}

-- The module is of Go 1.18, where one variable serves the whole loop, and the function that is
-- added for a trigger reads it when it runs. The result is what the variable holds behind the loop,
-- and the functions.
unfoldable pub add_actors : {A : Type 0} → List A → Option A → Option A × List (Option A → Option A)
add_actors [] trigger = (trigger, [])
add_actors (t ∷ ts) trigger =
    let (trigger', actors) = add_actors ts (some t) in (trigger', (λ x. x) ∷ actors)

-- The trigger that each function of the group runs.
abbrev pub group_runs : {A : Type 0} → List A → List (Option A)
group_runs triggers =
    let (trigger, actors) = add_actors triggers none in map (λ actor. actor trigger) actors

abbrev pub last_or : {A : Type 0} → Option A → List A → Option A
last_or o [] = o
last_or o (a ∷ as') = last_or (some a) as'

add_actors-last_or : {A : Type 0} (ts : List A) (o : Option A) → (add_actors ts o).0 ≡ last_or o ts
unfolding add_actors
add_actors-last_or [] o = refl
add_actors-last_or (t ∷ ts) o = add_actors-last_or ts (some t)

add_actors-map :
    {A B : Type 0} (f : Option A → B) (x : Option A) (ts : List A) (o : Option A)
    → map f (map (λ actor. actor x) (add_actors ts o).1) ≡ map (λ _. f x) ts
unfolding add_actors
add_actors-map f x [] o = refl
add_actors-map f x (t ∷ ts) o = ap (λ l. f x ∷ l) (add_actors-map f x ts (some t))

last_or-map :
    {A B : Type 0} (f : A → B) (o : Option A) (ts : List A)
    → Option.map f (last_or o ts) ≡ last_or (Option.map f o) (map f ts)
last_or-map f o [] = refl
last_or-map f o (t ∷ ts) = last_or-map f (some t) ts

map-constant :
    {A B C : Type 0} (f : A → B) (c : C) (ts : List A) → map (λ _. c) ts ≡ map (λ _. c) (map f ts)
map-constant f c [] = refl
map-constant f c (t ∷ ts) = ap (λ l. c ∷ l) (map-constant f c ts)

group_runs-last :
    {A B : Type 0} (f : A → B) (ts : List A)
    → map (Option.map f) (group_runs ts) ≡ map (λ _. last_or none (map f ts)) (map f ts)
group_runs-last f ts =
    add_actors-map (Option.map f) (add_actors ts none).0 ts none
    ∙ ap (λ o. map (λ _. o) ts)
        (ap (Option.map f) (add_actors-last_or ts none) ∙ last_or-map f none ts)
    ∙ map-constant f (last_or none (map f ts)) ts

-- Where Main gets as far as adding its triggers to the run group, the group gets one function for
-- each trigger that the flags ask for, and every one of them runs the last of those: Main puts a
-- trigger of the database behind one of the interval, and that behind one of resources. So of
-- several triggers only the last one ever runs.
pub wire-group_runs :
    (env : Env) (re : Regexp) (out : Outside env re) (flags : Flags) (cfg : RestConfig)
    (w w' : env.World) (wired : Wired env re)
    → wire env re out flags cfg w ≡ (ok wired, w')
    → map (Option.map (kind_of env re)) (group_runs wired.triggers)
      ≡ map (λ _. last_or none (asked_for flags)) (asked_for flags)
wire-group_runs env re out flags cfg w w' wired h =
    let kinds = (wire-wired env re out flags cfg w w' wired h).0 in
    group_runs-last (kind_of env re) wired.triggers ∙ ap (λ ks. map (λ _. last_or none ks) ks) kinds
