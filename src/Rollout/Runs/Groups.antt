-- ===== src/Rollout/Runs/Groups.antt =====
-- The feedback of an Execute of rollout/rollout.go.
use locutus.Prelude.{
  String, Bool, true, false, ◌||◌, ◌≡◌, refl, sym, ap, ◌∙◌, subst, Option, some, List, [], ◌∷◌, map,
  All, ◌==◌, ==_refl, if◌then◌else◌, arith,
}
use locutus.Outcome.{wrap, Outcome, ok, M, wrapping, >>=-eq-ok, wrapping-eq-ok}
use locutus.Env.{Env}
use locutus.Feedback.{
  Feedback, CurrentStatus, finished, StatusCondition, ObjectFeedback, object_feedback,
  set_condition, initialize,
}
use locutus.Feedback.Conditions.{status_of}
use locutus.Feedback.Writing.{set_condition-ok, initialize-ok}
use locutus.Rollout.Types.{RolloutGroup, RenderResult}
use locutus.Rollout.Runner.{
  RolloutMetrics, Runner, Progress, ObjectState, run_group, on_objects, feed, with_feedback,
  run_groups, groups_of, roll_out_groups, roll_out, render_and_roll_out, execute, in_world,
  start_at,
}

-- Names with their status.
abbrev pub Pairs : Type 0
Pairs = List (String × CurrentStatus)

abbrev mark : String → Pairs → Pairs
mark g ps = map (λ p. (p.0, if p.0 == g then finished else p.1)) ps

abbrev mark_all : List String → Pairs → Pairs
mark_all [] ps = ps
mark_all (g ∷ gs) ps = mark_all gs (mark g ps)

abbrev contains : String → List String → Bool
contains n [] = false
contains n (g ∷ gs) = n == g || contains n gs

abbrev mark_if : List String → Pairs → Pairs
mark_if gs ps = map (λ p. (p.0, if contains p.0 gs then finished else p.1)) ps

mark_if-mark :
    (g : String) (gs : List String) (ps : Pairs) → mark_if gs (mark g ps) ≡ mark_if (g ∷ gs) ps
mark_if-mark g gs [] = refl
mark_if-mark g gs ((n, s) ∷ ps) = ground (arith, mark_if-mark g gs ps)

mark_if-nil : (ps : Pairs) → mark_if [] ps ≡ ps
mark_if-nil [] = refl
mark_if-nil ((n, s) ∷ ps) = ap (λ l. (n, s) ∷ l) (mark_if-nil ps)

mark_all-mark_if : (gs : List String) (ps : Pairs) → mark_all gs ps ≡ mark_if gs ps
mark_all-mark_if [] ps = sym (mark_if-nil ps)
mark_all-mark_if (g ∷ gs) ps = mark_all-mark_if gs (mark g ps) ∙ mark_if-mark g gs ps

contains_cons :
    (g : String) (gs xs : List String)
    → All (λ x. contains x gs ≡ true) xs
    → All (λ x. contains x (g ∷ gs) ≡ true) xs
contains_cons g gs [] h = tt
contains_cons g gs (x ∷ xs) h = (ground arith, contains_cons g gs xs h.1)

contains_self : (gs : List String) → All (λ x. contains x gs ≡ true) gs
contains_self [] = tt
contains_self (g ∷ gs) = (rw (==_refl g), contains_cons g gs gs (contains_self gs))

mark_if-contained :
    (st : String → CurrentStatus) (gs xs : List String)
    → All (λ x. contains x gs ≡ true) xs
    → mark_if gs (map (λ x. (x, st x)) xs) ≡ map (λ x. (x, finished)) xs
mark_if-contained st gs [] h = refl
mark_if-contained st gs (x ∷ xs) h = ground (arith, mark_if-contained st gs xs h.1)

-- Marking each of the names finished finishes them all.
mark_all-finished :
    (st : String → CurrentStatus) (gs : List String)
    → mark_all gs (map (λ g. (g, st g)) gs) ≡ map (λ g. (g, finished)) gs
mark_all-finished st gs =
    mark_all-mark_if gs (map (λ g. (g, st g)) gs) ∙ mark_if-contained st gs gs (contains_self gs)

mark-status :
    (env : Env) (g : String) (cs : List (StatusCondition env))
    → map (λ c. (c.name, if c.name == g then finished else c.current_status)) cs
      ≡ mark g (map (status_of env) cs)
mark-status env g [] = refl
mark-status env g (c ∷ cs) =
    ap (λ l. (c.name, if c.name == g then finished else c.current_status) ∷ l)
      (mark-status env g cs)

abbrev pub names_of : List RolloutGroup → List String
names_of groups = map (λ g. g.name) groups

module _ (env : Env) where
  abbrev pub feedback : Feedback env
  feedback = object_feedback env

  -- The state has feedback with these names and status.
  abbrev pub Shows : Progress env feedback → Pairs → Type 0
  Shows s ps =
      (f : ObjectFeedback env) × (cs : List (StatusCondition env)) × (s.feedback_state ≡ some f)
      × (f.current_status ≡ some cs)
      × (map (status_of env) cs ≡ ps)

  feed-ok :
      (f : ObjectFeedback env) (m : M (env.World × ObjectFeedback env) (Unit {0}))
      (s s' : Progress env feedback)
      → s.feedback_state ≡ some f
      → with_feedback env feedback m s ≡ (ok tt, s')
      → (w' : env.World) × (f' : ObjectFeedback env) × (m (s.world, f) ≡ (ok tt, (w', f')))
        × (s'.feedback_state ≡ some f')
  feed-ok f m s s' has h =
      let run : feed env feedback (some f) m s ≡ (ok tt, s') =
        subst (λ o. feed env feedback o m s ≡ (ok tt, s')) has h in
      let after = m (s.world, f) in
      (
        after.1.0,
        after.1.1,
        λ i. ((run i).0, after.1),
        sym (ap (λ (r : Outcome (Unit {0}) × Progress env feedback). r.1.feedback_state) run),
      )

  set_condition-Shows :
      (g : String) (s s' : Progress env feedback) (ps : Pairs)
      → with_feedback env feedback (set_condition env g finished) s ≡ (ok tt, s')
      → Shows s ps
      → Shows s' (mark g ps)
  set_condition-Shows g s s' ps h (f, cs, has, known, shown) =
      let (w', f', run, has') = feed-ok f (set_condition env g finished) s s' has h in
      let (cs', known', marked) = set_condition-ok env g finished s.world w' f f' cs run known in
      (f', cs', has', known', marked ∙ mark-status env g cs ∙ ap (mark g) shown)

  on_objects-feedback :
      (m : M (ObjectState env) (Unit {0})) (s s' : Progress env feedback)
      → on_objects env feedback m s ≡ (ok tt, s')
      → s.feedback_state ≡ s'.feedback_state
  on_objects-feedback m s s' h =
      ap (λ (r : Outcome (Unit {0}) × Progress env feedback). r.1.feedback_state) h

  Shows-same :
      (s s' : Progress env feedback) (ps : Pairs)
      → s.feedback_state ≡ s'.feedback_state
      → Shows s ps
      → Shows s' ps
  Shows-same s s' ps same (f, cs, has, known, shown) = (f, cs, sym same ∙ has, known, shown)

  run_groups-Shows :
      (r : Runner env) (groups : List RolloutGroup) (s s' : Progress env feedback) (ps : Pairs)
      → run_groups env feedback r groups s ≡ (ok tt, s')
      → Shows s ps
      → Shows s' (mark_all (names_of groups) ps)
  unfolding run_groups
  run_groups-Shows r [] s s' ps h shows =
      Shows-same s s' ps
        (ap (λ (x : Outcome (Unit {0}) × Progress env feedback). x.1.feedback_state) h) shows
  run_groups-Shows r (g ∷ gs) s s' ps h shows =
      let (_, s₁, ran, rest) = >>=-eq-ok (on_objects env feedback (run_group env r g)) _ s h in
      let (_, s₂, set, rest') =
        >>=-eq-ok (with_feedback env feedback (set_condition env g.name finished)) _ s₁ rest in
      run_groups-Shows r gs s₂ s' (mark g.name ps) rest' (
        set_condition-Shows g.name s₁ s₂ ps set
          (Shows-same s s₁ ps (on_objects-feedback (run_group env r g) s s₁ ran) shows))

  roll_out_groups-finished :
      (r : Runner env) (groups : List RolloutGroup) (f : ObjectFeedback env)
      (s s' : Progress env feedback)
      → s.feedback_state ≡ some f
      → roll_out_groups env feedback r groups s ≡ (ok tt, s')
      → Shows s' (map (λ g. (g, finished)) (names_of groups))
  roll_out_groups-finished r groups f s s' has h =
      let init = with_feedback env feedback (initialize env (names_of groups)) in
      let (_, s₁, begun, rest) = >>=-eq-ok (wrapping (wrap "initialize feedback" []) init) _ s h in
      let (w', f', run, has') =
        feed-ok f (initialize env (names_of groups)) s s₁ has
          (wrapping-eq-ok (wrap "initialize feedback" []) init s begun) in
      let (cs, known, starts) = initialize-ok env (names_of groups) s.world w' f f' run in
      subst (λ ps. Shows s' ps) (mark_all-finished _ (names_of groups))
        (run_groups-Shows r groups s₁ s' _ rest (f', cs, has', known, starts))

  roll_out-finished :
      (r : Runner env) (res : RenderResult env) (groups : List RolloutGroup)
      (f : ObjectFeedback env) (s s' : Progress env feedback)
      → groups_of env feedback res ≡ ok groups
      → s.feedback_state ≡ some f
      → roll_out env feedback r res s ≡ (ok tt, s')
      → Shows s' (map (λ g. (g, finished)) (names_of groups))
  unfolding roll_out
  roll_out-finished r res groups f s s' spec has h =
      roll_out_groups-finished r groups f s s' has (rw spec at h)

  live-run :
      (r : Runner env) (raw_config : Option String) (w : env.World) (res : RenderResult env)
      (s : Progress env feedback)
      → r.render_only ≡ false
      → r.provider raw_config s.world ≡ (ok res, w)
      → render_and_roll_out env feedback r raw_config s
        ≡ roll_out env feedback r res (record s { world = w; objects = res.objects })
  unfolding render_and_roll_out
  live-run r raw_config w res s live renders =
      let s₁ = record s { world = w } in
      rw renders (
        ap
          (λ b.
            (if b
                then in_world env feedback (r.encode res)
                else start_at env feedback res (roll_out env feedback r res))
              s₁)
          live)

  -- An execution with feedback that is not render-only and reports no error leaves a status with
  -- one condition for each group of the rollout, in order and under its name, all of them
  -- "Finished".
  pub execute-finished :
      (r : Runner env) (raw_config : Option String) (m m' : RolloutMetrics) (w : env.World)
      (res : RenderResult env) (groups : List RolloutGroup) (f : ObjectFeedback env)
      (s s' : Progress env feedback)
      → r.render_only ≡ false
      → r.provider raw_config s.world ≡ (ok res, w)
      → groups_of env feedback res ≡ ok groups
      → s.feedback_state ≡ some f
      → execute env feedback r raw_config m s ≡ (ok tt, (m', s'))
      → Shows s' (map (λ g. (g, finished)) (names_of groups))
  unfolding execute
  execute-finished r raw_config m m' w res groups f s s' live renders spec has h =
      roll_out-finished r res groups f (record s { world = w; objects = res.objects }) s' spec has
        (sym (live-run r raw_config w res s live renders) ∙ (λ i. ((h i).0, (h i).1.1)))
