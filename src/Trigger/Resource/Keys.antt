-- ===== src/Trigger/Resource/Keys.antt =====
-- Which events of trigger/resource/handlers.go lead to a key, and to which.
use locutus.Trigger.Resource.{
  Regexp, KeyTransformation, transform_key, transform_keys, ResourceHandlers, on_add, on_update,
  same_version, update_known, enqueue_known,
}
use locutus.Prelude.{
  String, Bool, true, false, ◌≡◌, refl, ap, ◌∙◌, map, inl, inr, Option, none, some, List, [], ◌∷◌,
  ◌==◌, eq_iff, Bool-cases, if◌then◌else◌,
}
use locutus.Outcome.{ok}

module _ (re : Regexp) where
  -- The same transformation with the action "keep" in place of "drop".
  abbrev pub keeping : KeyTransformation re → KeyTransformation re
  keeping t = record t { action = if t.action == "drop" then "keep" else t.action }

  keeping-same :
      (t : KeyTransformation re) (key : String)
      → transform_key re (keeping t) key ≡ transform_key re t key
  unfolding transform_key
  keeping-same t key = elim (Bool-cases (t.action == "drop")) [
    | inl dropping ↦ rw (dropping, (eq_iff t.action "drop").0 dropping)
    | inr other ↦
        let same : (if t.action == "drop" then "keep" else t.action) ≡ t.action = rw other in
        ap (λ a. transform_key re (record t { action = a }) key) same
  ]

  -- Key transformations give the same keys when every "drop" among them is replaced by "keep".
  pub transform_keys-keeping :
      (ts : List (KeyTransformation re)) (key : String)
      → transform_keys re (map keeping ts) key ≡ transform_keys re ts key
  unfolding transform_keys
  transform_keys-keeping [] key = refl
  transform_keys-keeping (t ∷ ts) key =
      transform_keys-keeping ts (transform_key re (keeping t) key)
      ∙ ap (transform_keys re ts) (keeping-same t key)

  module _ (W Event : Type 0) where
    known :
        (r : ResourceHandlers re W Event) (unchanged : Bool) (key : Option String) (w : W)
        → update_known re W Event r unchanged key w
          ≡ (if unchanged then (ok tt, w) else enqueue_known re W Event r key w)
    known r true none w = refl
    known r false none w = refl
    known r true (some key) w = refl
    known r false (some key) w = refl

    -- An update is handled as an add of the new object, unless the two objects have one resource
    -- version; then it changes nothing and returns no error.
    on_update-on_add :
        (r : ResourceHandlers re W Event) (old cur : Event) (w : W)
        → on_update re W Event r old cur w ≡ (
            if same_version (r.version old) (r.version cur)
            then (ok tt, w)
            else on_add re W Event r cur w)
    unfolding on_update on_add
    on_update-on_add r old cur w =
        known r (same_version (r.version old) (r.version cur)) (r.key_func cur) w
