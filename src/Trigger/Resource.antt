-- ===== src/Trigger/Resource.antt =====
-- trigger/resource/handlers.go: the keys that the events of an informer put into the work queue of
-- the resource trigger. Regular expressions, the key of an object and its accessor are parameters,
-- and so is the queue.
pub mod Keys
pub mod Worker
pub mod Running
pub mod Kept
pub mod Setup
use locutus.Prelude.{
  String, Bool, true, false, Option, none, some, List, [], ◌∷◌, ◌==◌, if◌then◌else◌,
}
use locutus.Outcome.{Error, wrap, Outcome, ok, err, panic, chain, rewrap, M, pure}

pub record KeyTransformationConfig : Type 0 where
  pub action : String
  pub regex : String
  pub replacement : String

-- package regexp. `expand` is FindStringSubmatchIndex with ExpandString: none without a match.
pub record Regexp : Type 1 where
  pub Regex : Type 0
  pub compile : String → Outcome Regex
  pub match_string : Regex → String → Bool
  pub expand : Regex → String → String → Option String

-- What a field left empty stands for.
abbrev or_default : String → String → String
or_default value default = if value == "" then default else value

-- the test of OnUpdate, for two objects with metadata
abbrev pub same_version : Option String → Option String → Bool
same_version (some a) (some b) = a == b
same_version (some a) none = false
same_version none b = false

module _ (re : Regexp) where
  open re use {Regex, compile, match_string, expand}

  pub record KeyTransformation : Type 0 where
    pub action : String
    pub regex : Regex
    pub replacement : String

  unfoldable pub new_key_transformation : KeyTransformationConfig → Outcome KeyTransformation
  new_key_transformation c =
      chain
        (rewrap (wrap "failed to compile key transformation's regex" [])
          (compile (or_default c.regex "(.*)")))
        λ regex. ok (record {
          action = or_default c.action "replace";
          regex = regex;
          replacement = or_default c.replacement "$1";
        })

  abbrev or_key : String → Option String → String
  or_key key none = key
  or_key key (some expanded) = expanded

  unfoldable pub transform_key : KeyTransformation → String → String
  transform_key t key =
      if t.action == "replace"
      then or_key key (expand t.regex t.replacement key)
      else if t.action == "drop"
      then (if match_string t.regex key then key else "")
      else if t.action == "keep"
      then (if match_string t.regex key then key else "")
      else key

  unfoldable pub transform_keys : List KeyTransformation → String → String
  transform_keys [] key = key
  transform_keys (t ∷ ts) key = transform_keys ts (transform_key t key)

  -- the loop of NewResourceHandlers
  unfoldable pub new_key_transformations :
      List KeyTransformationConfig → Outcome (List KeyTransformation)
  unfolding new_key_transformation
  new_key_transformations [] = ok []
  new_key_transformations (c ∷ cs) =
      chain (new_key_transformation c) λ t. chain (new_key_transformations cs) λ ts. ok (t ∷ ts)

  -- `key_func` and `version` (CommonAccessor with GetResourceVersion) have no answer for an object
  -- without metadata; a nil object has no metadata either.
  pub record ResourceHandlers (W Event : Type 0) : Type 0 where
    pub key_transformations : List KeyTransformation
    pub key_func : Event → Option String
    pub version : Event → Option String
    pub enqueue_func : String → M W (Unit {0})

  module _ (W Event : Type 0) where
    -- the same lines in each handler, after the key is known
    abbrev pub enqueue_key : ResourceHandlers W Event → String → M W (Unit {0})
    enqueue_key r key =
        let new_key = transform_keys r.key_transformations key in
        if new_key == "" then pure tt else r.enqueue_func new_key

    abbrev pub enqueue_known : ResourceHandlers W Event → Option String → M W (Unit {0})
    enqueue_known r none = pure tt
    enqueue_known r (some key) = enqueue_key r key

    unfoldable pub on_add : ResourceHandlers W Event → Event → M W (Unit {0})
    on_add r obj = enqueue_known r (r.key_func obj)

    unfoldable pub on_delete : ResourceHandlers W Event → Event → M W (Unit {0})
    on_delete r obj = enqueue_known r (r.key_func obj)

    abbrev pub update_known : ResourceHandlers W Event → Bool → Option String → M W (Unit {0})
    update_known r unchanged none = pure tt
    update_known r unchanged (some key) = if unchanged then pure tt else enqueue_key r key

    unfoldable pub on_update : ResourceHandlers W Event → Event → Event → M W (Unit {0})
    on_update r old cur =
        update_known r (same_version (r.version old) (r.version cur)) (r.key_func cur)
