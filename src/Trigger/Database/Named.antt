-- ===== src/Trigger/Database/Named.antt =====
-- The names that the outer map of trigger/database/database.go has: those of the triggers, also after
-- a clean-up.
use locutus.Trigger.Database.{TriggerConfig, TriggerRun, name_triggers, is_done, forget_done}
use locutus.Prelude.{
  ℕ, String, Bool, true, false, ◌||◌, ◌≡◌, refl, sym, ◌∙◌, inl, inr, none, List, [], ◌∷◌, All, ◌==◌,
  eq_iff, is_some, if◌then◌else◌, Bool-cases, arith,
}
use locutus.Maps.{Assoc, lookup, insert, remove, lookup-insert, lookup-remove}

-- Whether a trigger of the configuration has this name.
unfoldable pub is_trigger : String → List TriggerConfig → Bool
is_trigger x [] = false
is_trigger x (c ∷ cs) = c.name == x || is_trigger x cs

pub name_triggers-named :
    (cs : List TriggerConfig) (active : Assoc (Assoc ℕ)) (x : String)
    → is_some (lookup x (name_triggers cs active)) ≡ (is_trigger x cs || is_some (lookup x active))
unfolding name_triggers is_trigger
name_triggers-named [] active x = refl
name_triggers-named (c ∷ cs) active x =
    let below = name_triggers-named cs (insert c.name [] active) x in
    let there = lookup-insert c.name x [] active in
    elim (Bool-cases (c.name == x)) [
      | inl same ↦ ground (arith, below, rw same at there, same)
      | inr other ↦ ground (arith, below, rw other at there, other)
    ]

-- The entries have keys that the outer map lacks.
abbrev pub Apart : Assoc (Assoc ℕ) → String × ℕ → Type 0
Apart active p = lookup p.0 active ≡ none

Apart-same :
    (entries : Assoc ℕ) (a a' : Assoc (Assoc ℕ))
    → ((x : String) → lookup x a' ≡ lookup x a)
    → All (Apart a) entries
    → All (Apart a') entries
Apart-same [] a a' h all = tt
Apart-same (p ∷ entries) a a' h all = (h p.0 ∙ all.0, Apart-same entries a a' h all.1)

remove-absent :
    (b : Bool) (key x : String) (active : Assoc (Assoc ℕ))
    → lookup key active ≡ none
    → lookup x (if b then remove key active else active) ≡ lookup x active
remove-absent false key x active h = refl
remove-absent true key x active h = elim (Bool-cases (key == x)) [
  | inl same ↦ rw (lookup-remove key x active, same, sym h, (eq_iff key x).0 same)
  | inr other ↦ rw (lookup-remove key x active, other)
]

pub forget_done-same :
    (entries : Assoc ℕ) (runs : List TriggerRun) (active : Assoc (Assoc ℕ)) (x : String)
    → All (Apart active) entries
    → lookup x (forget_done entries runs active) ≡ lookup x active
unfolding forget_done
forget_done-same [] runs active x h = refl
forget_done-same ((key, n) ∷ entries) runs active x h =
    let active' = if is_done n runs then remove key active else active in
    let same : ((y : String) → lookup y active' ≡ lookup y active) =
      λ y. remove-absent (is_done n runs) key y active h.0 in
    forget_done-same entries runs active' x (Apart-same entries active active' same h.1) ∙ same x
