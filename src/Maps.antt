-- ===== src/Maps.antt =====
-- Go's maps with string keys, as association lists: a write replaces the entry of its key in
-- place or adds one at the end, so a key occurs at most once.
use locutus.Prelude.{
  if◌then◌else◌, List, [], ◌∷◌, Option, none, some, String, ◌==◌, eq_iff, arith, ◌≡◌, refl,
}

abbrev pub Assoc {ℓ} : Type ℓ → Type ℓ
Assoc Entry = List (String × Entry)

module _ {ℓ} {V : Type ℓ} where
  -- m[k], with whether it was there
  unfoldable pub lookup : String → Assoc V → Option V
  lookup _ [] = none
  lookup key (entry ∷ others) = if entry.0 == key then some entry.1 else lookup key others

  -- m[k] = v
  unfoldable pub insert : String → V → Assoc V → Assoc V
  insert key value [] = (key, value) ∷ []
  insert key value (entry ∷ others) =
      if entry.0 == key then (key, value) ∷ others else entry ∷ insert key value others

  -- delete(m, k)
  unfoldable pub remove : String → Assoc V → Assoc V
  remove _ [] = []
  remove key (entry ∷ others) =
      let kept = remove key others in if entry.0 == key then kept else entry ∷ kept

  pub lookup-insert :
      (key other : String) (value : V) (m : Assoc V)
      → lookup other (insert key value m) ≡ (if key == other then some value else lookup other m)
  unfolding lookup insert
  lookup-insert key other value [] = refl
  lookup-insert key other value (entry ∷ others) =
      let below = lookup-insert key other value others in
      ground (arith, eq_iff entry.0 key, eq_iff entry.0 other, eq_iff key other, below)

  pub lookup-remove :
      (key other : String) (m : Assoc V)
      → lookup other (remove key m) ≡ (if key == other then none else lookup other m)
  unfolding lookup remove
  lookup-remove key other [] = ground arith
  lookup-remove key other (entry ∷ others) =
      let below = lookup-remove key other others in
      ground (arith, eq_iff entry.0 key, eq_iff entry.0 other, eq_iff key other, below)

pub lookup-nil {ℓ} : {V : Type ℓ} (k : String) → lookup {V = V} k [] ≡ none
unfolding lookup
lookup-nil k = refl

pub ruleset map_laws = (lookup-nil, lookup-insert, lookup-remove)
