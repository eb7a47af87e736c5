-- ===== src/Prelude/Lists.antt =====
-- Predicates that hold all along a list.
use mathlib.Core.List.{List, [], ◌∷◌}

abbrev pub All {ℓ ℓ'} : {A : Type ℓ} → (A → Type ℓ') → List A → Type ℓ'
All Holds [] = Unit
All Holds (a ∷ rest) = Holds a × All Holds rest
