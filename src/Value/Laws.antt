-- ===== src/Value/Laws.antt =====
-- DeepEqual is reflexive where no NaN and no duplicate key stands in the way.
use locutus.Prelude.{ℕ, String, true, false, ◌≡◌, refl, none, some, arith, eq_iff, ==_refl}
use locutus.Value.{
  Value, nil, bool, int64, float64, string, array, object, Items, done, item, Fields, end, field,
  is_nan, float_equal, get_field, deep_equal, items_equal, fields_equal,
}

-- No NaN anywhere, and no map has two entries of one key.
abbrev mutual
  pub IsPlain : Value → Type 0
  IsPlain (float64 b) = is_nan b ≡ false
  IsPlain (array xs) = ArePlain xs
  IsPlain (object fs) = HasPlain fs
  IsPlain nil = Unit
  IsPlain (bool _) = Unit
  IsPlain (int64 _) = Unit
  IsPlain (string _) = Unit

  pub ArePlain : Items → Type 0
  ArePlain done = Unit
  ArePlain (item x xs) = IsPlain x × ArePlain xs

  pub HasPlain : Fields → Type 0
  HasPlain end = Unit
  HasPlain (field k x xs) = (get_field k xs ≡ none) × IsPlain x × HasPlain xs

-- Every entry of the first map is what the second has under that key.
abbrev Within : Fields → Fields → Type 0
Within end ys = Unit
Within (field k x xs) ys = (get_field k ys ≡ some x) × Within xs ys

Within-field :
    (k : String) (v : Value) (xs ys : Fields)
    → get_field k xs ≡ none
    → Within xs ys
    → Within xs (field k v ys)
unfolding get_field
Within-field k v end ys h w = tt
Within-field k v (field j x xs) ys h w = (
  ground (arith, eq_iff j k, eq_iff k j),
  Within-field k v xs ys (ground (arith, eq_iff j k)) w.1,
)

Within-self : (xs : Fields) → HasPlain xs → Within xs xs
unfolding get_field
Within-self end p = tt
Within-self (field k x xs) p =
    (ground (arith, ==_refl k), Within-field k x xs xs p.0 (Within-self xs p.2))

float_equal_self : (b : ℕ) → is_nan b ≡ false → float_equal b b ≡ true
unfolding float_equal
float_equal_self b h = ground arith

mutual
  unfolding deep_equal

  deep_equal-plain : (v : Value) → IsPlain v → deep_equal v v ≡ true
  deep_equal-plain nil p = refl
  deep_equal-plain (bool true) p = refl
  deep_equal-plain (bool false) p = refl
  deep_equal-plain (int64 n) p = ground arith
  deep_equal-plain (float64 b) p = float_equal_self b p
  deep_equal-plain (string s) p = ==_refl s
  deep_equal-plain (array xs) p = items_equal-plain xs p
  deep_equal-plain (object xs) p = ground (arith, fields_equal-plain xs xs p (Within-self xs p))

  items_equal-plain : (xs : Items) → ArePlain xs → items_equal xs xs ≡ true
  items_equal-plain done p = refl
  items_equal-plain (item x xs) p = ground (arith, deep_equal-plain x p.0, items_equal-plain xs p.1)

  fields_equal-plain : (xs ys : Fields) → HasPlain xs → Within xs ys → fields_equal xs ys ≡ true
  fields_equal-plain end ys p w = refl
  fields_equal-plain (field k x xs) ys p w =
      ground (arith, deep_equal-plain x p.1, fields_equal-plain xs ys p.2 w.1)

-- A value without a NaN and without a duplicate key is DeepEqual to itself.
pub deep_equal_refl : (v : Value) → IsPlain v → deep_equal v v ≡ true
deep_equal_refl v p = deep_equal-plain v p
