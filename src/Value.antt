-- ===== src/Value.antt =====
-- The Go values that a JSON document decodes to (`interface{}`), and reflect.DeepEqual on them:
-- `checkFieldComparison` and the poll of rollout/checks/success_check.go compare by it.
-- An int64 and a float64 stand as their 64-bit patterns; they have different dynamic types, so
-- DeepEqual never equates one with the other. A map is an association list. DeepEqual's shortcut
-- for two references to one map is left out: it shows only at a NaN, which JSON cannot hold.
pub mod Laws
use locutus.Prelude.{
  ℕ, ◌%◌, ◌^◌, String, Bool, true, false, not, ◌&&◌, ◌||◌, Option, none, some, eqb, leb, ◌==◌,
  if◌then◌else◌, suc,
}

mutual
  pub data Value : Type 0 where
    nil : Value
    bool : Bool → Value
    int64 : ℕ → Value
    float64 : ℕ → Value
    string : String → Value
    array : Items → Value
    object : Fields → Value

  pub data Items : Type 0 where
    done : Items
    item : Value → Items → Items

  pub data Fields : Type 0 where
    end : Fields
    field : String → Value → Fields → Fields

-- IEEE 754 binary64: the pattern without its sign bit, and the pattern of infinity.
abbrev magnitude : ℕ → ℕ
magnitude b = b % 2 ^ 63

abbrev infinity : ℕ
infinity = 0x7ff0000000000000

abbrev pub is_nan : ℕ → Bool
is_nan b = not (leb (magnitude b) infinity)

-- `==` on float64: a NaN equals nothing, and the two zeros are equal.
unfoldable pub float_equal : ℕ → ℕ → Bool
float_equal a b =
    not (is_nan a) && not (is_nan b) && (eqb a b || eqb (magnitude a) 0 && eqb (magnitude b) 0)

unfoldable pub get_field : String → Fields → Option Value
get_field k end = none
get_field k (field j v fs) = if j == k then some v else get_field k fs

unfoldable pub field_count : Fields → ℕ
field_count end = 0
field_count (field j v fs) = suc (field_count fs)

abbrev pub bool_equal : Bool → Bool → Bool
bool_equal true b = b
bool_equal false b = not b

unfoldable mutual
  unfolding float_equal get_field field_count

  pub deep_equal : Value → Value → Bool
  deep_equal nil nil = true
  deep_equal (bool a) (bool b) = bool_equal a b
  deep_equal (int64 a) (int64 b) = eqb a b
  deep_equal (float64 a) (float64 b) = float_equal a b
  deep_equal (string a) (string b) = a == b
  deep_equal (array xs) (array ys) = items_equal xs ys
  deep_equal (object xs) (object ys) = eqb (field_count xs) (field_count ys) && fields_equal xs ys
  deep_equal _ _ = false

  pub items_equal : Items → Items → Bool
  items_equal done done = true
  items_equal (item x xs) (item y ys) = deep_equal x y && items_equal xs ys
  items_equal _ _ = false

  pub fields_equal : Fields → Fields → Bool
  fields_equal end ys = true
  fields_equal (field k x xs) ys =
      elim (get_field k ys) [ none ↦ false | some y ↦ deep_equal x y ] && fields_equal xs ys
