-- ===== src/Render/Texts.antt =====
-- strings.HasPrefix with strings.TrimPrefix, and strings.SplitN at the first "=", by characters.
use Prim.Native.String.{◌++◌}
use text.Mathlib.TextLemmas.{nil-append, cons-append}
use locutus.Prelude.{
  String, Bool, false, ◌||◌, ◌≡◌, ap, ◌∙◌, Option, none, some, ◌==◌, ==_refl, if◌then◌else◌,
  Bool-cases, inl, inr,
}
use Prim.Native.Char.{Char}

abbrev letter : Char → String
letter c = String.◌∷◌ c String.[]

-- The text behind a prefix, if it has that prefix.
unfoldable pub strip_prefix : String → String → Option String
strip_prefix String.[] s = some s
strip_prefix (String.◌∷◌ c p) String.[] = none
strip_prefix (String.◌∷◌ c p) (String.◌∷◌ d s) =
    if letter c == letter d then strip_prefix p s else none

abbrev pub or_text : String → Option String → String
or_text s none = s
or_text s (some rest) = rest

unfoldable pub trim_prefix : String → String → String
unfolding strip_prefix
trim_prefix s p = or_text s (strip_prefix p s)

abbrev pub put_first : Char → Option (String × String) → Option (String × String)
put_first c none = none
put_first c (some (a, b)) = some (String.◌∷◌ c a, b)

-- The two parts, or none where the text has no "=".
unfoldable pub split_once : String → Option (String × String)
split_once String.[] = none
split_once (String.◌∷◌ c s) =
    let rest = put_first c (split_once s) in if letter c == "=" then some ("", s) else rest

unfoldable pub has_equals : String → Bool
has_equals String.[] = false
has_equals (String.◌∷◌ c s) = letter c == "=" || has_equals s

pub strip_prefix-append : (p s : String) → strip_prefix p (p ++ s) ≡ some s
unfolding strip_prefix
strip_prefix-append String.[] s = rw nil-append
strip_prefix-append (String.◌∷◌ c p) s =
    rw (cons-append c p s, ==_refl (letter c)) (strip_prefix-append p s)

equals-append : (v : String) → "=" ++ v ≡ String.◌∷◌ "=" v
equals-append v = cons-append "=" String.[] v ∙ ap (String.◌∷◌ "=") (nil-append v)

pub split_once-append :
    (k v : String) → has_equals k ≡ false → split_once (k ++ ("=" ++ v)) ≡ some (k, v)
unfolding split_once has_equals
split_once-append String.[] v h = rw (nil-append ("=" ++ v), equals-append v)
split_once-append (String.◌∷◌ c k) v h = elim (Bool-cases (letter c == "=")) [
  | inl equals ↦ absurd (cc (rw equals at h))
  | inr other ↦
      rw (cons-append c k ("=" ++ v), other)
        (ap (put_first c) (split_once-append k v (rw other at h)))
]
