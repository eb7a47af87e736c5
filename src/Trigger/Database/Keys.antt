-- ===== src/Trigger/Database/Keys.antt =====
-- The keys that trigger/database/database.go makes of byte strings do not collide.
use Prim.Native.Char.{Char, code}
use Prim.Native.String.{◌++◌}
use text.Mathlib.TextLemmas.{nil-append, cons-append}
use locutus.Trigger.Database.Hex.{hex_digits, nth_text, hex}
use locutus.Trigger.Database.Query.{trigger_key}
use locutus.Prelude.{
  ℕ, zero, suc, ◌+◌, ◌-◌, ◌*◌, ◌/◌, ◌%◌, ◌<◌, String, ◌≡◌, refl, sym, ap, ◌∙◌, List, [], ◌∷◌, All,
  leb, if◌then◌else◌, arith,
}
use locutus.Env.{Env, bytes_cell}

abbrev IsByte : ℕ → Type 0
IsByte b = b < 256

-- The value of a hexadecimal digit, and of a text of pairs of them.
abbrev digit_value : Char → ℕ
digit_value c = if leb (code c) 57 then code c - 48 else code c - 87

unhex : String → List ℕ
unhex String.[] = []
unhex (String.◌∷◌ c String.[]) = []
unhex (String.◌∷◌ c (String.◌∷◌ d s)) = (digit_value c * 16 + digit_value d) ∷ unhex s

-- These texts are one digit each, of these values in order.
abbrev Digits : ℕ → List String → Type 0
Digits n [] = Unit
Digits n (s ∷ ss) =
    ((c : Char) × (s ≡ String.◌∷◌ c String.[]) × (digit_value c ≡ n)) × Digits (suc n) ss

abbrev count : List String → ℕ
count [] = 0
count (s ∷ ss) = suc (count ss)

nth_text-digit :
    (i n : ℕ) (ss : List String)
    → Digits n ss
    → i < count ss
    → (c : Char) × (nth_text i ss ≡ String.◌∷◌ c String.[]) × (digit_value c ≡ i + n)
unfolding nth_text
nth_text-digit i n [] d h = absurd (omega arith)
nth_text-digit zero n (s ∷ ss) d h = (d.0.0, d.0.1, omega (arith, d.0.2))
nth_text-digit (suc i) n (s ∷ ss) d h =
    let (c, is, value) = nth_text-digit i (suc n) ss d.1 (omega arith) in (c, is, omega arith)

hex_digits-Digits : Digits 0 hex_digits
hex_digits-Digits = (
  ("0", refl, refl),
  (
    ("1", refl, refl),
    (
      ("2", refl, refl),
      (
        ("3", refl, refl),
        (
          ("4", refl, refl),
          (
            ("5", refl, refl),
            (
              ("6", refl, refl),
              (
                ("7", refl, refl),
                (
                  ("8", refl, refl),
                  (
                    ("9", refl, refl),
                    (
                      ("a", refl, refl),
                      (
                        ("b", refl, refl),
                        (
                          ("c", refl, refl),
                          (("d", refl, refl), (("e", refl, refl), (("f", refl, refl), tt))),
                        ),
                      ),
                    ),
                  ),
                ),
              ),
            ),
          ),
        ),
      ),
    ),
  ),
)

put_pair :
    (s t r : String) (c d : Char)
    → s ≡ String.◌∷◌ c String.[]
    → t ≡ String.◌∷◌ d String.[]
    → s ++ (t ++ r) ≡ String.◌∷◌ c (String.◌∷◌ d r)
put_pair s t r c d hs ht = rw (
  hs,
  ht,
  cons-append d String.[] r,
  nil-append r,
  cons-append c String.[] (String.◌∷◌ d r),
  nil-append (String.◌∷◌ d r),
)

unhex-hex : (bs : List ℕ) → All IsByte bs → unhex (hex bs) ≡ bs
unfolding unhex hex
unhex-hex [] h = refl
unhex-hex (b ∷ bs) h =
    let (c, high, cv) =
      nth_text-digit (b / 16) 0 hex_digits hex_digits-Digits (omega (arith, h.0)) in
    let (d, low, dv) = nth_text-digit (b % 16) 0 hex_digits hex_digits-Digits (omega arith) in
    let value : digit_value c * 16 + digit_value d ≡ b = omega arith in
    ap unhex
      (put_pair (nth_text (b / 16) hex_digits) (nth_text (b % 16) hex_digits) (hex bs) c d high low)
    ∙ ap (λ n. n ∷ unhex (hex bs)) value
    ∙ ap (λ l. b ∷ l) (unhex-hex bs h.1)

-- Two keys that are byte strings, of numbers below 256, and that the database trigger prints the
-- same are the same bytes.
pub trigger_key-injective :
    (env : Env) (xs ys : List ℕ)
    → All IsByte xs
    → All IsByte ys
    → trigger_key env (bytes_cell xs) ≡ trigger_key env (bytes_cell ys)
    → xs ≡ ys
trigger_key-injective env xs ys hx hy same = sym (unhex-hex xs hx) ∙ ap unhex same ∙ unhex-hex ys hy
