-- ===== src/Trigger/Database/Hex.antt =====
-- %x of the key of a row in trigger/database/database.go.
use Prim.Native.String.{◌++◌}
use locutus.Prelude.{ℕ, zero, suc, ◌/◌, ◌%◌, String, List, [], ◌∷◌}

-- %x of a byte string: two lower-case digits for each byte
abbrev pub hex_digits : List String
hex_digits =
    "0" ∷ "1" ∷ "2" ∷ "3" ∷ "4" ∷ "5" ∷ "6" ∷ "7" ∷ "8" ∷ "9" ∷ "a" ∷ "b" ∷ "c" ∷ "d" ∷ "e" ∷ "f"
    ∷ []

unfoldable pub nth_text : ℕ → List String → String
nth_text _ [] = ""
nth_text zero (s ∷ ss) = s
nth_text (suc n) (s ∷ ss) = nth_text n ss

unfoldable pub hex : List ℕ → String
unfolding nth_text
hex [] = ""
hex (b ∷ bs) = nth_text (b / 16) hex_digits ++ (nth_text (b % 16) hex_digits ++ hex bs)
