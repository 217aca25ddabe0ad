-- ===== src/Prelude/Texts.antt =====
-- Texts: joining, membership, and comparison without regard to the case of ASCII letters.
use Prim.Native.Nat.{ℕ, ◌-◌}
use Prim.Native.Char.{Char, code}
use Prim.Native.String.{String, ◌++◌}
use mathlib.Core.Path.{◌≡◌, refl}
use mathlib.Core.Bool.{Bool, true, false, ◌&&◌, ◌||◌}
use mathlib.Core.List.{List, [], ◌∷◌}
use text.Mathlib.Text.{◌==◌}
use backend_go_role_organiza.Prelude.Tests.{leb, eqb, if◌then◌else◌}

-- Go's `a + b + …` on strings.
unfoldable pub join : List String → String
join [] = ""
join (s ∷ ss) = s ++ join ss

-- `s != ""`
abbrev pub is_set : String → Bool
is_set s = if s == "" then false else true

abbrev pub member : String → List String → Bool
member s [] = false
member s (t ∷ ts) = s == t || member s ts

unfoldable pub codes : String → List ℕ
codes String.[] = []
codes (String.◌∷◌ c s) = code c ∷ codes s

-- The dotless i and the long s are the only other letters whose capital is an ASCII one.
unfoldable pub upper : ℕ → ℕ
upper c =
    if leb b'a' c && leb c b'z'
    then c - 32
    else if eqb c 305
    then b'I'
    else if eqb c 383
    then b'S'
    else c

-- `strings.ToUpper` on code points, for a comparison with ASCII texts: the other letters, whose
-- capitals are in no such text, are left as they are.
unfoldable pub to_upper : List ℕ → List ℕ
unfolding upper
to_upper [] = []
to_upper (c ∷ cs) = upper c ∷ to_upper cs

unfoldable pub same_codes : List ℕ → List ℕ → Bool
same_codes [] [] = true
same_codes (a ∷ as') (b ∷ bs) = eqb a b && same_codes as' bs
same_codes _ _ = false

-- Whether `s`, in capitals, is one of the texts of a `case` line.
unfoldable pub upper_in : String → List String → Bool
unfolding codes to_upper same_codes
upper_in s [] = false
upper_in s (t ∷ ts) = same_codes (to_upper (codes s)) (codes t) || upper_in s ts

unfoldable pub capital_in : List (ℕ × Char) → Char → Char
capital_in [] c = c
capital_in (p ∷ ps) c = if eqb p.0 (code c) then p.1 else capital_in ps c

abbrev capitals : List (ℕ × Char)
capitals =
    (b'a', "A")
    ∷ (b'b', "B")
    ∷ (b'c', "C")
    ∷ (b'd', "D")
    ∷ (b'e', "E")
    ∷ (b'f', "F")
    ∷ (b'g', "G")
    ∷ (b'h', "H")
    ∷ (b'i', "I")
    ∷ (b'j', "J")
    ∷ (b'k', "K")
    ∷ (b'l', "L")
    ∷ (b'm', "M")
    ∷ (b'n', "N")
    ∷ (b'o', "O")
    ∷ (b'p', "P")
    ∷ (b'q', "Q")
    ∷ (b'r', "R")
    ∷ (b's', "S")
    ∷ (b't', "T")
    ∷ (b'u', "U")
    ∷ (b'v', "V")
    ∷ (b'w', "W")
    ∷ (b'x', "X")
    ∷ (b'y', "Y")
    ∷ (b'z', "Z")
    ∷ []

-- `strings.ToUpper`, of an ASCII text.
unfoldable pub upper_text : String → String
unfolding capital_in
upper_text String.[] = ""
upper_text (String.◌∷◌ c s) = String.◌∷◌ (capital_in capitals c) (upper_text s)

unfoldable pub is_space : Char → Bool
is_space c = eqb (code c) 32 || leb 9 (code c) && leb (code c) 13

unfoldable pub trim_start : String → String
unfolding is_space
trim_start String.[] = ""
trim_start (String.◌∷◌ c s) = let rest = trim_start s in if is_space c then rest else String.◌∷◌ c s

unfoldable pub trim_end : String → String
unfolding is_space
trim_end String.[] = ""
trim_end (String.◌∷◌ c s) =
    let rest = trim_end s in if is_space c && (rest == "") then "" else String.◌∷◌ c rest

-- `strings.TrimSpace`, of an ASCII text.
unfoldable pub trim_space : String → String
unfolding trim_start trim_end
trim_space s = trim_end (trim_start s)

test-trim : upper_text (trim_space "  all ") ≡ "ALL"
unfolding trim_space upper_text
test-trim = refl
