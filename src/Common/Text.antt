-- ===== src/Common/Text.antt =====
-- Texts as the code handles them: f-strings, lower and upper case (of the ASCII letters), substrings, order.
use Prim.Native.Char.{Char, code}
use Prim.Native.String
use Prim.Native.String.{String, compare}
use Prim.Native.Nat.{ℕ, zero, suc, ◌+◌, ◌/◌, ◌%◌, Ordering}
use mathlib.Core.Bool.{Bool, true, false, ◌||◌, ◌&&◌}
use mathlib.Core.List.{List, [], ◌∷◌}
use text.Mathlib.Text.{◌==◌, starts_with}
use cloud_security_posture_m.Common.Tests.{nat_eq, leb, ltb, if◌then◌else◌}

-- The pieces of an f-string.
unfoldable pub concat : List String → String
concat [] = ""
concat (s ∷ rest) = String.◌++◌ s (concat rest)

abbrev lower_case : List (ℕ × Char)
lower_case =
    (65, "a")
    ∷ (66, "b")
    ∷ (67, "c")
    ∷ (68, "d")
    ∷ (69, "e")
    ∷ (70, "f")
    ∷ (71, "g")
    ∷ (72, "h")
    ∷ (73, "i")
    ∷ (74, "j")
    ∷ (75, "k")
    ∷ (76, "l")
    ∷ (77, "m")
    ∷ (78, "n")
    ∷ (79, "o")
    ∷ (80, "p")
    ∷ (81, "q")
    ∷ (82, "r")
    ∷ (83, "s")
    ∷ (84, "t")
    ∷ (85, "u")
    ∷ (86, "v")
    ∷ (87, "w")
    ∷ (88, "x")
    ∷ (89, "y")
    ∷ (90, "z")
    ∷ []

in_case : List (ℕ × Char) → Char → Char
in_case [] c = c
in_case ((from, to) ∷ rest) c = if nat_eq (code c) from then to else in_case rest c

-- `s.lower()`
unfoldable pub lower : String → String
unfolding in_case
lower String.[] = String.[]
lower (String.◌∷◌ c s) = String.◌∷◌ (in_case lower_case c) (lower s)

abbrev upper_case : List (ℕ × Char)
upper_case =
    (97, "A")
    ∷ (98, "B")
    ∷ (99, "C")
    ∷ (100, "D")
    ∷ (101, "E")
    ∷ (102, "F")
    ∷ (103, "G")
    ∷ (104, "H")
    ∷ (105, "I")
    ∷ (106, "J")
    ∷ (107, "K")
    ∷ (108, "L")
    ∷ (109, "M")
    ∷ (110, "N")
    ∷ (111, "O")
    ∷ (112, "P")
    ∷ (113, "Q")
    ∷ (114, "R")
    ∷ (115, "S")
    ∷ (116, "T")
    ∷ (117, "U")
    ∷ (118, "V")
    ∷ (119, "W")
    ∷ (120, "X")
    ∷ (121, "Y")
    ∷ (122, "Z")
    ∷ []

-- `s.upper()`
unfoldable pub upper : String → String
unfolding in_case
upper String.[] = String.[]
upper (String.◌∷◌ c s) = String.◌∷◌ (in_case upper_case c) (upper s)

underscore_char : Char → Char
underscore_char c = if nat_eq (code c) 32 then "_" else if nat_eq (code c) 47 then "_" else c

-- `s.replace(" ", "_").replace("/", "_")`
unfoldable pub underscored : String → String
unfolding underscore_char
underscored String.[] = String.[]
underscored (String.◌∷◌ c s) = String.◌∷◌ (underscore_char c) (underscored s)

-- `s.replace("_", ".")`
unfoldable pub dotted : String → String
dotted String.[] = String.[]
dotted (String.◌∷◌ c s) = String.◌∷◌ (if nat_eq (code c) 95 then "." else c) (dotted s)

-- `s.isascii()`
unfoldable pub is_ascii : String → Bool
is_ascii String.[] = true
is_ascii (String.◌∷◌ c s) = ltb (code c) 128 && is_ascii s

-- `piece in s`
unfoldable pub includes : String → String → Bool
includes piece String.[] = piece == ""
includes piece (String.◌∷◌ c s) = starts_with (String.◌∷◌ c s) piece || includes piece s

abbrev is_before : Ordering → Bool
is_before Ordering.lt = true
is_before _ = false

-- `s < t`
unfoldable pub text_before : String → String → Bool
text_before s t = is_before (compare s t)

-- `sorted` of a set of texts: inserted one by one, an equal one once.
unfoldable pub insert_text : String → List String → List String
insert_text s [] = s ∷ []
insert_text s (x ∷ xs) =
    if s == x then x ∷ xs else if is_before (compare s x) then s ∷ x ∷ xs else x ∷ insert_text s xs

unfoldable pub sorted_set : List String → List String
unfolding insert_text
sorted_set [] = []
sorted_set (s ∷ rest) = insert_text s (sorted_set rest)

-- `s.split("_")`
abbrev onto_first : Char → List String → List String
onto_first c [] = String.◌∷◌ c "" ∷ []
onto_first c (w ∷ ws) = String.◌∷◌ c w ∷ ws

unfoldable pub split_underscore : String → List String
split_underscore String.[] = "" ∷ []
split_underscore (String.◌∷◌ c s) =
    let rest = split_underscore s in if nat_eq (code c) 95 then "" ∷ rest else onto_first c rest

-- `s[n:]`
unfoldable pub drop_chars : ℕ → String → String
drop_chars zero s = s
drop_chars (suc n) String.[] = String.[]
drop_chars (suc n) (String.◌∷◌ c s) = drop_chars n s

-- `s.strip()` on the characters of a header.
is_space : Char → Bool
is_space c =
    let n = code c in
    (leb 9 n && leb n 13) || ((leb 28 n && leb n 32) || (nat_eq n 133 || nat_eq n 160))

strip_left : String → String
strip_left String.[] = String.[]
strip_left (String.◌∷◌ c s) = if is_space c then strip_left s else String.◌∷◌ c s

strip_right : String → String
strip_right String.[] = String.[]
strip_right (String.◌∷◌ c s) =
    let rest = strip_right s in if is_space c && rest == "" then String.[] else String.◌∷◌ c rest

unfoldable pub strip : String → String
unfolding strip_left strip_right is_space
strip s = strip_right (strip_left s)

-- `s.endswith(t)`
unfoldable pub ends_with : String → String → Bool
ends_with String.[] t = t == ""
ends_with (String.◌∷◌ c s) t = String.◌∷◌ c s == t || ends_with s t

digits : List String
digits = "0" ∷ "1" ∷ "2" ∷ "3" ∷ "4" ∷ "5" ∷ "6" ∷ "7" ∷ "8" ∷ "9" ∷ []

digit_in : List String → ℕ → String
digit_in [] n = ""
digit_in (d ∷ ds) zero = d
digit_in (d ∷ ds) (suc n) = digit_in ds n

decimal_from : ℕ → ℕ → String
unfolding digits digit_in
decimal_from zero n = ""
decimal_from (suc fuel) n = elim (ltb n 10) [
  | true ↦ digit_in digits n
  | false ↦ String.◌++◌ (decimal_from fuel (n / 10)) (digit_in digits (n % 10))
]

-- `str(n)`: a number has fewer digits than it counts, or one.
unfoldable pub decimal : ℕ → String
unfolding decimal_from
decimal n = decimal_from (n + 1) n
