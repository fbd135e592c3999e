-- ===== src/Text.antt =====
-- Texts that the program walks, as lists of code points, with the parts of Go's strings, unicode
-- and strconv that it uses on them.
pub mod Decimal
use Prim.Native.Char.{code}
use ddcore.Common.{
  ℕ, zero, suc, ◌+◌, ◌-◌, ◌*◌, ◌/◌, ◌%◌, ◌^◌, String, Bool, true, false, ◌&&◌, ◌||◌, Option, none,
  some, List, [], ◌∷◌, ◌++◌, if◌then◌else◌, ◌==◌, ltb, leb,
}

abbrev pub Text : Type 0
Text = List ℕ

abbrev pub codes : String → Text
codes String.[] = []
codes (String.◌∷◌ c s) = code c ∷ codes s

-- strings.EqualFold; `fold` takes a code point to the least one of its simple case folding
abbrev pub fold_eq : (ℕ → ℕ) → Text → Text → Bool
fold_eq fold [] [] = true
fold_eq fold (c ∷ s) (d ∷ t) = fold c == fold d && fold_eq fold s t
fold_eq fold _ _ = false

abbrev pub equal_fold : (ℕ → ℕ) → String → String → Bool
equal_fold fold a b = fold_eq fold (codes a) (codes b)

-- s == t
abbrev pub text_eq : Text → Text → Bool
text_eq s t = fold_eq (λ c. c) s t

-- strings.HasPrefix, of a prefix and a text
abbrev pub starts_with : Text → Text → Bool
starts_with [] s = true
starts_with (p ∷ ps) [] = false
starts_with (p ∷ ps) (c ∷ s) = p == c && starts_with ps s

-- unicode.IsSpace
abbrev pub is_space : ℕ → Bool
is_space c =
    leb 9 c && leb c 13
    || c == 32
    || c == 0x85
    || c == 0xA0
    || c == 0x1680
    || leb 0x2000 c && leb c 0x200A
    || c == 0x2028
    || c == 0x2029
    || c == 0x202F
    || c == 0x205F
    || c == 0x3000

abbrev pub is_digit : ℕ → Bool
is_digit c = leb 48 c && leb c 57

-- The longest prefix whose code points pass the test, and the rest.
unfoldable pub span : (ℕ → Bool) → Text → Text × Text
span p [] = ([], [])
span p (c ∷ s) = let (run, rest) = span p s in if p c then (c ∷ run, rest) else ([], c ∷ s)

-- strings.TrimSpace, from the left and from the right
unfoldable pub trim_left : Text → Text
trim_left [] = []
trim_left (c ∷ s) = let rest = trim_left s in if is_space c then rest else c ∷ s

abbrev pub trimmed_on : ℕ → Text → Text
trimmed_on c [] = if is_space c then [] else c ∷ []
trimmed_on c (d ∷ s) = c ∷ d ∷ s

unfoldable pub trim_right : Text → Text
trim_right [] = []
trim_right (c ∷ s) = trimmed_on c (trim_right s)

unfoldable pub trim_space : Text → Text
unfolding trim_left trim_right
trim_space s = trim_right (trim_left s)

-- strings.Fields: the words of a text; `word` is the one being read, reversed
abbrev pub push_word : Text → List Text → List Text
push_word [] ws = ws
push_word (c ∷ w) ws = (c ∷ w) ∷ ws

-- the first word of what is left, as far as it has been read, and the words behind it
unfoldable pub fields_split : Text → Text × List Text
fields_split [] = ([], [])
fields_split (c ∷ s) =
    let (word, words) = fields_split s in
    if is_space c then ([], push_word word words) else (c ∷ word, words)

unfoldable pub fields : Text → List Text
unfolding fields_split
fields s = let (word, words) = fields_split s in push_word word words

-- The value of a run of digits.
unfoldable pub value_from : ℕ → Text → ℕ
value_from n [] = n
value_from n (c ∷ s) = value_from (n * 10 + (c - 48)) s

abbrev pub max_int : ℕ
max_int = 2 ^ 63 - 1

-- strconv.Atoi of a run of digits: an error if the number does not fit an int
unfoldable pub atoi : Text → Option ℕ
unfolding value_from
atoi s = let n = value_from 0 s in if leb n max_int then some n else none

-- %d: the decimal digits of a number, before what stands in `out`
unfoldable pub digits_onto : ℕ → ℕ → Text → Text
digits_onto zero n out = out
digits_onto (suc fuel) n out =
    let more = digits_onto fuel (n / 10) ((48 + n % 10) ∷ out) in
    if ltb n 10 then (48 + n) ∷ out else more

unfoldable pub decimal : ℕ → Text
unfolding digits_onto
decimal n = digits_onto (suc n) n []
