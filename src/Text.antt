-- ===== src/Text.antt =====
-- Texts as lists of Unicode code points, with the operations of Rust's `str` that the sources of
-- packages/dns-test/src call. The operations are those of the language's standard library.
pub mod Columns
pub mod Lines
pub mod Search
pub mod Splits
pub mod Equality
pub mod Comments
use Prim.Native.Char.{code}
use dnssec_tests.Base.{
  ℕ, String, Bool, true, false, ◌&&◌, ◌||◌, Option, none, some, List, [], ◌∷◌, ◌++◌, leb, ◌==◌,
  if◌then◌else◌,
}

abbrev pub Text : Type 0
Text = List ℕ

-- The code points of a literal.
abbrev pub codes : String → Text
codes String.[] = []
codes (String.◌∷◌ c s) = code c ∷ codes s

-- `==` on `str`.
unfoldable pub equal : Text → Text → Bool
equal [] [] = true
equal (x ∷ xs) (y ∷ ys) = x == y && equal xs ys
equal _ _ = false

-- `char::is_whitespace`: the code points with the Unicode property White_Space.
unfoldable pub is_whitespace : ℕ → Bool
is_whitespace c =
    leb 9 c && leb c 13
    || c == 32
    || c == 0x85
    || c == 0xa0
    || c == 0x1680
    || leb 0x2000 c && leb c 0x200a
    || c == 0x2028
    || c == 0x2029
    || c == 0x202f
    || c == 0x205f
    || c == 0x3000

abbrev pub newline : ℕ
newline = 10

-- A word that is not empty goes in front of the words behind it.
pub flush : Text → List Text → List Text
flush [] words = words
flush (c ∷ cs) words = (c ∷ cs) ∷ words

pub words_from : Text → Text → List Text
words_from cur [] = flush cur []
words_from cur (c ∷ s) = elim (is_whitespace c) [
  | true ↦ flush cur (words_from [] s)
  | false ↦ words_from (cur ++ c ∷ []) s
]

-- `str::split_whitespace`.
unfoldable pub split_whitespace : Text → List Text
unfolding words_from flush is_whitespace
split_whitespace = words_from []

-- `str::trim_start`, `str::trim_end`, `str::trim`.
unfoldable pub trim_start : Text → Text
unfolding is_whitespace
trim_start [] = []
trim_start (c ∷ s) = elim (is_whitespace c) [ true ↦ trim_start s | false ↦ c ∷ s ]

-- What is left of `c ∷ s` when the end of `s` is trimmed already.
pub trim_onto : ℕ → Text → Text
trim_onto c [] = if is_whitespace c then [] else c ∷ []
trim_onto c (d ∷ s) = c ∷ d ∷ s

unfoldable pub trim_end : Text → Text
unfolding trim_onto is_whitespace
trim_end [] = []
trim_end (c ∷ s) = trim_onto c (trim_end s)

unfoldable pub trim : Text → Text
unfolding trim_start trim_end
trim s = trim_end (trim_start s)

-- `str::is_empty`.
abbrev pub is_empty {ℓ} : {A : Type ℓ} → List A → Bool
is_empty [] = true
is_empty (_ ∷ _) = false

-- A line loses one `\r` at its end.
unfoldable pub strip_cr : Text → Text
strip_cr [] = []
strip_cr (c ∷ []) = if c == 13 then [] else c ∷ []
strip_cr (c ∷ d ∷ s) = c ∷ strip_cr (d ∷ s)

pub last_line : Text → List Text
last_line [] = []
last_line (c ∷ cs) = (c ∷ cs) ∷ []

pub lines_from : Text → Text → List Text
lines_from cur [] = last_line cur
lines_from cur (c ∷ s) = elim (c == newline) [
  | true ↦ strip_cr cur ∷ lines_from [] s
  | false ↦ lines_from (cur ++ c ∷ []) s
]

-- `str::lines`: the last line need not end in a newline, and keeps a bare `\r` if it does not.
unfoldable pub lines : Text → List Text
unfolding lines_from last_line strip_cr
lines = lines_from []

-- `str::strip_prefix` and `str::starts_with`.
unfoldable pub strip_prefix : Text → Text → Option Text
strip_prefix [] s = some s
strip_prefix (p ∷ ps) [] = none
strip_prefix (p ∷ ps) (c ∷ s) = elim (p == c) [ true ↦ strip_prefix ps s | false ↦ none ]

unfoldable pub starts_with : Text → Text → Bool
starts_with [] s = true
starts_with (p ∷ ps) [] = false
starts_with (p ∷ ps) (c ∷ s) = p == c && starts_with ps s

-- `str::contains`: whether a text occurs in another.
unfoldable pub contains : Text → Text → Bool
unfolding starts_with
contains part [] = starts_with part []
contains part (c ∷ s) = starts_with part (c ∷ s) || contains part s

-- `str::ends_with` of one character.
unfoldable pub ends_with : ℕ → Text → Bool
ends_with d [] = false
ends_with d (c ∷ []) = c == d
ends_with d (_ ∷ c ∷ s) = ends_with d (c ∷ s)

-- A piece in front of the first part of a split.
abbrev pub prepend : ℕ → Option (Text × Text) → Option (Text × Text)
prepend c none = none
prepend c (some (before, after)) = some (c ∷ before, after)

-- `str::split_once` at a character.
unfoldable pub split_once : ℕ → Text → Option (Text × Text)
split_once d [] = none
split_once d (c ∷ s) = elim (c == d) [ true ↦ some ([], s) | false ↦ prepend c (split_once d s) ]

-- `str::rsplit_once`: a later match wins over one at the front.
pub rsplit_at : Text → ℕ → Text → Option (Text × Text) → Option (Text × Text)
rsplit_at pattern c s (some (before, after)) = some (c ∷ before, after)
rsplit_at pattern c s none = elim (strip_prefix pattern (c ∷ s)) [
  | some after ↦ some ([], after)
  | none ↦ none
]

unfoldable pub rsplit_once : Text → Text → Option (Text × Text)
unfolding rsplit_at strip_prefix
rsplit_once pattern [] = none
rsplit_once pattern (c ∷ s) = rsplit_at pattern c s (rsplit_once pattern s)

pub parts_from : ℕ → Text → Text → List Text
parts_from d cur [] = cur ∷ []
parts_from d cur (c ∷ s) = elim (c == d) [
  | true ↦ cur ∷ parts_from d [] s
  | false ↦ parts_from d (cur ++ c ∷ []) s
]

-- `str::split` at a character.
unfoldable pub split : ℕ → Text → List Text
unfolding parts_from
split d = parts_from d []

-- What `write!` and `format!` make of the pieces of their template, in order.
abbrev pub format : List Text → Text
format [] = []
format (piece ∷ pieces) = piece ++ format pieces
