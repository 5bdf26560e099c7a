-- ===== src/Text/Comments.antt =====
-- Where `rsplit_once(" ;")` finds a comment, and where it finds none.
use dnssec_tests.Base.{
  ℕ, false, none, some, List, [], ◌∷◌, ◌++◌, ◌≡◌, ◌≢◌, refl, arith, All, ◌==◌, Bool-cases, inl, inr,
}
use dnssec_tests.Text.{Text, codes, is_whitespace, strip_prefix, rsplit_at, rsplit_once}
use dnssec_tests.Text.Columns.{IsBlank, Tail, done, more, Row, row}
use dnssec_tests.Text.Splits.{Lacks}

abbrev pub mark : Text
mark = codes " ;"

-- The text does not begin with a semicolon.
abbrev StartsClear : Text → Type 0
StartsClear s = strip_prefix (codes ";") s ≡ none

clear-cons : (c : ℕ) (s : Text) → c ≢ b';' → StartsClear (c ∷ s)
unfolding strip_prefix
clear-cons c s h = let e : (b';' == c) ≡ false = ground arith in rw (e, strip_prefix)

rsplit_once-cons :
    (c : ℕ) (s : Text) → StartsClear s → rsplit_once mark s ≡ none → rsplit_once mark (c ∷ s) ≡ none
unfolding rsplit_once rsplit_at strip_prefix
rsplit_once-cons c s h e = elim (Bool-cases (b' ' == c)) [
  | inl blank ↦ rw (e, rsplit_at, blank, strip_prefix, h)
  | inr other ↦ rw (e, rsplit_at, other, strip_prefix)
]

rsplit_once-ne :
    (c : ℕ) (s : Text) → c ≢ b' ' → rsplit_once mark s ≡ none → rsplit_once mark (c ∷ s) ≡ none
unfolding rsplit_once rsplit_at strip_prefix
rsplit_once-ne c s h e =
    let o : (b' ' == c) ≡ false = ground arith in rw (e, rsplit_at, o, strip_prefix)

solid-ne-space : (c : ℕ) → is_whitespace c ≡ false → c ≢ b' '
unfolding is_whitespace
solid-ne-space c h = ground arith

rsplit_once-solid :
    (w s : Text)
    → All (λ c. is_whitespace c ≡ false) w
    → rsplit_once mark s ≡ none
    → rsplit_once mark (w ++ s) ≡ none
rsplit_once-solid [] s h e = e
rsplit_once-solid (c ∷ w) s h e =
    rsplit_once-ne c (w ++ s) (solid-ne-space c h.0) (rsplit_once-solid w s h.1 e)

clear-word : (w s : Text) → w ≢ [] → Lacks b';' w → StartsClear (w ++ s)
clear-word [] s h l = absurd (h refl)
clear-word (c ∷ w) s h l = clear-cons c (w ++ s) l.0

clear-gap : (g s : Text) → All IsBlank g → StartsClear s → StartsClear (g ++ s)
clear-gap [] s h e = e
clear-gap (c ∷ g) s h e = clear-cons c (g ++ s) (ground (arith, h.0))

rsplit_once-gap :
    (g s : Text)
    → All IsBlank g
    → StartsClear s
    → rsplit_once mark s ≡ none
    → rsplit_once mark (g ++ s) ≡ none
rsplit_once-gap [] s h b e = e
rsplit_once-gap (c ∷ g) s h b e =
    rsplit_once-cons c (g ++ s) (clear-gap g s h.1 b) (rsplit_once-gap g s h.1 b e)

rsplit_once-Tail :
    {s : Text} {ws : List Text} → Tail s ws → All (Lacks b';') ws → rsplit_once mark s ≡ none
rsplit_once-Tail done l = unfold rsplit_once in refl
rsplit_once-Tail (more {s} c g w b bs h t) l =
    rsplit_once-gap (c ∷ g) (w ++ s) (b, bs) (clear-word w s h.ne_nil l.0)
      (rsplit_once-solid w s h.solid (rsplit_once-Tail t l.1))

-- A row holds no comment if no column behind the first holds a semicolon.
pub rsplit_once-Row :
    {s w : Text} {ws : List Text} → Row s (w ∷ ws) → All (Lacks b';') ws → rsplit_once mark s ≡ none
rsplit_once-Row (row {s} w h t) l = rsplit_once-solid w s h.solid (rsplit_once-Tail t l)

-- The last comment is found, whatever stands in front of it.
pub rsplit_once-append :
    (s comment : Text)
    → rsplit_once mark comment ≡ none
    → rsplit_once mark (s ++ (mark ++ comment)) ≡ some (s, comment)
unfolding rsplit_once
rsplit_once-append [] comment e =
    unfold rsplit_at strip_prefix in
    rw (rsplit_once-ne b';' comment (omega arith) e, rsplit_at, strip_prefix)
rsplit_once-append (c ∷ s) comment e =
    unfold rsplit_at in rw (rsplit_once-append s comment e, rsplit_at)
