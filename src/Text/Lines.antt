-- ===== src/Text/Lines.antt =====
-- What `trim` and `lines` make of the rows of Text/Columns.antt.
use dnssec_tests.Base.{
  ℕ, false, List, [], ◌∷◌, ◌++◌, append-nil, append_assoc, ◌≡◌, ◌≢◌, refl, ◌∙◌, arith, All,
  All-append, All-map, ◌==◌,
}
use dnssec_tests.Text.{
  Text, newline, is_whitespace, strip_cr, lines_from, lines, trim_start, trim_onto, trim_end, trim,
}
use dnssec_tests.Text.Columns.{IsWord, IsBlank, Tail, done, more, Row, row}

trim_end-keep : (p s : Text) → s ≢ [] → trim_end s ≡ s → trim_end (p ++ s) ≡ p ++ s
unfolding trim_end trim_onto
trim_end-keep [] s h e = e
trim_end-keep (c ∷ p) [] h e = absurd (h refl)
trim_end-keep (c ∷ []) (d ∷ s) h e = rw e
trim_end-keep (c ∷ b ∷ p) (d ∷ s) h e = rw (trim_end-keep (b ∷ p) (d ∷ s) h e)

trim_end-solid : (w : Text) → All (λ c. is_whitespace c ≡ false) w → trim_end w ≡ w
unfolding trim_end trim_onto
trim_end-solid [] h = refl
trim_end-solid (c ∷ []) h = rw (h.0, trim_onto)
trim_end-solid (c ∷ d ∷ w) h = rw (trim_end-solid (d ∷ w) h.1)

append-ne-nil : (w s : Text) → w ≢ [] → w ++ s ≢ []
append-ne-nil [] s h = absurd (h refl)
append-ne-nil (c ∷ w) s h = cc

trim_end-Tail :
    {s : Text} {ws : List Text} (w : Text) → IsWord w → Tail s ws → trim_end (w ++ s) ≡ w ++ s
trim_end-Tail w h done = rw append-nil (trim_end-solid w h.solid)
trim_end-Tail w h (more {s} c g v b bs hv t) =
    let ih = trim_end-Tail v hv t in
    trim_end-keep w (c ∷ (g ++ (v ++ s))) (cc)
      (trim_end-keep (c ∷ g) (v ++ s) (append-ne-nil v s hv.ne_nil) ih)

trim_start-word : (w s : Text) → IsWord w → trim_start (w ++ s) ≡ w ++ s
unfolding trim_start
trim_start-word [] s h = absurd (h.ne_nil refl)
trim_start-word (c ∷ w) s h = rw (h.solid.0, trim_start)

pub trim_end-Row : {s : Text} {ws : List Text} → Row s ws → trim_end s ≡ s
trim_end-Row (row {s} w h t) = trim_end-Tail w h t

-- A row has no white space at its ends.
pub trim-Row : {s : Text} {ws : List Text} → Row s ws → trim s ≡ s
unfolding trim
trim-Row (row {s} w h t) = rw (trim_start-word w s h) (trim_end-Tail w h t)

-- A character inside a line.
abbrev pub IsInline : ℕ → Type 0
IsInline c = (c ≢ 10) × (c ≢ 13)

solid-IsInline : (c : ℕ) → is_whitespace c ≡ false → IsInline c
unfolding is_whitespace
solid-IsInline c h = ground arith

blank-IsInline : (c : ℕ) → IsBlank c → IsInline c
blank-IsInline c h = ground arith

word-IsInline : (w : Text) → IsWord w → All IsInline w
word-IsInline w h = All-map _ _ solid-IsInline w h.solid

Tail-IsInline : {s : Text} {ws : List Text} → Tail s ws → All IsInline s
Tail-IsInline done = tt
Tail-IsInline (more {s} c g w b bs h t) = (
  blank-IsInline c b,
  All-append _ g (w ++ s) (All-map _ _ blank-IsInline g bs)
      (All-append _ w s (word-IsInline w h) (Tail-IsInline t)),
)

-- A row is one line.
pub Row-IsInline : {s : Text} {ws : List Text} → Row s ws → All IsInline s
Row-IsInline (row {s} w h t) = All-append _ w s (word-IsInline w h) (Tail-IsInline t)

strip_cr-inline : (s : Text) → All IsInline s → strip_cr s ≡ s
unfolding strip_cr
strip_cr-inline [] h = refl
strip_cr-inline (c ∷ []) h = ground arith
strip_cr-inline (c ∷ d ∷ s) h = rw (strip_cr-inline (d ∷ s) h.1)

lines_from-inline :
    (s cur rest : Text)
    → All IsInline s
    → lines_from cur (s ++ newline ∷ rest) ≡ strip_cr (cur ++ s) ∷ lines_from [] rest
unfolding lines_from
lines_from-inline [] cur rest h = rw append-nil
lines_from-inline (c ∷ s) cur rest h =
    let e : (c == newline) ≡ false = ground arith in
    rw (e, lines_from) (lines_from-inline s (cur ++ c ∷ []) rest h.1 ∙ rw append_assoc)

-- A line with its newline is the first of the lines.
pub lines-inline : (s rest : Text) → All IsInline s → lines (s ++ newline ∷ rest) ≡ s ∷ lines rest
unfolding lines
lines-inline s rest h = lines_from-inline s [] rest h ∙ rw (strip_cr-inline s h)
