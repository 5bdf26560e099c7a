-- ===== src/Text/Splits.antt =====
-- Splits of texts at one character.
use dnssec_tests.Base.{
  Bool, not, ◌&&◌, ℕ, true, false, some, none, [], ◌∷◌, ◌++◌, append-nil, append_assoc, ◌≡◌, ◌≢◌,
  refl, ◌∙◌, arith, All, ◌==◌,
}
use dnssec_tests.Text.{Text, parts_from, split, split_once, ends_with}

-- No character of the text is `d`.
abbrev pub Lacks : ℕ → Text → Type 0
Lacks d = All (λ c. c ≢ d)

pub eq_self : (d : ℕ) → (d == d) ≡ true
eq_self d = ground arith

eq_ne : (c d : ℕ) → c ≢ d → (c == d) ≡ false
eq_ne c d h = ground arith

parts_from-Lacks : (d : ℕ) (w cur : Text) → Lacks d w → parts_from d cur w ≡ (cur ++ w) ∷ []
unfolding parts_from
parts_from-Lacks d [] cur h = rw append-nil
parts_from-Lacks d (c ∷ w) cur h =
    rw (eq_ne c d h.0, parts_from) (parts_from-Lacks d w (cur ++ c ∷ []) h.1 ∙ rw append_assoc)

parts_from-cons :
    (d : ℕ) (w cur rest : Text)
    → Lacks d w
    → parts_from d cur (w ++ d ∷ rest) ≡ (cur ++ w) ∷ parts_from d [] rest
unfolding parts_from
parts_from-cons d [] cur rest h = rw (eq_self d, parts_from) (rw append-nil)
parts_from-cons d (c ∷ w) cur rest h =
    rw (eq_ne c d h.0, parts_from) (parts_from-cons d w (cur ++ c ∷ []) rest h.1 ∙ rw append_assoc)

pub split-Lacks : (d : ℕ) (w : Text) → Lacks d w → split d w ≡ w ∷ []
unfolding split
split-Lacks d w h = parts_from-Lacks d w [] h

pub split-cons : (d : ℕ) (w rest : Text) → Lacks d w → split d (w ++ d ∷ rest) ≡ w ∷ split d rest
unfolding split
split-cons d w rest h = parts_from-cons d w [] rest h

-- The first part of a split ends at the first separator.
pub split_once-cons :
    (d : ℕ) (w rest : Text) → Lacks d w → split_once d (w ++ d ∷ rest) ≡ some (w, rest)
unfolding split_once
split_once-cons d [] rest h = rw (eq_self d, split_once)
split_once-cons d (c ∷ w) rest h =
    rw (eq_ne c d h.0, split_once) (rw (split_once-cons d w rest h.1))

pub split_once-Lacks : (d : ℕ) (w : Text) → Lacks d w → split_once d w ≡ none
unfolding split_once
split_once-Lacks d [] h = refl
split_once-Lacks d (c ∷ w) h = rw (eq_ne c d h.0, split_once) (rw (split_once-Lacks d w h.1))

-- Only the last character matters.
pub ends_with-append : (d : ℕ) (s t : Text) → t ≢ [] → ends_with d (s ++ t) ≡ ends_with d t
unfolding ends_with
ends_with-append d [] t h = refl
ends_with-append d (c ∷ []) [] h = absurd (h refl)
ends_with-append d (c ∷ []) (e ∷ t) h = refl
ends_with-append d (c ∷ b ∷ s) t h = ends_with-append d (b ∷ s) t h

-- The test that a text lacks a character.
unfoldable pub lacks : ℕ → Text → Bool
lacks d [] = true
lacks d (c ∷ s) = not (c == d) && lacks d s

pub lacks-Lacks : (d : ℕ) (s : Text) → lacks d s ≡ true → Lacks d s
unfolding lacks
lacks-Lacks d [] h = tt
lacks-Lacks d (c ∷ s) h = (ground arith, lacks-Lacks d s (ground arith))
