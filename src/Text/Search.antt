-- ===== src/Text/Search.antt =====
-- Where `contains` finds a text, and `rsplit_once` the last separator.
use dnssec_tests.Base.{
  ℕ, true, false, ◌==◌, Bool-cases, inl, inr, [], ◌∷◌, ◌++◌, some, none, ◌≡◌, refl, arith,
}
use dnssec_tests.Text.{Text, contains, starts_with, strip_prefix, rsplit_once, rsplit_at}
use dnssec_tests.Text.Splits.{Lacks, eq_self}

-- The last separator ends the first part.
rsplit_once-Lacks : (d : ℕ) (w : Text) → Lacks d w → rsplit_once (d ∷ []) w ≡ none
unfolding rsplit_once rsplit_at strip_prefix
rsplit_once-Lacks d [] h = refl
rsplit_once-Lacks d (c ∷ w) h =
    let e : (d == c) ≡ false = ground (arith, h.0) in
    rw (rsplit_once-Lacks d w h.1, rsplit_at, e, strip_prefix)

pub rsplit_once-append :
    (d : ℕ) (before w : Text)
    → Lacks d w
    → rsplit_once (d ∷ []) (before ++ d ∷ w) ≡ some (before, w)
unfolding rsplit_once rsplit_at strip_prefix
rsplit_once-append d [] w h = rw (rsplit_once-Lacks d w h, rsplit_at, eq_self d, strip_prefix)
rsplit_once-append d (c ∷ before) w h = rw (rsplit_once-append d before w h, rsplit_at)

starts_with-append : (part after : Text) → starts_with part (part ++ after) ≡ true
unfolding starts_with
starts_with-append [] after = refl
starts_with-append (c ∷ part) after = rw (eq_self c) (starts_with-append part after)

contains-starts_with : (part s : Text) → starts_with part s ≡ true → contains part s ≡ true
unfolding contains
contains-starts_with part [] h = h
contains-starts_with part (c ∷ s) h = rw h

pub contains-append : (before part after : Text) → contains part (before ++ (part ++ after)) ≡ true
unfolding contains
contains-append [] part after =
    contains-starts_with part (part ++ after) (starts_with-append part after)
contains-append (c ∷ before) part after =
    elim (Bool-cases (starts_with part (c ∷ before ++ (part ++ after)))) [
      | inl here ↦ rw here
      | inr later ↦ rw later (contains-append before part after)
    ]
