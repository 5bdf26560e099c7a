-- ===== src/Conformance/Amend/Changes.antt =====
-- What the functions that change a record of a zone do: exactly one RRSIG record is changed.
use dnssec_tests.Base.{
  ℕ, ◌+◌, ◌⊎◌, inl, inr, ◌++◌, Bool, true, false, Bool-cases, List, [], ◌∷◌, ◌≡◌, ◌↔◌, refl, sym,
  ◌∙◌, ap, arith, if◌then◌else◌, subst,
}
use dnssec_tests.Error.{Result, ok, ◌>>=◌, bind-eq-ok, ok-eq}
use dnssec_tests.Record.{Record}
use dnssec_tests.Record.Rrsig.{Rrsig}
use dnssec_tests.Conformance.Amend.{sanity_check, visit, modify, modify_one}
use dnssec_tests.Conformance.Amend.Exact.{NoneOf, sanity_check-eq-ok}

-- Whether a record is an RRSIG record that matches.
unfoldable pub is_match : (Rrsig → Bool) → Record → Bool
is_match matches (Record.rrsig v) = matches v
is_match matches _ = false

-- One record matches, and it is changed.
pub record Changed (matches : Rrsig → Bool) (change : Rrsig → Result Rrsig)
    (records amended : List Record) : Type 0 where
  pub before : List Record
  pub old : Rrsig
  pub new : Rrsig
  pub after : List Record
  pub records_eq : records ≡ before ++ Record.rrsig old ∷ after
  pub amended_eq : amended ≡ before ++ Record.rrsig new ∷ after
  pub old_matches : matches old ≡ true
  pub changed : change old ≡ ok new
  pub none_before : NoneOf (is_match matches) before
  pub none_after : NoneOf (is_match matches) after

visit-other :
    (matches : Rrsig → Bool) (change : Rrsig → Result Rrsig) (r : Record)
    → is_match matches r ≡ false
    → visit matches change r ≡ ok (r, 0)
unfolding is_match visit
visit-other matches change (Record.rrsig v) h = rw (h, if◌then◌else◌)
visit-other matches change _ h = refl

visit-hit :
    (matches : Rrsig → Bool) (change : Rrsig → Result Rrsig) (v w : Rrsig)
    → matches v ≡ true
    → change v ≡ ok w
    → visit matches change (Record.rrsig v) ≡ ok (Record.rrsig w, 1)
unfolding visit
visit-hit matches change v w h c = rw (h, if◌then◌else◌, c, ◌>>=◌)

abbrev Hit : (Rrsig → Bool) → (Rrsig → Result Rrsig) → Record → Record → Type 0
Hit matches change r changed =
    (v : Rrsig) × (w : Rrsig) × (r ≡ Record.rrsig v)
    × (changed ≡ Record.rrsig w)
    × (matches v ≡ true)
    × (change v ≡ ok w)

abbrev Visited : (Rrsig → Bool) → (Rrsig → Result Rrsig) → Record → Record → ℕ → Type 0
Visited matches change r changed hits =
    ((hits ≡ 0) × (changed ≡ r) × (is_match matches r ≡ false))
    ⊎ ((hits ≡ 1) × Hit matches change r changed)

kept-Visited :
    (matches : Rrsig → Bool) (change : Rrsig → Result Rrsig) (r changed : Record) (hits : ℕ)
    → is_match matches r ≡ false
    → visit matches change r ≡ ok (changed, hits)
    → Visited matches change r changed hits
kept-Visited matches change r changed hits h e =
    let k : (r, 0) ≡ (changed, hits) = ok-eq (sym (visit-other matches change r h) ∙ e) in
    inl (sym (ap (λ p. p.1) k), sym (ap (λ p. p.0) k), h)

visit-Visited :
    (matches : Rrsig → Bool) (change : Rrsig → Result Rrsig) (r changed : Record) (hits : ℕ)
    → visit matches change r ≡ ok (changed, hits)
    → Visited matches change r changed hits
unfolding visit is_match
visit-Visited matches change (Record.rrsig v) changed hits e = elim (Bool-cases (matches v)) [
  | inl h ↦
      let f : (change v >>= λ w. ok (Record.rrsig w, 1)) ≡ ok (changed, hits) =
        rw (h, if◌then◌else◌) at e in
      let (w, c, k) = bind-eq-ok (change v) _ f in
      let same : (Record.rrsig w, 1) ≡ (changed, hits) = ok-eq k in
      inr (sym (ap (λ p. p.1) same), (v, w, refl, sym (ap (λ p. p.0) same), h, c))
  | inr h ↦ kept-Visited matches change (Record.rrsig v) changed hits h e
]
visit-Visited matches change r changed hits e = kept-Visited matches change r changed hits refl e

-- The number of matching records that the loop counts, one after another.
modify-cons :
    (matches : Rrsig → Bool) (change : Rrsig → Result Rrsig) (r : Record) (rs amended : List Record)
    (count : ℕ)
    → modify matches change (r ∷ rs) ≡ ok (amended, count)
    → (changed : Record) × (hits : ℕ) × (others : List Record) × (more : ℕ) × Visited matches change
        r changed hits
      × (modify matches change rs ≡ ok (others, more))
      × (amended ≡ changed ∷ others)
      × (count ≡ hits + more)
unfolding modify
modify-cons matches change r rs amended count e =
    let ((changed, hits), v, e') = bind-eq-ok (visit matches change r) _ e in
    let ((others, more), m, e'') = bind-eq-ok (modify matches change rs) _ e' in
    let same : (changed ∷ others, hits + more) ≡ (amended, count) = ok-eq e'' in
    (
      changed,
      hits,
      others,
      more,
      visit-Visited matches change r changed hits v,
      m,
      sym (ap (λ p. p.0) same),
      sym (ap (λ p. p.1) same),
    )

modify-zero :
    (matches : Rrsig → Bool) (change : Rrsig → Result Rrsig) (rs amended : List Record) (count : ℕ)
    → count ≡ 0
    → modify matches change rs ≡ ok (amended, count)
    → NoneOf (is_match matches) rs × (amended ≡ rs)
unfolding modify
modify-zero matches change [] amended count z e = (tt, sym (ap (λ p. p.0) (ok-eq e)))
modify-zero matches change (r ∷ rs) amended count z e =
    let (changed, hits, others, more, v, m, a, c) =
      modify-cons matches change r rs amended count e in
    elim v [
      | inl (no_hit, same, none) ↦
          let (none_after, rest) = modify-zero matches change rs others more (omega arith) m in
          ((none, none_after), a ∙ ap (λ r. r ∷ others) same ∙ ap (λ rs. r ∷ rs) rest)
      | inr (one, _) ↦ absurd (omega arith)
    ]

Changed-cons :
    (matches : Rrsig → Bool) (change : Rrsig → Result Rrsig) (r : Record) (rs others : List Record)
    → is_match matches r ≡ false
    → Changed matches change rs others
    → Changed matches change (r ∷ rs) (r ∷ others)
Changed-cons matches change r rs others none h = record {
  before = r ∷ h.before;
  old = h.old;
  new = h.new;
  after = h.after;
  records_eq = ap (λ rs. r ∷ rs) h.records_eq;
  amended_eq = ap (λ rs. r ∷ rs) h.amended_eq;
  old_matches = h.old_matches;
  changed = h.changed;
  none_before = (none, h.none_before);
  none_after = h.none_after;
}

modify-Changed :
    (matches : Rrsig → Bool) (change : Rrsig → Result Rrsig) (rs amended : List Record) (count : ℕ)
    → count ≡ 1
    → modify matches change rs ≡ ok (amended, count)
    → Changed matches change rs amended
unfolding modify
modify-Changed matches change [] amended count z e =
    let same : 0 ≡ count = ap (λ p. p.1) (ok-eq e) in absurd (omega arith)
modify-Changed matches change (r ∷ rs) amended count z e =
    let (changed, hits, others, more, v, m, a, c) =
      modify-cons matches change r rs amended count e in
    elim v [
      | inl (no_hit, same, none) ↦
          let rest = modify-Changed matches change rs others more (omega arith) m in
          subst (Changed matches change (r ∷ rs)) (sym (a ∙ ap (λ r. r ∷ others) same))
            (Changed-cons matches change r rs others none rest)
      | inr (one, (old, new, old_eq, new_eq, h, w)) ↦
          let (none_after, rest) = modify-zero matches change rs others more (omega arith) m in
          record {
            before = [];
            old = old;
            new = new;
            after = rs;
            records_eq = ap (λ r. r ∷ rs) old_eq;
            amended_eq = a ∙ ap (λ r. r ∷ others) new_eq ∙ ap (λ rs. Record.rrsig new ∷ rs) rest;
            old_matches = h;
            changed = w;
            none_before = tt;
            none_after = none_after;
          }
    ]

modify-NoneOf :
    (matches : Rrsig → Bool) (change : Rrsig → Result Rrsig) (rs : List Record)
    → NoneOf (is_match matches) rs
    → modify matches change rs ≡ ok (rs, 0)
unfolding modify
modify-NoneOf matches change [] h = refl
modify-NoneOf matches change (r ∷ rs) h =
    rw (visit-other matches change r h.0, ◌>>=◌, modify-NoneOf matches change rs h.1, ◌>>=◌)

modify-at :
    (matches : Rrsig → Bool) (change : Rrsig → Result Rrsig) (before : List Record)
    (old new : Rrsig) (after : List Record)
    → NoneOf (is_match matches) before
    → matches old ≡ true
    → change old ≡ ok new
    → NoneOf (is_match matches) after
    → modify matches change (before ++ Record.rrsig old ∷ after)
      ≡ ok (before ++ Record.rrsig new ∷ after, 1)
unfolding modify
modify-at matches change [] old new after nb h c na =
    rw (visit-hit matches change old new h c, ◌>>=◌, modify-NoneOf matches change after na, ◌>>=◌)
modify-at matches change (r ∷ before) old new after nb h c na = rw (
  visit-other matches change r nb.0,
  ◌>>=◌,
  modify-at matches change before old new after nb.1 h c na,
  ◌>>=◌,
)

-- Changing one record succeeds exactly when one RRSIG record matches and it can be changed, and all
-- other records stay as they are, in place.
pub modify_one_iff :
    (matches : Rrsig → Bool) (change : Rrsig → Result Rrsig) (records amended : List Record)
    → (modify_one matches change records ≡ ok amended) ↔ Changed matches change records amended
unfolding modify_one
modify_one_iff matches change records amended = (
  (λ e.
      let (found, m, s) = bind-eq-ok (modify matches change records) sanity_check e in
      modify-Changed matches change records amended 1 refl
        (m ∙ ap ok (sanity_check-eq-ok found amended s))),
  (λ h.
      ap (λ rs. modify matches change rs >>= sanity_check) h.records_eq
      ∙ ap (λ m. m >>= sanity_check)
          (modify-at matches change h.before h.old h.new h.after h.none_before h.old_matches
            h.changed h.none_after)
      ∙ ap ok (sym h.amended_eq)),
)
