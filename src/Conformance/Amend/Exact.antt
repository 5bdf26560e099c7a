-- ===== src/Conformance/Amend/Exact.antt =====
-- What the functions that spoil a zone do to its records: exactly one record is removed or changed.
use dnssec_tests.Base.{
  ℕ, suc, ◌++◌, Bool, true, false, Bool-cases, inl, inr, List, [], ◌∷◌, ◌≡◌, ◌↔◌, refl, sym, ◌∙◌,
  ap, arith, All, subst, ==_iff, if◌then◌else◌,
}
use dnssec_tests.Error.{ok}
use dnssec_tests.Record.{Record}
use dnssec_tests.Conformance.Amend.{remove, sanity_check, remove_one}

abbrev pub NoneOf : (Record → Bool) → List Record → Type 0
NoneOf test = All (λ r. test r ≡ false)

-- One record passes the test, and it is missing behind.
pub record Removed (test : Record → Bool) (records kept : List Record) : Type 0 where
  pub before : List Record
  pub removed : Record
  pub after : List Record
  pub records_eq : records ≡ before ++ removed ∷ after
  pub kept_eq : kept ≡ before ++ after
  pub passes : test removed ≡ true
  pub none_before : NoneOf test before
  pub none_after : NoneOf test after

remove-NoneOf :
    (test : Record → Bool) (rs : List Record) → NoneOf test rs → remove test rs ≡ (rs, 0)
unfolding remove
remove-NoneOf test [] h = refl
remove-NoneOf test (r ∷ rs) h = rw (h.0, remove-NoneOf test rs h.1, if◌then◌else◌)

NoneOf-remove :
    (test : Record → Bool) (rs kept : List Record)
    → remove test rs ≡ (kept, 0)
    → NoneOf test rs × (kept ≡ rs)
unfolding remove
NoneOf-remove test [] kept e = (tt, sym (ap (λ p. p.0) e))
NoneOf-remove test (r ∷ rs) kept e = elim (Bool-cases (test r)) [
  | inl passes ↦
      let h : ((remove test rs).0, suc (remove test rs).1) ≡ (kept, 0) =
        rw (passes, if◌then◌else◌) at e in
      absurd (cc)
  | inr fails ↦
      let h : (r ∷ (remove test rs).0, (remove test rs).1) ≡ (kept, 0) =
        rw (fails, if◌then◌else◌) at e in
      let count : (remove test rs).1 ≡ 0 = ap (λ p. p.1) h in
      let (none, same) =
        NoneOf-remove test rs (remove test rs).0 (ap (λ c. ((remove test rs).0, c)) count) in
      ((fails, none), sym (ap (λ p. p.0) h) ∙ ap (λ rs. r ∷ rs) same)
]

Removed-here :
    (test : Record → Bool) (r : Record) (rs kept : List Record)
    → test r ≡ true
    → remove test rs ≡ (kept, 0)
    → Removed test (r ∷ rs) kept
Removed-here test r rs kept passes e =
    let (none, same) = NoneOf-remove test rs kept e in
    record {
      before = [];
      removed = r;
      after = rs;
      records_eq = refl;
      kept_eq = same;
      passes = passes;
      none_before = tt;
      none_after = none;
    }

Removed-cons :
    (test : Record → Bool) (r : Record) (rs kept : List Record)
    → test r ≡ false
    → Removed test rs kept
    → Removed test (r ∷ rs) (r ∷ kept)
Removed-cons test r rs kept fails h = record {
  before = r ∷ h.before;
  removed = h.removed;
  after = h.after;
  records_eq = ap (λ rs. r ∷ rs) h.records_eq;
  kept_eq = ap (λ rs. r ∷ rs) h.kept_eq;
  passes = h.passes;
  none_before = (fails, h.none_before);
  none_after = h.none_after;
}

remove-Removed :
    (test : Record → Bool) (rs kept : List Record)
    → remove test rs ≡ (kept, 1)
    → Removed test rs kept
unfolding remove
remove-Removed test [] kept e = cc
remove-Removed test (r ∷ rs) kept e = elim (Bool-cases (test r)) [
  | inl passes ↦
      let h : ((remove test rs).0, suc (remove test rs).1) ≡ (kept, 1) =
        rw (passes, if◌then◌else◌) at e in
      let one_count : suc (remove test rs).1 ≡ 1 = ap (λ p. p.1) h in
      let count : (remove test rs).1 ≡ 0 = omega arith in
      Removed-here test r rs kept passes
        (ap (λ c. ((remove test rs).0, c)) count ∙ ap (λ k. (k, 0)) (ap (λ p. p.0) h))
  | inr fails ↦
      let h : (r ∷ (remove test rs).0, (remove test rs).1) ≡ (kept, 1) =
        rw (fails, if◌then◌else◌) at e in
      let count : (remove test rs).1 ≡ 1 = ap (λ p. p.1) h in
      let rest =
        remove-Removed test rs (remove test rs).0 (ap (λ c. ((remove test rs).0, c)) count) in
      subst (Removed test (r ∷ rs)) (ap (λ p. p.0) h) (Removed-cons test r rs _ fails rest)
]

remove-at :
    (test : Record → Bool) (before : List Record) (r : Record) (after : List Record)
    → NoneOf test before
    → test r ≡ true
    → NoneOf test after
    → remove test (before ++ r ∷ after) ≡ (before ++ after, 1)
unfolding remove
remove-at test [] r after nb passes na = rw (passes, remove-NoneOf test after na, if◌then◌else◌)
remove-at test (b ∷ before) r after nb passes na =
    rw (nb.0, remove-at test before r after nb.1 passes na, if◌then◌else◌)

pub sanity_check-eq-ok :
    (found : List Record × ℕ) (records : List Record)
    → sanity_check found ≡ ok records
    → found ≡ (records, 1)
sanity_check-eq-ok (rs, count) records e = ground (arith, ==_iff count 1)

-- Removing one record succeeds exactly when one record passes the test, and it removes that one.
pub remove_one_iff :
    (test : Record → Bool) (records kept : List Record)
    → (remove_one test records ≡ ok kept) ↔ Removed test records kept
unfolding remove_one
remove_one_iff test records kept = (
  (λ e. remove-Removed test records kept (sanity_check-eq-ok (remove test records) kept e)),
  (λ h.
      ap (λ rs. sanity_check (remove test rs)) h.records_eq
      ∙ ap sanity_check
          (remove-at test h.before h.removed h.after h.none_before h.passes h.none_after)
      ∙ ap ok (sym h.kept_eq)),
)
