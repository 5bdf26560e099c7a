-- ===== src/Fqdn/Ancestors.antt =====
-- The lengths of a name and its parent, for the loops over the parents of a name in
-- packages/dns-test/src.
use dnssec_tests.Base.{
  refl, subst, All, ℕ, suc, ◌+◌, ◌<◌, ◌==◌, false, Option, none, some, [], ◌∷◌, length, ◌≡◌, sym,
  ap, ◌∙◌, arith, Bool-cases, inl, inr, Option-cases,
}
use dnssec_tests.Text.{is_whitespace, Text, split_once}
use dnssec_tests.Error.{
  Result, ok, err, panic, bind-eq-ok, Ensures, Ensures-ok, Ensures-bind, Ensures-panic,
}
use dnssec_tests.Text.Columns.{IsWord, is_word, is_word-IsWord}
use dnssec_tests.Fqdn.Names.{IsName}
use dnssec_tests.Fqdn.{Fqdn, fqdn, unwrap, root, parent, parent_of_parts}

split_once-length :
    (d : ℕ) (s f r : Text) → split_once d s ≡ some (f, r) → length f + suc (length r) ≡ length s
unfolding split_once
split_once-length d [] f r e = cc
split_once-length d (c ∷ s) f r e = elim (Bool-cases (c == d)) [
  | inl h ↦ ground (arith, h)
  | inr h ↦ elim (Option-cases (split_once d s)) [
    | inl n ↦ absurd (ground (arith, h, n))
    | inr ((f', r'), n) ↦
        let i = split_once-length d s f' r' n in
        let q : ◌≡◌ {A = Option (Text × Text)} (some (c ∷ f', r')) (some (f, r)) =
          rw (h, split_once, n) at e in
        ground arith
  ]
]

fqdn-inner : (s : Text) (name : Fqdn) → unwrap (fqdn s) ≡ ok name → name.inner ≡ s
unfolding fqdn
fqdn-inner s name e = ground arith

-- The text of a zone is longer than that of its parent.
pub parent-length :
    (name above : Fqdn) → parent name ≡ ok (some above) → length above.inner < length name.inner
unfolding parent parent_of_parts
parent-length name above e = elim (Option-cases (split_once b'.' name.inner)) [
  | inl n ↦ absurd (ground (arith, n))
  | inr ((f, r), n) ↦ parts f r (split_once-length b'.' name.inner f r n) (rw n at e)
]
  where
    parts :
        (f r : Text)
        → length f + suc (length r) ≡ length name.inner
        → parent_of_parts (some (f, r)) ≡ ok (some above)
        → length above.inner < length name.inner
    parts [] r l e = cc
    parts (c ∷ f) [] l e =
        let q : root ≡ above = ground arith in
        let w : length above.inner ≡ 1 = ap (λ n. length n.inner) (sym q) in omega arith
    parts (c ∷ f) (d ∷ r) l e =
        let (n, en, q) = bind-eq-ok (unwrap (fqdn (d ∷ r))) _ e in
        let same : n ≡ above = cc in
        let w : length above.inner ≡ length (d ∷ r) =
          ap (λ n. length n.inner) (sym same) ∙ ap length (fqdn-inner (d ∷ r) n en) in
        omega arith

second : (x y z w : Text) → ◌≡◌ {A = Option (Text × Text)} (some (x, z)) (some (y, w)) → z ≡ w
second x y z w e = cc

split_once-All :
    (d : ℕ) (s f r : Text)
    → split_once d s ≡ some (f, r)
    → All (λ c. is_whitespace c ≡ false) s
    → All (λ c. is_whitespace c ≡ false) r
unfolding split_once
split_once-All d [] f r e h = cc
split_once-All d (c ∷ s) f r e h = elim (Bool-cases (c == d)) [
  | inl k ↦
      let same : ◌≡◌ {A = Option (Text × Text)} (some ([], s)) (some (f, r)) =
        rw (k, split_once) at e in
      subst (All (λ c. is_whitespace c ≡ false)) (second [] f s r same) h.1
  | inr k ↦ elim (Option-cases (split_once d s)) [
    | inl n ↦ absurd (ground (arith, k, n))
    | inr ((f', r'), n) ↦
        let same : ◌≡◌ {A = Option (Text × Text)} (some (c ∷ f', r')) (some (f, r)) =
          rw (k, split_once, n) at e in
        subst (All (λ c. is_whitespace c ≡ false)) (second (c ∷ f') f r' r same)
          (split_once-All d s f' r' n h.1)
  ]
]

root-IsName : IsName root
unfolding fqdn is_word is_whitespace
root-IsName = record { accepted = refl; word = is_word-IsWord _ refl }

unwrap-accepted : (r : Text) (n : Fqdn) → unwrap (fqdn r) ≡ ok n → fqdn n.inner ≡ ok n
unwrap-accepted r n e = subst (λ t. fqdn t ≡ ok n) (sym (fqdn-inner r n e)) (unwrap-ok (fqdn r) e)
  where
    unwrap-ok : (m : Result Fqdn) → unwrap m ≡ ok n → m ≡ ok n
    unwrap-ok (ok v) e = e
    unwrap-ok (err v) e = cc
    unwrap-ok (panic v) e = cc

-- A zone above is a name with no white space.
abbrev pub IsAbove : Option Fqdn → Type 0
IsAbove none = Unit
IsAbove (some above) = IsName above

pub parent-IsAbove : (name : Fqdn) → IsName name → Ensures IsAbove (parent name)
unfolding parent parent_of_parts
parent-IsAbove name h = elim (Option-cases (split_once b'.' name.inner)) [
  | inl n ↦ rw n (Ensures-panic _)
  | inr ((f, r), n) ↦ rw n (parts f r (split_once-All b'.' name.inner f r n h.word.solid))
]
  where
    parts :
        (f r : Text)
        → All (λ c. is_whitespace c ≡ false) r
        → Ensures IsAbove (parent_of_parts (some (f, r)))
    parts [] r h = Ensures-ok none tt
    parts (c ∷ f) [] h = Ensures-ok (some root) root-IsName
    parts (c ∷ f) (d ∷ r) h =
        Ensures-bind
          (record {
            holds = λ n e. record {
              accepted = unwrap-accepted (d ∷ r) n e;
              word =
                  subst IsWord (sym (fqdn-inner (d ∷ r) n e)) (record { ne_nil = cc; solid = h });
            };
          })
          λ n k. Ensures-ok (some n) k
