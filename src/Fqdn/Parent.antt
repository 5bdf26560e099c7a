-- ===== src/Fqdn/Parent.antt =====
-- Which names are lists of labels, and the accepted names for which `parent` panics.
use dnssec_tests.Base.{
  ℕ, true, false, List, [], ◌∷◌, ◌++◌, ◌≡◌, ◌≢◌, ◌⊎◌, inl, inr, refl, ap, ◌∙◌, subst, arith, All,
  ◌==◌, Bool-cases,
}
use dnssec_tests.Text.{Text, codes, equal, starts_with, ends_with}
use dnssec_tests.Text.Equality.{equal_iff}
use dnssec_tests.Text.Splits.{Lacks, split_once-cons, ends_with-append}
use dnssec_tests.Error.{ok, panic}
use dnssec_tests.Fqdn.{Fqdn, fqdn, unwrap, parent_of_parts, parent}
use dnssec_tests.Fqdn.Labels.{IsLabel, dotted, of_labels}

-- No two dots stand next to each other.
abbrev pub NoEmptyLabel : Text → Type 0
NoEmptyLabel [] = Unit
NoEmptyLabel (c ∷ []) = Unit
NoEmptyLabel (c ∷ d ∷ s) = ((c ≢ b'.') ⊎ (d ≢ b'.')) × NoEmptyLabel (d ∷ s)

-- A text that ends in a dot, cut into the label in front and the labels behind its first dot.
record Cut (s : Text) : Type 0 where
  first : Text
  rest : List Text
  spells : s ≡ first ++ b'.' ∷ dotted rest
  no_dot : Lacks b'.' first
  labels : All IsLabel rest

Cut-dot : (s : Text) → Cut s → (c : ℕ) → c ≡ b'.' → s ≢ [] → NoEmptyLabel (c ∷ s) → Cut (c ∷ s)
Cut-dot [] k c e h n = absurd (h refl)
Cut-dot (d ∷ s) k c e h n = go k.first k.spells k.no_dot
  where
    go : (f : Text) → d ∷ s ≡ f ++ b'.' ∷ dotted k.rest → Lacks b'.' f → Cut (c ∷ d ∷ s)
    go [] q l = absurd (ground (arith, n.0))
    go (x ∷ f) q l = record {
      first = [];
      rest = (x ∷ f) ∷ k.rest;
      spells = cc;
      no_dot = tt;
      labels = (record { ne_nil = cc; no_dot = l }, k.labels);
    }

cut : (s : Text) → ends_with b'.' s ≡ true → NoEmptyLabel s → Cut s
unfolding ends_with
cut [] e n = cc
cut (c ∷ []) e n = record { first = []; rest = []; spells = ground arith; no_dot = tt; labels = tt }
cut (c ∷ d ∷ s) e n = elim (Bool-cases (c == b'.')) [
  | inl dot ↦ Cut-dot (d ∷ s) (cut (d ∷ s) e n.1) c (ground arith) (cc) n
  | inr other ↦
      let k = cut (d ∷ s) e n.1 in
      record {
        first = c ∷ k.first;
        rest = k.rest;
        spells = ap (λ t. c ∷ t) k.spells;
        no_dot = (ground arith, k.no_dot);
        labels = k.labels;
      }
]

pub fqdn-eq-ok :
    (s : Text) (name : Fqdn)
    → fqdn s ≡ ok name
    → (name.inner ≡ s)
      × (ends_with b'.' s ≡ true)
      × ((equal s (codes ".") ≡ true) ⊎ (starts_with (codes ".") s ≡ false))
unfolding fqdn
fqdn-eq-ok s name e = ground arith

name-inner : (name : Fqdn) (s t : Text) → name.inner ≡ s → s ≡ t → name ≡ record { inner = t }
name-inner name s t i e = ap (λ u. record { inner = u }) (i ∙ e)

labels_of_cut :
    (s : Text) (name : Fqdn) (first : Text) (rest : List Text)
    → s ≡ first ++ b'.' ∷ dotted rest
    → name.inner ≡ s
    → (equal s (codes ".") ≡ true) ⊎ (starts_with (codes ".") s ≡ false)
    → Lacks b'.' first
    → All IsLabel rest
    → (ls : List Text) × All IsLabel ls × (name ≡ of_labels ls)
labels_of_cut s name [] [] e i shape l h = ([], tt, name-inner name s (codes ".") i e)
labels_of_cut s name [] ([] ∷ ls) e i shape l h = absurd (h.0.ne_nil refl)
labels_of_cut s name [] ((c ∷ m) ∷ ls) e i (inl same) l h =
    absurd (cc ((equal_iff s (codes ".")).0 same, e))
labels_of_cut s name [] ((c ∷ m) ∷ ls) e i (inr other) l h =
    absurd (unfold starts_with in cc (subst (λ t. starts_with (codes ".") t ≡ false) e other))
labels_of_cut s name (c ∷ f) ls e i shape l h =
    ((c ∷ f) ∷ ls, (record { ne_nil = cc; no_dot = l }, h), name-inner name s _ i e)

-- Every accepted name with no two dots next to each other is the name of a list of labels.
pub fqdn-labels :
    (s : Text) {name : Fqdn}
    → fqdn s ≡ ok name
    → NoEmptyLabel s
    → (ls : List Text) × All IsLabel ls × (name ≡ of_labels ls)
fqdn-labels s {name} e n =
    let (i, d, shape) = fqdn-eq-ok s name e in
    let k = cut s d n in labels_of_cut s name k.first k.rest k.spells i shape k.no_dot k.labels

starts_with-label : (l s : Text) → l ≢ [] → Lacks b'.' l → starts_with (codes ".") (l ++ s) ≡ false
unfolding starts_with
starts_with-label [] s h n = absurd (h refl)
starts_with-label (c ∷ l) s h n = let e : (b'.' == c) ≡ false = ground (arith, n.0) in rw e

fqdn-doubled :
    (l s : Text)
    → l ≢ []
    → Lacks b'.' l
    → ends_with b'.' s ≡ true
    → s ≢ []
    → fqdn (l ++ b'.' ∷ b'.' ∷ s) ≡ ok (record { inner = l ++ b'.' ∷ b'.' ∷ s })
unfolding fqdn
fqdn-doubled l s h n e ne =
    let d : ends_with b'.' (l ++ b'.' ∷ b'.' ∷ s) ≡ true =
      ends_with-append b'.' l (b'.' ∷ b'.' ∷ s) (cc)
      ∙ ends_with-append b'.' (b'.' ∷ b'.' ∷ []) s ne
      ∙ e in
    ground (arith, d, starts_with-label l (b'.' ∷ b'.' ∷ s) h n)

fqdn-dot :
    (s : Text)
    → s ≢ []
    → ends_with b'.' s ≡ true
    → unwrap (fqdn (b'.' ∷ s)) ≡ panic (codes "called `Result::unwrap()` on an `Err` value")
unfolding fqdn starts_with
fqdn-dot [] ne e = absurd (ne refl)
fqdn-dot (c ∷ s) ne e =
    let d : ends_with b'.' (b'.' ∷ c ∷ s) ≡ true = unfold ends_with in e in
    let q : equal (b'.' ∷ c ∷ s) (codes ".") ≡ false = unfold equal in ground arith in
    ground (arith, d, q)

-- A name whose first two labels stand around an empty one is accepted, and `parent` panics on it:
-- what it takes for the parent begins with a dot.
pub parent_panics :
    (l s : Text)
    → IsLabel l
    → s ≢ []
    → ends_with b'.' s ≡ true
    → (name : Fqdn) × (fqdn (l ++ b'.' ∷ b'.' ∷ s) ≡ ok name)
      × (parent name ≡ panic (codes "called `Result::unwrap()` on an `Err` value"))
unfolding parent parent_of_parts
parent_panics [] s h ne e = absurd (h.ne_nil refl)
parent_panics (c ∷ l) s h ne e = (
  record { inner = (c ∷ l) ++ b'.' ∷ b'.' ∷ s },
  fqdn-doubled (c ∷ l) s h.ne_nil h.no_dot e ne,
  rw (split_once-cons b'.' (c ∷ l) (b'.' ∷ s) h.no_dot, parent_of_parts, fqdn-dot s ne e),
)
