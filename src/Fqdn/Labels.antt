-- ===== src/Fqdn/Labels.antt =====
-- Domain names as lists of labels, the abstract view of fqdn.rs, and what the operations do to it.
use dnssec_tests.Base.{
  suc, true, false, some, List, [], ◌∷◌, ◌++◌, ◌≡◌, ◌≢◌, refl, ap, ◌∙◌, arith, All, length, ◌==◌,
}
use dnssec_tests.Text.{Text, codes, is_empty, starts_with, ends_with, split}
use dnssec_tests.Text.Splits.{Lacks, split-cons, split_once-cons, ends_with-append}
use dnssec_tests.Error.{ok}
use dnssec_tests.Fqdn.{Fqdn, fqdn, root, parent_of_parts, parent, count_labels, num_labels}

-- A label is not empty and holds no dot.
pub record IsLabel (l : Text) : Type 0 where
  pub ne_nil : l ≢ []
  pub no_dot : Lacks b'.' l

-- Each label with a dot behind it.
abbrev pub dotted : List Text → Text
dotted [] = []
dotted (l ∷ ls) = l ++ b'.' ∷ dotted ls

-- The name with these labels, innermost first; without any it is the root.
abbrev pub of_labels : List Text → Fqdn
of_labels [] = root
of_labels (l ∷ ls) = record { inner = l ++ b'.' ∷ dotted ls }

ends_with-dotted : (l : Text) (ls : List Text) → ends_with b'.' (l ++ b'.' ∷ dotted ls) ≡ true
unfolding ends_with
ends_with-dotted l [] = ends_with-append b'.' l (b'.' ∷ []) (cc) ∙ refl
ends_with-dotted l (m ∷ ls) =
    ends_with-append b'.' l (b'.' ∷ (m ++ b'.' ∷ dotted ls)) (cc)
    ∙ ends_with-append b'.' (b'.' ∷ m) (b'.' ∷ dotted ls) (cc)
    ∙ ends_with-dotted [] ls

starts_with-label : (l s : Text) → IsLabel l → starts_with (codes ".") (l ++ s) ≡ false
unfolding starts_with
starts_with-label [] s h = absurd (h.ne_nil refl)
starts_with-label (c ∷ l) s h = let e : (b'.' == c) ≡ false = ground (arith, h.no_dot.0) in rw e

-- Every list of labels is accepted as a name.
pub fqdn-of_labels :
    (ls : List Text) → All IsLabel ls → fqdn (of_labels ls).inner ≡ ok (of_labels ls)
unfolding fqdn
fqdn-of_labels [] h = refl
fqdn-of_labels (l ∷ ls) h =
    ground (arith, ends_with-dotted l ls, starts_with-label l (b'.' ∷ dotted ls) h.0)

is_empty-label : (l : Text) → IsLabel l → is_empty l ≡ false
is_empty-label [] h = absurd (h.ne_nil refl)
is_empty-label (c ∷ l) h = refl

-- The parent drops the first label.
pub parent-of_labels :
    (l : Text) (ls : List Text)
    → IsLabel l
    → All IsLabel ls
    → parent (of_labels (l ∷ ls)) ≡ ok (some (of_labels ls))
unfolding parent parent_of_parts
parent-of_labels l [] h hs =
    rw (split_once-cons b'.' l [] h.no_dot, parent_of_parts, is_empty-label l h)
parent-of_labels l (m ∷ ls) h hs =
    rw (split_once-cons b'.' l (dotted (m ∷ ls)) h.no_dot, parent_of_parts, is_empty-label l h)
      (ground (arith, fqdn-of_labels (m ∷ ls) hs, is_empty-label m hs.0))

count_labels-split :
    (ls : List Text) → All IsLabel ls → count_labels (split b'.' (dotted ls)) ≡ length ls
unfolding count_labels
count_labels-split [] h = unfold split in refl
count_labels-split (l ∷ ls) h =
    rw (split-cons b'.' l (dotted ls) h.0.no_dot, count_labels, is_empty-label l h.0)
      (ap suc (count_labels-split ls h.1))

-- The number of labels is what it says.
pub num_labels-of_labels : (ls : List Text) → All IsLabel ls → num_labels (of_labels ls) ≡ length ls
unfolding num_labels
num_labels-of_labels [] h = unfold count_labels split in refl
num_labels-of_labels (l ∷ ls) h = count_labels-split (l ∷ ls) h
