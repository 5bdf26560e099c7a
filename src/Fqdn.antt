-- ===== src/Fqdn.antt =====
-- packages/dns-test/src/fqdn.rs: fully qualified domain names. The text is a value here: whether
-- the source's `Cow` borrows it or owns it changes nothing that can be observed.
pub mod Labels
pub mod Names
pub mod Parent
pub mod Ancestors
use dnssec_tests.Base.{
  ℕ, zero, suc, Bool, true, false, not, ◌&&◌, Option, none, some, List, [], ◌∷◌, if◌then◌else◌,
  length,
}
use dnssec_tests.Text.{
  Text, codes, equal, is_empty, starts_with, ends_with, split_once, split, is_empty,
}
use dnssec_tests.Error.{Error, message, Result, ok, err, panic, ◌>>=◌, ◌>>◌}

pub record Fqdn : Type 0 where
  pub inner : Text

-- The function `FQDN`, which checks the text.
unfoldable pub fqdn : Text → Result Fqdn
unfolding ends_with starts_with equal
fqdn input =
    if not (ends_with b'.' input)
    then err (message (codes "FQDN must end with a `.`"))
    else if not (equal input (codes ".")) && starts_with (codes ".") input
    then err (message (codes "non-root FQDN cannot start with a `.`"))
    else ok (record { inner = input })

abbrev pub root : Fqdn
root = record { inner = codes "." }

abbrev pub com_zone : Fqdn
com_zone = record { inner = codes "com." }

abbrev pub nameservers : Fqdn
nameservers = record { inner = codes "nameservers.com." }

-- `PartialEq` of `FQDN`, derived.
unfoldable pub eq : Fqdn → Fqdn → Bool
unfolding equal
eq a b = equal a.inner b.inner

unfoldable pub is_root : Fqdn → Bool
unfolding equal
is_root name = equal name.inner (codes ".")

-- `Result::unwrap`.
abbrev pub unwrap {ℓ} : {A : Type ℓ} → Result A → Result A
unwrap (ok a) = ok a
unwrap (err e) = panic (codes "called `Result::unwrap()` on an `Err` value")
unwrap (panic m) = panic m

-- The two parts of the name at its first dot.
pub parent_of_parts : Option (Text × Text) → Result (Option Fqdn)
unfolding fqdn
parent_of_parts none = panic (codes "called `Option::unwrap()` on a `None` value")
parent_of_parts (some (fragment, parent)) =
    if is_empty fragment
    then ok none
    else if is_empty parent
    then ok (some root)
    else (do name ← unwrap (fqdn parent); ok (some name))

unfoldable pub parent : Fqdn → Result (Option Fqdn)
unfolding parent_of_parts split_once
parent name = parent_of_parts (split_once b'.' name.inner)

-- `filter(|label| !label.is_empty()).count()`.
pub count_labels : List Text → ℕ
count_labels [] = 0
count_labels (l ∷ ls) = if is_empty l then count_labels ls else suc (count_labels ls)

unfoldable pub num_labels : Fqdn → ℕ
unfolding count_labels split
num_labels name = count_labels (split b'.' name.inner)

unfoldable pub from_str : Text → Result Fqdn
unfolding fqdn
from_str input = fqdn input

abbrev pub to_string : Fqdn → Text
to_string name = name.inner
