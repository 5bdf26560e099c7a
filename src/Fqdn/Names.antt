-- ===== src/Fqdn/Names.antt =====
-- Domain names that stand in one column of a record.
use dnssec_tests.Base.{◌≡◌, sym, subst, arith}
use dnssec_tests.Text.{Text}
use dnssec_tests.Text.Columns.{IsWord}
use dnssec_tests.Error.{ok, Ensures}
use dnssec_tests.Fqdn.{Fqdn, fqdn, from_str}

-- A name that `FQDN` accepts and that holds no white space.
pub record IsName (name : Fqdn) : Type 0 where
  pub accepted : fqdn name.inner ≡ ok name
  pub word : IsWord name.inner

fqdn-inner : (s : Text) (name : Fqdn) → fqdn s ≡ ok name → name.inner ≡ s
unfolding fqdn
fqdn-inner s name e = ground arith

pub from_str-inner : (name : Fqdn) → IsName name → from_str name.inner ≡ ok name
unfolding from_str
from_str-inner name h = h.accepted

-- A name that is read from a column.
pub from_str-Ensures : {s : Text} → IsWord s → Ensures IsName (from_str s)
unfolding from_str
from_str-Ensures {s} h = record {
  holds = λ name e.
      let i = fqdn-inner s name e in
      record { accepted = subst (λ t. fqdn t ≡ ok name) (sym i) e; word = subst IsWord (sym i) h };
}
