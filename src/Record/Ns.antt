-- ===== src/Record/Ns.antt =====
-- The NS records of packages/dns-test/src/record.rs, and their way through the printer and the
-- parser.
use dnssec_tests.Base.{ℕ, ◌≤◌, List, [], ◌∷◌, ◌≡◌, refl, ◌∙◌, ap, All}
use dnssec_tests.Text.{Text, codes, format, split_whitespace, is_whitespace}
use dnssec_tests.Text.Columns.{
  IsWord, done, Row, row, tab, is_word, is_word-IsWord, split_whitespace-Row,
  split_whitespace-IsWord,
}
use dnssec_tests.Error.{
  message, Result, ok, err, ◌>>=◌, ◌>>◌, Ensures, Ensures-bind, Ensures-ok, Ensures-check,
  Ensures-err,
}
use dnssec_tests.Uint.{u32_max, parse_uint, uint_to_string}
use dnssec_tests.Uint.RoundTrip.{uint_to_string-IsWord, parse_uint-to_string, parse_uint-Ensures}
use dnssec_tests.Fqdn
use dnssec_tests.Fqdn.{Fqdn}
use dnssec_tests.Fqdn.Names
use dnssec_tests.Fqdn.Names.{IsName, from_str-inner}
use dnssec_tests.Record.Common.{class, check_class, check_record_type, unqualified_type_name}

pub record Ns : Type 0 where
  pub zone : Fqdn
  pub ttl : ℕ
  pub nameserver : Fqdn

abbrev type_name : Text
type_name = codes "dns_test::record::NS"

unfoldable pub from_columns : List Text → Result Ns
unfolding check_class check_record_type
from_columns (zone ∷ ttl ∷ class ∷ record_type ∷ nameserver ∷ []) = do
  check_record_type type_name record_type
  check_class class
  zone ← Fqdn.from_str zone
  ttl ← parse_uint u32_max ttl
  nameserver ← Fqdn.from_str nameserver
  ok (record { zone = zone; ttl = ttl; nameserver = nameserver })
from_columns _ = err (message (codes "expected 5 columns"))

unfoldable pub from_str : Text → Result Ns
unfolding from_columns split_whitespace
from_str input = from_columns (split_whitespace input)

unfoldable pub to_string : Ns → Text
to_string ns = format (
    ns.zone.inner
    ∷ codes "\t"
    ∷ uint_to_string ns.ttl
    ∷ codes "\t"
    ∷ class
    ∷ codes "\t"
    ∷ unqualified_type_name type_name
    ∷ codes "\t"
    ∷ ns.nameserver.inner
    ∷ [])

pub record IsValid (ns : Ns) : Type 0 where
  pub zone : IsName ns.zone
  pub ttl : ns.ttl ≤ u32_max
  pub nameserver : IsName ns.nameserver

abbrev pub columns : Ns → List Text
columns ns = ns.zone.inner ∷ uint_to_string ns.ttl ∷ class ∷ codes "NS" ∷ ns.nameserver.inner ∷ []

pub to_string-Row : (ns : Ns) → IsValid ns → Row (to_string ns) (columns ns)
unfolding to_string unqualified_type_name is_word is_whitespace
to_string-Row ns v = row _ v.zone.word (
    tab _ (uint_to_string-IsWord ns.ttl) (
      tab class (is_word-IsWord _ refl)
        (tab (codes "NS") (is_word-IsWord _ refl) (tab _ v.nameserver.word done))))

from_columns-columns : (ns : Ns) → IsValid ns → from_columns (columns ns) ≡ ok ns
unfolding from_columns
from_columns-columns ns v = rw (
  from_str-inner ns.zone v.zone,
  parse_uint-to_string u32_max ns.ttl v.ttl,
  from_str-inner ns.nameserver v.nameserver,
)

-- A valid record is read back from its print.
pub from_str-to_string : (ns : Ns) → IsValid ns → from_str (to_string ns) ≡ ok ns
unfolding from_str
from_str-to_string ns v =
    ap from_columns (split_whitespace-Row (to_string-Row ns v)) ∙ from_columns-columns ns v

from_columns-Ensures : (cs : List Text) → All IsWord cs → Ensures IsValid (from_columns cs)
unfolding from_columns
from_columns-Ensures (zone ∷ ttl ∷ c ∷ record_type ∷ nameserver ∷ []) h =
    Ensures-check (check_record_type type_name record_type) (
      Ensures-check (check_class c) (
        Ensures-bind (Names.from_str-Ensures h.0) λ x0 h0.
          Ensures-bind (parse_uint-Ensures u32_max ttl) λ x1 h1.
            Ensures-bind (Names.from_str-Ensures h.1.1.1.1.0)
              λ x2 h2. Ensures-ok _ (record { zone = h0; ttl = h1; nameserver = h2 })))
from_columns-Ensures _ h = Ensures-err _

-- What is read as a record is valid.
pub from_str-Ensures : (s : Text) → Ensures IsValid (from_str s)
unfolding from_str
from_str-Ensures s = from_columns-Ensures (split_whitespace s) (split_whitespace-IsWord s)
