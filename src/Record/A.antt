-- ===== src/Record/A.antt =====
-- The A records of packages/dns-test/src/record.rs, and their way through the printer and the parser.
use dnssec_tests.Base.{ℕ, ◌≤◌, List, [], ◌∷◌, ◌≡◌, refl, ◌∙◌, ap, All}
use dnssec_tests.Text.{Text, codes, format, split_whitespace, is_whitespace}
use dnssec_tests.Text.Columns.{
  IsWord, done, Row, row, tab, is_word, is_word-IsWord, split_whitespace-Row,
  split_whitespace-IsWord,
}
use dnssec_tests.Error.{
  message, Result, ok, err, ◌>>=◌, ◌>>◌, Ensures, Ensures-bind, Ensures-ok, Ensures-check,
  Ensures-err,
}
use dnssec_tests.Uint.{u32_max, parse_uint, uint_to_string}
use dnssec_tests.Uint.RoundTrip.{uint_to_string-IsWord, parse_uint-to_string, parse_uint-Ensures}
use dnssec_tests.Ipv4
use dnssec_tests.Ipv4.{Ipv4Addr}
use dnssec_tests.Fqdn
use dnssec_tests.Fqdn.{Fqdn}
use dnssec_tests.Fqdn.Names
use dnssec_tests.Fqdn.Names.{IsName, from_str-inner}
use dnssec_tests.Record.Common.{class, check_class, check_record_type, unqualified_type_name}

pub record A : Type 0 where
  pub fqdn : Fqdn
  pub ttl : ℕ
  pub ipv4_addr : Ipv4Addr

abbrev type_name : Text
type_name = codes "dns_test::record::A"

unfoldable pub from_columns : List Text → Result A
unfolding check_class check_record_type
from_columns (fqdn ∷ ttl ∷ class ∷ record_type ∷ ipv4_addr ∷ []) = do
  check_record_type type_name record_type
  check_class class
  fqdn ← Fqdn.from_str fqdn
  ttl ← parse_uint u32_max ttl
  ipv4_addr ← Ipv4.from_str ipv4_addr
  ok (record { fqdn = fqdn; ttl = ttl; ipv4_addr = ipv4_addr })
from_columns _ = err (message (codes "expected 5 columns"))

unfoldable pub from_str : Text → Result A
unfolding from_columns split_whitespace
from_str input = from_columns (split_whitespace input)

unfoldable pub to_string : A → Text
to_string a = format (
    a.fqdn.inner
    ∷ codes "\t"
    ∷ uint_to_string a.ttl
    ∷ codes "\t"
    ∷ class
    ∷ codes "\t"
    ∷ unqualified_type_name type_name
    ∷ codes "\t"
    ∷ Ipv4.to_string a.ipv4_addr
    ∷ [])

pub record IsValid (a : A) : Type 0 where
  pub fqdn : IsName a.fqdn
  pub ttl : a.ttl ≤ u32_max
  pub ipv4_addr : Ipv4.IsValid a.ipv4_addr

abbrev pub columns : A → List Text
columns a =
    a.fqdn.inner ∷ uint_to_string a.ttl ∷ class ∷ codes "A" ∷ Ipv4.to_string a.ipv4_addr ∷ []

pub to_string-Row : (a : A) → IsValid a → Row (to_string a) (columns a)
unfolding to_string unqualified_type_name is_word is_whitespace
to_string-Row a v = row _ v.fqdn.word (
    tab _ (uint_to_string-IsWord a.ttl) (
      tab class (is_word-IsWord _ refl)
        (tab (codes "A") (is_word-IsWord _ refl) (tab _ (Ipv4.to_string-IsWord a.ipv4_addr) done))))

from_columns-columns : (a : A) → IsValid a → from_columns (columns a) ≡ ok a
unfolding from_columns
from_columns-columns a v = rw (
  from_str-inner a.fqdn v.fqdn,
  parse_uint-to_string u32_max a.ttl v.ttl,
  Ipv4.from_str-to_string a.ipv4_addr v.ipv4_addr,
)

-- A valid record is read back from its print.
pub from_str-to_string : (a : A) → IsValid a → from_str (to_string a) ≡ ok a
unfolding from_str
from_str-to_string a v =
    ap from_columns (split_whitespace-Row (to_string-Row a v)) ∙ from_columns-columns a v

from_columns-Ensures : (cs : List Text) → All IsWord cs → Ensures IsValid (from_columns cs)
unfolding from_columns
from_columns-Ensures (fqdn ∷ ttl ∷ c ∷ record_type ∷ ipv4_addr ∷ []) h = Ensures-check _ (
    Ensures-check _ (
      Ensures-bind (Names.from_str-Ensures h.0) λ f hf.
        Ensures-bind (parse_uint-Ensures u32_max ttl) λ t ht.
          Ensures-bind (Ipv4.from_str-Ensures ipv4_addr)
            λ i hi. Ensures-ok _ (record { fqdn = hf; ttl = ht; ipv4_addr = hi })))
from_columns-Ensures _ h = Ensures-err _

-- What is read as a record is valid.
pub from_str-Ensures : (s : Text) → Ensures IsValid (from_str s)
unfolding from_str
from_str-Ensures s = from_columns-Ensures (split_whitespace s) (split_whitespace-IsWord s)
