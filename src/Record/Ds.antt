-- ===== src/Record/Ds.antt =====
-- The DS records of packages/dns-test/src/record.rs, and their way through the printer and the
-- parser.
use dnssec_tests.Base.{ℕ, ◌≤◌, List, [], ◌∷◌, ◌++◌, ◌≡◌, refl, ◌∙◌, ap, All}
use dnssec_tests.Text.{Text, codes, format, split_whitespace, is_whitespace}
use dnssec_tests.Text.Columns.{
  IsWord, done, Row, row, tab, space, is_word, is_word-IsWord, Row-append, split_whitespace-Row,
  split_whitespace-IsWord,
}
use dnssec_tests.Error.{
  message, Result, ok, err, ◌>>=◌, ◌>>◌, Ensures, Ensures-bind, Ensures-ok, Ensures-check,
  Ensures-err,
}
use dnssec_tests.Uint.{u8_max, u16_max, u32_max, parse_uint, uint_to_string}
use dnssec_tests.Uint.RoundTrip.{uint_to_string-IsWord, parse_uint-to_string, parse_uint-Ensures}
use dnssec_tests.Fqdn
use dnssec_tests.Fqdn.{Fqdn}
use dnssec_tests.Fqdn.Names
use dnssec_tests.Fqdn.Names.{IsName, from_str-inner}
use dnssec_tests.Record.Common.{
  class, check_class, check_record_type, unqualified_type_name, write_split_long_string,
  push_columns,
}
use dnssec_tests.Record.Common.LongField.{IsSolid, long_field, push_columns-IsSolid}

pub record Ds : Type 0 where
  pub zone : Fqdn
  pub ttl : ℕ
  pub key_tag : ℕ
  pub algorithm : ℕ
  pub digest_type : ℕ
  pub digest : Text

abbrev type_name : Text
type_name = codes "dns_test::record::DS"

unfoldable pub from_columns : List Text → Result Ds
unfolding check_class check_record_type push_columns
from_columns (zone ∷ ttl ∷ class ∷ record_type ∷ key_tag ∷ algorithm ∷ digest_type ∷ columns) = do
  check_record_type type_name record_type
  check_class class
  zone ← Fqdn.from_str zone
  ttl ← parse_uint u32_max ttl
  key_tag ← parse_uint u16_max key_tag
  algorithm ← parse_uint u8_max algorithm
  digest_type ← parse_uint u8_max digest_type
  ok (record {
    zone = zone;
    ttl = ttl;
    key_tag = key_tag;
    algorithm = algorithm;
    digest_type = digest_type;
    digest = push_columns [] columns;
  })
from_columns _ = err (message (codes "expected at least 7 columns"))

unfoldable pub from_str : Text → Result Ds
unfolding from_columns split_whitespace
from_str input = from_columns (split_whitespace input)

unfoldable pub to_string : Ds → Text
to_string ds =
    format (
      ds.zone.inner
      ∷ codes "\t"
      ∷ uint_to_string ds.ttl
      ∷ codes "\t"
      ∷ class
      ∷ codes "\t"
      ∷ unqualified_type_name type_name
      ∷ codes "\t"
      ∷ uint_to_string ds.key_tag
      ∷ codes " "
      ∷ uint_to_string ds.algorithm
      ∷ codes " "
      ∷ uint_to_string ds.digest_type
      ∷ [])
    ++ write_split_long_string ds.digest

pub record IsValid (ds : Ds) : Type 0 where
  pub zone : IsName ds.zone
  pub ttl : ds.ttl ≤ u32_max
  pub key_tag : ds.key_tag ≤ u16_max
  pub algorithm : ds.algorithm ≤ u8_max
  pub digest_type : ds.digest_type ≤ u8_max
  pub digest : IsSolid ds.digest

abbrev pub columns : Ds → List Text → List Text
columns ds chunks =
    ds.zone.inner
    ∷ uint_to_string ds.ttl
    ∷ class
    ∷ codes "DS"
    ∷ uint_to_string ds.key_tag
    ∷ uint_to_string ds.algorithm
    ∷ uint_to_string ds.digest_type
    ∷ chunks

pub to_string-Row :
    (ds : Ds) (v : IsValid ds)
    → Row (to_string ds) (columns ds (long_field ds.digest v.digest).columns)
unfolding to_string unqualified_type_name is_word is_whitespace
to_string-Row ds v =
    Row-append
      (row _ v.zone.word (
        tab _ (uint_to_string-IsWord ds.ttl) (
          tab class (is_word-IsWord _ refl) (
            tab (codes "DS") (is_word-IsWord _ refl) (
              tab _ (uint_to_string-IsWord ds.key_tag) (
                space _ (uint_to_string-IsWord ds.algorithm)
                  (space _ (uint_to_string-IsWord ds.digest_type) done)))))))
      (long_field ds.digest v.digest).tail

from_columns-columns :
    (ds : Ds) (chunks : List Text)
    → IsValid ds
    → push_columns [] chunks ≡ ds.digest
    → from_columns (columns ds chunks) ≡ ok ds
unfolding from_columns
from_columns-columns ds chunks v pushed = rw (
  from_str-inner ds.zone v.zone,
  parse_uint-to_string u32_max ds.ttl v.ttl,
  parse_uint-to_string u16_max ds.key_tag v.key_tag,
  parse_uint-to_string u8_max ds.algorithm v.algorithm,
  parse_uint-to_string u8_max ds.digest_type v.digest_type,
  pushed,
)

-- A valid record is read back from its print.
pub from_str-to_string : (ds : Ds) → IsValid ds → from_str (to_string ds) ≡ ok ds
unfolding from_str
from_str-to_string ds v =
    let chunks = long_field ds.digest v.digest in
    ap from_columns (split_whitespace-Row (to_string-Row ds v))
    ∙ from_columns-columns ds chunks.columns v chunks.pushed

from_columns-Ensures : (cs : List Text) → All IsWord cs → Ensures IsValid (from_columns cs)
unfolding from_columns
from_columns-Ensures (zone ∷ ttl ∷ c ∷ record_type ∷ key_tag ∷ algorithm ∷ digest_type ∷ columns)
      h =
    Ensures-check (check_record_type type_name record_type) (
      Ensures-check (check_class c) (
        Ensures-bind (Names.from_str-Ensures h.0) λ x0 h0.
          Ensures-bind (parse_uint-Ensures u32_max ttl) λ x1 h1.
            Ensures-bind (parse_uint-Ensures u16_max key_tag) λ x2 h2.
              Ensures-bind (parse_uint-Ensures u8_max algorithm) λ x3 h3.
                Ensures-bind (parse_uint-Ensures u8_max digest_type) λ x4 h4. Ensures-ok _ (record {
                  zone = h0;
                  ttl = h1;
                  key_tag = h2;
                  algorithm = h3;
                  digest_type = h4;
                  digest = push_columns-IsSolid [] columns tt h.1.1.1.1.1.1.1;
                })))
from_columns-Ensures _ h = Ensures-err _

-- What is read as a record is valid.
pub from_str-Ensures : (s : Text) → Ensures IsValid (from_str s)
unfolding from_str
from_str-Ensures s = from_columns-Ensures (split_whitespace s) (split_whitespace-IsWord s)
