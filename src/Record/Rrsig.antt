-- ===== src/Record/Rrsig.antt =====
-- The RRSIG records of packages/dns-test/src/record.rs, and their way through the printer and the
-- parser.
use dnssec_tests.Base.{ℕ, ◌≤◌, List, [], ◌∷◌, ◌++◌, ◌≡◌, refl, ◌∙◌, ap, All}
use dnssec_tests.Text.{Text, codes, format, split_whitespace, is_whitespace}
use dnssec_tests.Text.Columns.{
  IsWord, done, Row, row, tab, space, is_word, is_word-IsWord, Row-append, split_whitespace-Row,
  split_whitespace-IsWord,
}
use dnssec_tests.Error.{
  message, Result, ok, err, ◌>>=◌, ◌>>◌, Ensures, Ensures-bind, Ensures-ok, Ensures-check,
  Ensures-err, Ensures-any,
}
use dnssec_tests.Uint.{u8_max, u16_max, u32_max, u64_max, parse_uint, uint_to_string}
use dnssec_tests.Uint.RoundTrip.{uint_to_string-IsWord, parse_uint-to_string, parse_uint-Ensures}
use dnssec_tests.Fqdn
use dnssec_tests.Fqdn.{Fqdn}
use dnssec_tests.Fqdn.Names
use dnssec_tests.Fqdn.Names.{IsName, from_str-inner}
use dnssec_tests.Record.Common.{
  class, check_class, check_record_type, unqualified_type_name, write_split_long_string,
  push_columns,
}
use dnssec_tests.Record.Common.LongField.{IsSolid, long_field, push_columns-IsSolid}
use dnssec_tests.Record.RecordType
use dnssec_tests.Record.RecordType.{RecordType}

pub record Rrsig : Type 0 where
  pub fqdn : Fqdn
  pub ttl : ℕ
  pub type_covered : RecordType
  pub algorithm : ℕ
  pub labels : ℕ
  pub original_ttl : ℕ
  pub signature_expiration : ℕ
  pub signature_inception : ℕ
  pub key_tag : ℕ
  pub signer_name : Fqdn
  pub signature : Text

abbrev type_name : Text
type_name = codes "dns_test::record::RRSIG"

unfoldable pub from_columns : List Text → Result Rrsig
unfolding check_class check_record_type push_columns
from_columns
      (fqdn ∷ ttl ∷ class ∷ record_type ∷ type_covered ∷ algorithm ∷ labels ∷ original_ttl
        ∷ signature_expiration ∷ signature_inception ∷ key_tag ∷ signer_name ∷ columns) =
    do
      check_record_type type_name record_type
      check_class class
      fqdn ← Fqdn.from_str fqdn
      ttl ← parse_uint u32_max ttl
      type_covered ← RecordType.from_str type_covered
      algorithm ← parse_uint u8_max algorithm
      labels ← parse_uint u8_max labels
      original_ttl ← parse_uint u32_max original_ttl
      signature_expiration ← parse_uint u64_max signature_expiration
      signature_inception ← parse_uint u64_max signature_inception
      key_tag ← parse_uint u16_max key_tag
      signer_name ← Fqdn.from_str signer_name
      ok (record {
        fqdn = fqdn;
        ttl = ttl;
        type_covered = type_covered;
        algorithm = algorithm;
        labels = labels;
        original_ttl = original_ttl;
        signature_expiration = signature_expiration;
        signature_inception = signature_inception;
        key_tag = key_tag;
        signer_name = signer_name;
        signature = push_columns [] columns;
      })
from_columns _ = err (message (codes "expected at least 12 columns"))

unfoldable pub from_str : Text → Result Rrsig
unfolding from_columns split_whitespace
from_str input = from_columns (split_whitespace input)

unfoldable pub to_string : Rrsig → Text
to_string rrsig =
    format (
      rrsig.fqdn.inner
      ∷ codes "\t"
      ∷ uint_to_string rrsig.ttl
      ∷ codes "\t"
      ∷ class
      ∷ codes "\t"
      ∷ unqualified_type_name type_name
      ∷ codes "\t"
      ∷ RecordType.to_string rrsig.type_covered
      ∷ codes " "
      ∷ uint_to_string rrsig.algorithm
      ∷ codes " "
      ∷ uint_to_string rrsig.labels
      ∷ codes " "
      ∷ uint_to_string rrsig.original_ttl
      ∷ codes " "
      ∷ uint_to_string rrsig.signature_expiration
      ∷ codes " "
      ∷ uint_to_string rrsig.signature_inception
      ∷ codes " "
      ∷ uint_to_string rrsig.key_tag
      ∷ codes " "
      ∷ rrsig.signer_name.inner
      ∷ [])
    ++ write_split_long_string rrsig.signature

pub record IsValid (rrsig : Rrsig) : Type 0 where
  pub fqdn : IsName rrsig.fqdn
  pub ttl : rrsig.ttl ≤ u32_max
  pub algorithm : rrsig.algorithm ≤ u8_max
  pub labels : rrsig.labels ≤ u8_max
  pub original_ttl : rrsig.original_ttl ≤ u32_max
  pub signature_expiration : rrsig.signature_expiration ≤ u64_max
  pub signature_inception : rrsig.signature_inception ≤ u64_max
  pub key_tag : rrsig.key_tag ≤ u16_max
  pub signer_name : IsName rrsig.signer_name
  pub signature : IsSolid rrsig.signature

abbrev pub columns : Rrsig → List Text → List Text
columns rrsig chunks =
    rrsig.fqdn.inner
    ∷ uint_to_string rrsig.ttl
    ∷ class
    ∷ codes "RRSIG"
    ∷ RecordType.to_string rrsig.type_covered
    ∷ uint_to_string rrsig.algorithm
    ∷ uint_to_string rrsig.labels
    ∷ uint_to_string rrsig.original_ttl
    ∷ uint_to_string rrsig.signature_expiration
    ∷ uint_to_string rrsig.signature_inception
    ∷ uint_to_string rrsig.key_tag
    ∷ rrsig.signer_name.inner
    ∷ chunks

pub to_string-Row :
    (rrsig : Rrsig) (v : IsValid rrsig)
    → Row (to_string rrsig) (columns rrsig (long_field rrsig.signature v.signature).columns)
unfolding to_string unqualified_type_name is_word is_whitespace
to_string-Row rrsig v =
    Row-append
      (row _ v.fqdn.word (
        tab _ (uint_to_string-IsWord rrsig.ttl) (
          tab class (is_word-IsWord _ refl) (
            tab (codes "RRSIG") (is_word-IsWord _ refl) (
              tab _ (RecordType.to_string-IsWord rrsig.type_covered) (
                space _ (uint_to_string-IsWord rrsig.algorithm) (
                  space _ (uint_to_string-IsWord rrsig.labels) (
                    space _ (uint_to_string-IsWord rrsig.original_ttl) (
                      space _ (uint_to_string-IsWord rrsig.signature_expiration) (
                        space _ (uint_to_string-IsWord rrsig.signature_inception) (
                          space _ (uint_to_string-IsWord rrsig.key_tag)
                            (space _ v.signer_name.word done))))))))))))
      (long_field rrsig.signature v.signature).tail

from_columns-columns :
    (rrsig : Rrsig) (chunks : List Text)
    → IsValid rrsig
    → push_columns [] chunks ≡ rrsig.signature
    → from_columns (columns rrsig chunks) ≡ ok rrsig
unfolding from_columns
from_columns-columns rrsig chunks v pushed = rw (
  from_str-inner rrsig.fqdn v.fqdn,
  parse_uint-to_string u32_max rrsig.ttl v.ttl,
  RecordType.from_str-to_string rrsig.type_covered,
  parse_uint-to_string u8_max rrsig.algorithm v.algorithm,
  parse_uint-to_string u8_max rrsig.labels v.labels,
  parse_uint-to_string u32_max rrsig.original_ttl v.original_ttl,
  parse_uint-to_string u64_max rrsig.signature_expiration v.signature_expiration,
  parse_uint-to_string u64_max rrsig.signature_inception v.signature_inception,
  parse_uint-to_string u16_max rrsig.key_tag v.key_tag,
  from_str-inner rrsig.signer_name v.signer_name,
  pushed,
)

-- A valid record is read back from its print.
pub from_str-to_string : (rrsig : Rrsig) → IsValid rrsig → from_str (to_string rrsig) ≡ ok rrsig
unfolding from_str
from_str-to_string rrsig v =
    let chunks = long_field rrsig.signature v.signature in
    ap from_columns (split_whitespace-Row (to_string-Row rrsig v))
    ∙ from_columns-columns rrsig chunks.columns v chunks.pushed

from_columns-Ensures : (cs : List Text) → All IsWord cs → Ensures IsValid (from_columns cs)
unfolding from_columns
from_columns-Ensures
      (fqdn ∷ ttl ∷ c ∷ record_type ∷ type_covered ∷ algorithm ∷ labels ∷ original_ttl
        ∷ signature_expiration ∷ signature_inception ∷ key_tag ∷ signer_name ∷ columns)
      h =
    Ensures-check (check_record_type type_name record_type) (
      Ensures-check (check_class c) (
        Ensures-bind (Names.from_str-Ensures h.0) λ x0 h0.
          Ensures-bind (parse_uint-Ensures u32_max ttl) λ x1 h1.
            Ensures-bind (Ensures-any (RecordType.from_str type_covered)) λ x2 h2.
              Ensures-bind (parse_uint-Ensures u8_max algorithm) λ x3 h3.
                Ensures-bind (parse_uint-Ensures u8_max labels) λ x4 h4.
                  Ensures-bind (parse_uint-Ensures u32_max original_ttl) λ x5 h5.
                    Ensures-bind (parse_uint-Ensures u64_max signature_expiration) λ x6 h6.
                      Ensures-bind (parse_uint-Ensures u64_max signature_inception) λ x7 h7.
                        Ensures-bind (parse_uint-Ensures u16_max key_tag) λ x8 h8.
                          Ensures-bind (Names.from_str-Ensures h.1.1.1.1.1.1.1.1.1.1.1.0) λ x9 h9.
                            Ensures-ok _ (record {
                              fqdn = h0;
                              ttl = h1;
                              algorithm = h3;
                              labels = h4;
                              original_ttl = h5;
                              signature_expiration = h6;
                              signature_inception = h7;
                              key_tag = h8;
                              signer_name = h9;
                              signature =
                                  push_columns-IsSolid [] columns tt h.1.1.1.1.1.1.1.1.1.1.1.1;
                            })))
from_columns-Ensures _ h = Ensures-err _

-- What is read as a record is valid.
pub from_str-Ensures : (s : Text) → Ensures IsValid (from_str s)
unfolding from_str
from_str-Ensures s = from_columns-Ensures (split_whitespace s) (split_whitespace-IsWord s)
