-- ===== src/Record/Nsec3param.antt =====
-- The NSEC3PARAM records of packages/dns-test/src/record.rs, and their way through the printer and the
-- parser.
use dnssec_tests.Base.{ℕ, ◌≤◌, List, [], ◌∷◌, ◌≡◌, refl, ◌∙◌, ap, All, if◌then◌else◌}
use dnssec_tests.Text.{Text, codes, equal, format, split_whitespace, is_whitespace}
use dnssec_tests.Text.Columns.{
  IsWord, done, Row, row, tab, space, is_word, is_word-IsWord, split_whitespace-Row,
  split_whitespace-IsWord,
}
use dnssec_tests.Error.{
  message, Result, ok, err, panic, ◌>>=◌, ◌>>◌, Ensures, Ensures-bind, Ensures-ok, Ensures-check,
  Ensures-err,
}
use dnssec_tests.Uint.{u8_max, u16_max, u32_max, parse_uint, uint_to_string}
use dnssec_tests.Uint.RoundTrip.{uint_to_string-IsWord, parse_uint-to_string, parse_uint-Ensures}
use dnssec_tests.Fqdn
use dnssec_tests.Fqdn.{Fqdn}
use dnssec_tests.Fqdn.Names
use dnssec_tests.Fqdn.Names.{IsName, from_str-inner}
use dnssec_tests.Record.Common.{class, check_class, check_record_type, unqualified_type_name}

pub record Nsec3param : Type 0 where
  pub zone : Fqdn
  pub ttl : ℕ
  pub hash_alg : ℕ
  pub flags : ℕ
  pub iterations : ℕ

abbrev type_name : Text
type_name = codes "dns_test::record::NSEC3PARAM"

-- `if dash != "-" { todo!(…) }`.
check_dash : Text → Result (Unit {0})
unfolding equal
check_dash dash =
    if equal dash (codes "-")
    then ok tt
    else panic (codes "not yet implemented: salt is not implemented")

unfoldable pub from_columns : List Text → Result Nsec3param
unfolding check_class check_record_type check_dash
from_columns (zone ∷ ttl ∷ class ∷ record_type ∷ hash_alg ∷ flags ∷ iterations ∷ dash ∷ []) = do
  check_record_type type_name record_type
  check_class class
  check_dash dash
  zone ← Fqdn.from_str zone
  ttl ← parse_uint u32_max ttl
  hash_alg ← parse_uint u8_max hash_alg
  flags ← parse_uint u8_max flags
  iterations ← parse_uint u16_max iterations
  ok (record {
    zone = zone;
    ttl = ttl;
    hash_alg = hash_alg;
    flags = flags;
    iterations = iterations;
  })
from_columns _ = err (message (codes "expected 8 columns"))

unfoldable pub from_str : Text → Result Nsec3param
unfolding from_columns split_whitespace
from_str input = from_columns (split_whitespace input)

unfoldable pub to_string : Nsec3param → Text
to_string param = format (
    param.zone.inner
    ∷ codes "\t"
    ∷ uint_to_string param.ttl
    ∷ codes "\t"
    ∷ class
    ∷ codes "\t"
    ∷ unqualified_type_name type_name
    ∷ codes "\t"
    ∷ uint_to_string param.hash_alg
    ∷ codes " "
    ∷ uint_to_string param.flags
    ∷ codes " "
    ∷ uint_to_string param.iterations
    ∷ codes " -"
    ∷ [])

pub record IsValid (param : Nsec3param) : Type 0 where
  pub zone : IsName param.zone
  pub ttl : param.ttl ≤ u32_max
  pub hash_alg : param.hash_alg ≤ u8_max
  pub flags : param.flags ≤ u8_max
  pub iterations : param.iterations ≤ u16_max

abbrev pub columns : Nsec3param → List Text
columns param =
    param.zone.inner
    ∷ uint_to_string param.ttl
    ∷ class
    ∷ codes "NSEC3PARAM"
    ∷ uint_to_string param.hash_alg
    ∷ uint_to_string param.flags
    ∷ uint_to_string param.iterations
    ∷ codes "-"
    ∷ []

pub to_string-Row : (param : Nsec3param) → IsValid param → Row (to_string param) (columns param)
unfolding to_string unqualified_type_name is_word is_whitespace
to_string-Row param v = row _ v.zone.word (
    tab _ (uint_to_string-IsWord param.ttl) (
      tab class (is_word-IsWord _ refl) (
        tab (codes "NSEC3PARAM") (is_word-IsWord _ refl) (
          tab _ (uint_to_string-IsWord param.hash_alg) (
            space _ (uint_to_string-IsWord param.flags) (
              space _ (uint_to_string-IsWord param.iterations)
                (space (codes "-") (is_word-IsWord _ refl) done)))))))

from_columns-columns :
    (param : Nsec3param) → IsValid param → from_columns (columns param) ≡ ok param
unfolding from_columns
from_columns-columns param v = rw (
  from_str-inner param.zone v.zone,
  parse_uint-to_string u32_max param.ttl v.ttl,
  parse_uint-to_string u8_max param.hash_alg v.hash_alg,
  parse_uint-to_string u8_max param.flags v.flags,
  parse_uint-to_string u16_max param.iterations v.iterations,
)

-- A valid record is read back from its print.
pub from_str-to_string :
    (param : Nsec3param) → IsValid param → from_str (to_string param) ≡ ok param
unfolding from_str
from_str-to_string param v =
    ap from_columns (split_whitespace-Row (to_string-Row param v)) ∙ from_columns-columns param v

from_columns-Ensures : (cs : List Text) → All IsWord cs → Ensures IsValid (from_columns cs)
unfolding from_columns
from_columns-Ensures (zone ∷ ttl ∷ c ∷ record_type ∷ hash_alg ∷ flags ∷ iterations ∷ dash ∷ []) h =
    Ensures-check (check_record_type type_name record_type) (
      Ensures-check (check_class c) (
        Ensures-check (check_dash dash) (
          Ensures-bind (Names.from_str-Ensures h.0) λ x0 h0.
            Ensures-bind (parse_uint-Ensures u32_max ttl) λ x1 h1.
              Ensures-bind (parse_uint-Ensures u8_max hash_alg) λ x2 h2.
                Ensures-bind (parse_uint-Ensures u8_max flags) λ x3 h3.
                  Ensures-bind (parse_uint-Ensures u16_max iterations) λ x4 h4.
                    Ensures-ok _ (record {
                      zone = h0;
                      ttl = h1;
                      hash_alg = h2;
                      flags = h3;
                      iterations = h4;
                    }))))
from_columns-Ensures _ h = Ensures-err _

-- What is read as a record is valid.
pub from_str-Ensures : (s : Text) → Ensures IsValid (from_str s)
unfolding from_str
from_str-Ensures s = from_columns-Ensures (split_whitespace s) (split_whitespace-IsWord s)
