-- ===== src/Record/Nsec3.antt =====
-- The NSEC3 records of packages/dns-test/src/record.rs, and their way through the printer and the
-- parser.
use dnssec_tests.Base.{
  ℕ, ◌≤◌, List, [], ◌∷◌, ◌++◌, append-nil, append_assoc, map, ◌≡◌, refl, ◌∙◌, ap, All,
}
use dnssec_tests.Text.{Text, codes, format, split_whitespace, is_whitespace}
use dnssec_tests.Text.Columns.{
  IsWord, Tail, done, Row, row, tab, space, two_spaces, is_word, is_word-IsWord, Row-append,
  split_whitespace-Row, split_whitespace-IsWord,
}
use dnssec_tests.Error.{
  message, Result, ok, err, ◌>>=◌, ◌>>◌, Ensures, Ensures-bind, Ensures-ok, Ensures-check,
  Ensures-err, Ensures-any,
}
use dnssec_tests.Uint.{u8_max, u16_max, u32_max, parse_uint, uint_to_string}
use dnssec_tests.Uint.RoundTrip.{uint_to_string-IsWord, parse_uint-to_string, parse_uint-Ensures}
use dnssec_tests.Fqdn
use dnssec_tests.Fqdn.{Fqdn}
use dnssec_tests.Fqdn.Names
use dnssec_tests.Fqdn.Names.{IsName, from_str-inner}
use dnssec_tests.Record.Common.{class, check_class, check_record_type, unqualified_type_name}
use dnssec_tests.Record.RecordType
use dnssec_tests.Record.RecordType.{RecordType}

pub record Nsec3 : Type 0 where
  pub fqdn : Fqdn
  pub ttl : ℕ
  pub hash_alg : ℕ
  pub flags : ℕ
  pub iterations : ℕ
  pub salt : Text
  pub next_hashed_owner_name : Text
  pub record_types : List RecordType

abbrev type_name : Text
type_name = codes "dns_test::record::NSEC3"

-- The loop over the columns behind the ninth.
unfoldable pub push_types : List RecordType → List Text → Result (List RecordType)
push_types record_types [] = ok record_types
push_types record_types (column ∷ columns) = do
  record_type ← RecordType.from_str column
  push_types (record_types ++ record_type ∷ []) columns

-- The loop that prints them.
unfoldable pub write_types : List RecordType → Text
write_types [] = []
write_types (record_type ∷ record_types) =
    format (codes " " ∷ RecordType.to_string record_type ∷ []) ++ write_types record_types

unfoldable pub from_columns : List Text → Result Nsec3
unfolding check_class check_record_type push_types
from_columns
      (fqdn ∷ ttl ∷ class ∷ record_type ∷ hash_alg ∷ flags ∷ iterations ∷ salt
        ∷ next_hashed_owner_name ∷ columns) =
    do
      check_record_type type_name record_type
      check_class class
      record_types ← push_types [] columns
      fqdn ← Fqdn.from_str fqdn
      ttl ← parse_uint u32_max ttl
      hash_alg ← parse_uint u8_max hash_alg
      flags ← parse_uint u8_max flags
      iterations ← parse_uint u16_max iterations
      ok (record {
        fqdn = fqdn;
        ttl = ttl;
        hash_alg = hash_alg;
        flags = flags;
        iterations = iterations;
        salt = salt;
        next_hashed_owner_name = next_hashed_owner_name;
        record_types = record_types;
      })
from_columns _ = err (message (codes "expected at least 9 columns"))

unfoldable pub from_str : Text → Result Nsec3
unfolding from_columns split_whitespace
from_str input = from_columns (split_whitespace input)

unfoldable pub to_string : Nsec3 → Text
to_string nsec3 =
    format (
      nsec3.fqdn.inner
      ∷ codes "\t"
      ∷ uint_to_string nsec3.ttl
      ∷ codes "\t"
      ∷ class
      ∷ codes "\t"
      ∷ unqualified_type_name type_name
      ∷ codes "\t"
      ∷ uint_to_string nsec3.hash_alg
      ∷ codes " "
      ∷ uint_to_string nsec3.flags
      ∷ codes " "
      ∷ uint_to_string nsec3.iterations
      ∷ codes " "
      ∷ nsec3.salt
      ∷ codes "  "
      ∷ nsec3.next_hashed_owner_name
      ∷ [])
    ++ write_types nsec3.record_types

pub record IsValid (nsec3 : Nsec3) : Type 0 where
  pub fqdn : IsName nsec3.fqdn
  pub ttl : nsec3.ttl ≤ u32_max
  pub hash_alg : nsec3.hash_alg ≤ u8_max
  pub flags : nsec3.flags ≤ u8_max
  pub iterations : nsec3.iterations ≤ u16_max
  pub salt : IsWord nsec3.salt
  pub next_hashed_owner_name : IsWord nsec3.next_hashed_owner_name

abbrev pub columns : Nsec3 → List Text
columns nsec3 =
    nsec3.fqdn.inner
    ∷ uint_to_string nsec3.ttl
    ∷ class
    ∷ codes "NSEC3"
    ∷ uint_to_string nsec3.hash_alg
    ∷ uint_to_string nsec3.flags
    ∷ uint_to_string nsec3.iterations
    ∷ nsec3.salt
    ∷ nsec3.next_hashed_owner_name
    ∷ map RecordType.to_string nsec3.record_types

types_Tail : (ts : List RecordType) → Tail (write_types ts) (map RecordType.to_string ts)
unfolding write_types
types_Tail [] = done
types_Tail (t ∷ ts) =
    rw append-nil (space (RecordType.to_string t) (RecordType.to_string-IsWord t) (types_Tail ts))

push_types-map :
    (acc ts : List RecordType) → push_types acc (map RecordType.to_string ts) ≡ ok (acc ++ ts)
unfolding push_types
push_types-map acc [] = rw append-nil
push_types-map acc (t ∷ ts) =
    rw (RecordType.from_str-to_string t) (push_types-map (acc ++ t ∷ []) ts ∙ rw append_assoc)

pub to_string-Row : (nsec3 : Nsec3) → IsValid nsec3 → Row (to_string nsec3) (columns nsec3)
unfolding to_string unqualified_type_name is_word is_whitespace
to_string-Row nsec3 v =
    Row-append
      (row _ v.fqdn.word (
        tab _ (uint_to_string-IsWord nsec3.ttl) (
          tab class (is_word-IsWord _ refl) (
            tab (codes "NSEC3") (is_word-IsWord _ refl) (
              tab _ (uint_to_string-IsWord nsec3.hash_alg) (
                space _ (uint_to_string-IsWord nsec3.flags) (
                  space _ (uint_to_string-IsWord nsec3.iterations)
                    (space _ v.salt (two_spaces _ v.next_hashed_owner_name done)))))))))
      (types_Tail nsec3.record_types)

from_columns-columns : (nsec3 : Nsec3) → IsValid nsec3 → from_columns (columns nsec3) ≡ ok nsec3
unfolding from_columns
from_columns-columns nsec3 v = rw (
  push_types-map [] nsec3.record_types,
  from_str-inner nsec3.fqdn v.fqdn,
  parse_uint-to_string u32_max nsec3.ttl v.ttl,
  parse_uint-to_string u8_max nsec3.hash_alg v.hash_alg,
  parse_uint-to_string u8_max nsec3.flags v.flags,
  parse_uint-to_string u16_max nsec3.iterations v.iterations,
)

-- A valid record is read back from its print.
pub from_str-to_string : (nsec3 : Nsec3) → IsValid nsec3 → from_str (to_string nsec3) ≡ ok nsec3
unfolding from_str
from_str-to_string nsec3 v =
    ap from_columns (split_whitespace-Row (to_string-Row nsec3 v)) ∙ from_columns-columns nsec3 v

from_columns-Ensures : (cs : List Text) → All IsWord cs → Ensures IsValid (from_columns cs)
unfolding from_columns
from_columns-Ensures
      (fqdn ∷ ttl ∷ c ∷ record_type ∷ hash_alg ∷ flags ∷ iterations ∷ salt ∷ next_hashed_owner_name
        ∷ columns)
      h =
    Ensures-check (check_record_type type_name record_type) (
      Ensures-check (check_class c) (
        Ensures-bind (Ensures-any (push_types [] columns)) λ ts _.
          Ensures-bind (Names.from_str-Ensures h.0) λ x0 h0.
            Ensures-bind (parse_uint-Ensures u32_max ttl) λ x1 h1.
              Ensures-bind (parse_uint-Ensures u8_max hash_alg) λ x2 h2.
                Ensures-bind (parse_uint-Ensures u8_max flags) λ x3 h3.
                  Ensures-bind (parse_uint-Ensures u16_max iterations) λ x4 h4.
                    Ensures-ok _ (record {
                      fqdn = h0;
                      ttl = h1;
                      hash_alg = h2;
                      flags = h3;
                      iterations = h4;
                      salt = h.1.1.1.1.1.1.1.0;
                      next_hashed_owner_name = h.1.1.1.1.1.1.1.1.0;
                    })))
from_columns-Ensures _ h = Ensures-err _

-- What is read as a record is valid.
pub from_str-Ensures : (s : Text) → Ensures IsValid (from_str s)
unfolding from_str
from_str-Ensures s = from_columns-Ensures (split_whitespace s) (split_whitespace-IsWord s)
