-- ===== src/Record/Dnskey.antt =====
-- The DNSKEY records of packages/dns-test/src/record.rs, and their way through the printer and the
-- parser.
pub mod RoundTrip
pub mod Flags
use dnssec_tests.Base.{
  ℕ, ◌≤◌, ◌-◌, ◌==◌, Option, some, none, Bool, true, false, not, List, [], ◌∷◌, ◌++◌, append-nil,
  append_assoc, ◌≡◌, refl, ◌∙◌, ap, sym, subst, arith, All, inl, inr, if◌then◌else◌,
}
use Prim.Native.Nat.{bit_and}
use dnssec_tests.Text.{
  Text, codes, equal, format, split_whitespace, is_whitespace, rsplit_once, trim_end,
}
use dnssec_tests.Text.Columns.{
  IsWord, Tail, done, Row, row, tab, space, last_word, two_spaces, is_word, is_word-IsWord,
  Row-append, split_whitespace-Row, split_whitespace-IsWord,
}
use dnssec_tests.Error.{
  Error, message, Result, ok, err, panic, ◌>>=◌, ◌>>◌, Ensures, Ensures-bind, Ensures-ok,
  Ensures-check, Ensures-err, Ensures-any,
}
use dnssec_tests.Uint.{u8_max, u16_max, u32_max, u64_max, parse_uint, uint_to_string}
use dnssec_tests.Uint.RoundTrip.{uint_to_string-IsWord, parse_uint-to_string, parse_uint-Ensures}
use dnssec_tests.Fqdn
use dnssec_tests.Fqdn.{Fqdn}
use dnssec_tests.Fqdn.Names
use dnssec_tests.Fqdn.Names.{IsName, from_str-inner}
use dnssec_tests.Record.Common.{
  class, check_class, check_record_type, unqualified_type_name, write_split_long_string,
  push_columns,
}
use dnssec_tests.Record.Common.LongField.{IsSolid, Chunks, long_field, push_columns-IsSolid}
use dnssec_tests.Record.RecordType
use dnssec_tests.Record.RecordType.{RecordType}

pub record Dnskey : Type 0 where
  pub zone : Fqdn
  pub ttl : ℕ
  pub flags : ℕ
  pub protocol : ℕ
  pub algorithm : ℕ
  pub public_key : Text

abbrev type_name : Text
type_name = codes "dns_test::record::DNSKEY"

unfoldable pub from_columns : List Text → Result Dnskey
unfolding check_class check_record_type push_columns
from_columns (zone ∷ ttl ∷ class ∷ record_type ∷ flags ∷ protocol ∷ algorithm ∷ columns) = do
  check_record_type type_name record_type
  check_class class
  zone ← Fqdn.from_str zone
  ttl ← parse_uint u32_max ttl
  flags ← parse_uint u16_max flags
  protocol ← parse_uint u8_max protocol
  algorithm ← parse_uint u8_max algorithm
  ok (record {
    zone = zone;
    ttl = ttl;
    flags = flags;
    protocol = protocol;
    algorithm = algorithm;
    public_key = push_columns [] columns;
  })
from_columns _ = err (message (codes "expected at least 7 columns"))

-- The text in front of the last ` ;`, if there is one.
unfoldable pub strip_comment : Text → Text
unfolding rsplit_once trim_end
strip_comment input = elim (rsplit_once (codes " ;") input) [
  | some (rr, _) ↦ trim_end rr
  | none ↦ input
]

unfoldable pub from_str : Text → Result Dnskey
unfolding from_columns split_whitespace strip_comment
from_str input = from_columns (split_whitespace (strip_comment input))

unfoldable pub to_string : Dnskey → Text
to_string key =
    format (
      key.zone.inner
      ∷ codes "\t"
      ∷ uint_to_string key.ttl
      ∷ codes "\t"
      ∷ class
      ∷ codes "\t"
      ∷ unqualified_type_name type_name
      ∷ codes "\t"
      ∷ uint_to_string key.flags
      ∷ codes " "
      ∷ uint_to_string key.protocol
      ∷ codes " "
      ∷ uint_to_string key.algorithm
      ∷ [])
    ++ write_split_long_string key.public_key

-- The format that `delv` expects.
unfoldable pub delv : Dnskey → Text
delv key = format (
    key.zone.inner
    ∷ codes " static-key "
    ∷ uint_to_string key.flags
    ∷ codes " "
    ∷ uint_to_string key.protocol
    ∷ codes " "
    ∷ uint_to_string key.algorithm
    ∷ codes " \""
    ∷ key.public_key
    ∷ codes "\";\n"
    ∷ [])

abbrev pub ksk_bit : ℕ
ksk_bit = 1

-- `!x` on u16 is `u16_max - x`.
unfoldable pub clear_key_signing_key_bit : Dnskey → Dnskey
clear_key_signing_key_bit key = record key { flags = bit_and key.flags (u16_max - ksk_bit) }

unfoldable pub is_key_signing_key : Dnskey → Bool
is_key_signing_key key = bit_and key.flags ksk_bit == ksk_bit

unfoldable pub is_zone_signing_key : Dnskey → Bool
unfolding is_key_signing_key
is_zone_signing_key key = not (is_key_signing_key key)

pub record IsValid (key : Dnskey) : Type 0 where
  pub zone : IsName key.zone
  pub ttl : key.ttl ≤ u32_max
  pub flags : key.flags ≤ u16_max
  pub protocol : key.protocol ≤ u8_max
  pub algorithm : key.algorithm ≤ u8_max
  pub public_key : IsSolid key.public_key

abbrev pub columns : Dnskey → List Text → List Text
columns key chunks =
    key.zone.inner
    ∷ uint_to_string key.ttl
    ∷ class
    ∷ codes "DNSKEY"
    ∷ uint_to_string key.flags
    ∷ uint_to_string key.protocol
    ∷ uint_to_string key.algorithm
    ∷ chunks

pub to_string-Row :
    (key : Dnskey) (v : IsValid key)
    → Row (to_string key) (columns key (long_field key.public_key v.public_key).columns)
unfolding to_string unqualified_type_name is_word is_whitespace
to_string-Row key v =
    Row-append
      (row _ v.zone.word (
        tab _ (uint_to_string-IsWord key.ttl) (
          tab class (is_word-IsWord _ refl) (
            tab (codes "DNSKEY") (is_word-IsWord _ refl) (
              tab _ (uint_to_string-IsWord key.flags) (
                space _ (uint_to_string-IsWord key.protocol)
                  (space _ (uint_to_string-IsWord key.algorithm) done)))))))
      (long_field key.public_key v.public_key).tail

pub from_columns-columns :
    (key : Dnskey) (chunks : List Text)
    → IsValid key
    → push_columns [] chunks ≡ key.public_key
    → from_columns (columns key chunks) ≡ ok key
unfolding from_columns
from_columns-columns key chunks v pushed = rw (
  from_str-inner key.zone v.zone,
  parse_uint-to_string u32_max key.ttl v.ttl,
  parse_uint-to_string u16_max key.flags v.flags,
  parse_uint-to_string u8_max key.protocol v.protocol,
  parse_uint-to_string u8_max key.algorithm v.algorithm,
  pushed,
)

from_columns-Ensures : (cs : List Text) → All IsWord cs → Ensures IsValid (from_columns cs)
unfolding from_columns
from_columns-Ensures (zone ∷ ttl ∷ c ∷ record_type ∷ flags ∷ protocol ∷ algorithm ∷ columns) h =
    Ensures-check (check_record_type type_name record_type) (
      Ensures-check (check_class c) (
        Ensures-bind (Names.from_str-Ensures h.0) λ x0 h0.
          Ensures-bind (parse_uint-Ensures u32_max ttl) λ x1 h1.
            Ensures-bind (parse_uint-Ensures u16_max flags) λ x2 h2.
              Ensures-bind (parse_uint-Ensures u8_max protocol) λ x3 h3.
                Ensures-bind (parse_uint-Ensures u8_max algorithm) λ x4 h4. Ensures-ok _ (record {
                  zone = h0;
                  ttl = h1;
                  flags = h2;
                  protocol = h3;
                  algorithm = h4;
                  public_key = push_columns-IsSolid [] columns tt h.1.1.1.1.1.1.1;
                })))
from_columns-Ensures _ h = Ensures-err _

-- What is read as a record is valid.
pub from_str-Ensures : (s : Text) → Ensures IsValid (from_str s)
unfolding from_str
from_str-Ensures s =
    from_columns-Ensures (split_whitespace (strip_comment s))
      (split_whitespace-IsWord (strip_comment s))
