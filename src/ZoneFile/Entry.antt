-- ===== src/ZoneFile/Entry.antt =====
-- `DNSKEY` of packages/dns-test/src/zone_file/mod.rs: a key in the files that `ldns-keygen` writes,
-- which lacks the TTL of a record.
use dnssec_tests.Base.{ℕ, not, none, some, List, [], ◌∷◌, if◌then◌else◌}
use dnssec_tests.Text.{Text, codes, equal, format, split_once, split_whitespace, trim}
use dnssec_tests.Error.{message, Result, ok, err, ◌>>=◌, ◌>>◌}
use dnssec_tests.Uint.{u8_max, u16_max, parse_uint}
use dnssec_tests.Fqdn
use dnssec_tests.Fqdn.{Fqdn}
use dnssec_tests.Record.Dnskey.{Dnskey}

pub record Entry : Type 0 where
  pub zone : Fqdn
  pub flags : ℕ
  pub protocol : ℕ
  pub algorithm : ℕ
  pub public_key : Text

unfoldable pub with_ttl : Entry → ℕ → Dnskey
with_ttl entry ttl = record {
  zone = entry.zone;
  ttl = ttl;
  flags = entry.flags;
  protocol = entry.protocol;
  algorithm = entry.algorithm;
  public_key = entry.public_key;
}

-- The two checks, the type first.
unfoldable pub check_columns : Text → Text → Result (Unit {0})
unfolding equal
check_columns class record_type =
    if not (equal record_type (codes "DNSKEY"))
    then err (
        message (
          format
            (codes "tried to parse `" ∷ record_type ∷ codes "` record as a DNSKEY record" ∷ [])))
    else if not (equal class (codes "IN"))
    then err (message (format (codes "unknown class: " ∷ class ∷ [])))
    else ok tt

unfoldable pub from_columns : List Text → Result Entry
unfolding check_columns
from_columns (zone ∷ class ∷ record_type ∷ flags ∷ protocol ∷ algorithm ∷ public_key ∷ []) = do
  check_columns class record_type
  zone ← Fqdn.from_str zone
  flags ← parse_uint u16_max flags
  protocol ← parse_uint u8_max protocol
  algorithm ← parse_uint u8_max algorithm
  ok (record {
    zone = zone;
    flags = flags;
    protocol = protocol;
    algorithm = algorithm;
    public_key = public_key;
  })
from_columns _ = err (message (codes "expected 7 columns"))

-- Everything from the first semicolon on is a comment.
unfoldable pub discard_comment : Text → Text
unfolding split_once trim
discard_comment input = elim (split_once b';' input) [
  | some (before, _) ↦ trim before
  | none ↦ input
]

unfoldable pub from_str : Text → Result Entry
unfolding from_columns split_whitespace discard_comment
from_str input = from_columns (split_whitespace (discard_comment input))
