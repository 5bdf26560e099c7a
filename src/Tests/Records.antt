-- ===== src/Tests/Records.antt =====
-- Records: packages/dns-test/src/record.rs and trust_anchor.rs.
use dnssec_tests.Base.{[], ◌∷◌, ◌++◌, ◌≡◌, refl, none}
use dnssec_tests.Text.{Text, codes, rsplit_once, lines}
use dnssec_tests.Text.Splits.{Lacks, lacks, lacks-Lacks}
use dnssec_tests.Error.{ok}
use dnssec_tests.Uint
use dnssec_tests.Ipv4
use dnssec_tests.Fqdn
use dnssec_tests.Record
use dnssec_tests.Record.{Record, from_str, to_string}
use dnssec_tests.Record.RoundTrip
use dnssec_tests.Record.Dnskey
use dnssec_tests.Record.Dnskey.{
  Dnskey, is_key_signing_key, is_zone_signing_key, clear_key_signing_key_bit,
}
use dnssec_tests.Record.Dnskey.RoundTrip.{from_str-comment}
use dnssec_tests.TrustAnchor
use dnssec_tests.TrustAnchor.{TrustAnchor, delv}
use dnssec_tests.TrustAnchor.RoundTrip.{read_keys, read_keys-to_string}
use dnssec_tests.Record.Columns.{IsValid}
use dnssec_tests.Tests.Data.{a_input, a_record, key, key-IsValid, key_text}

from_str-a : from_str a_input ≡ ok (Record.a a_record)
unfolding from_str Record.A.from_str Fqdn.from_str Uint.parse_uint Ipv4.from_str
from_str-a = refl

to_string-a : to_string (Record.a a_record) ≡ a_input
unfolding to_string Record.A.to_string Record.Common.unqualified_type_name Uint.uint_to_string
    Ipv4.to_string
to_string-a = refl

key_text-Lacks : Lacks b';' key_text
unfolding lacks
key_text-Lacks = lacks-Lacks b';' key_text refl

from_str-to_string_example : from_str (to_string (Record.dnskey key)) ≡ ok (Record.dnskey key)
from_str-to_string_example =
    Record.RoundTrip.from_str-to_string (Record.dnskey key) key-IsValid key_text-Lacks

from_str-to_string-from_str_example : from_str (to_string (Record.a a_record)) ≡ from_str a_input
from_str-to_string-from_str_example =
    Record.RoundTrip.from_str-to_string-from_str a_input from_str-a tt

-- The comment that ldns-keygen writes behind a key.
abbrev comment : Text
comment = codes "{id = 24975 (zsk), size = 1024b}"

comment-plain : rsplit_once (codes " ;") comment ≡ none
unfolding rsplit_once
comment-plain = refl

from_str-comment_example :
    Record.Dnskey.from_str (Record.Dnskey.to_string key ++ (codes " ;" ++ comment)) ≡ ok key
from_str-comment_example = from_str-comment key comment key-IsValid comment-plain

abbrev anchor : TrustAnchor
anchor = record { keys = key ∷ key ∷ [] }

read_keys-to_string_example : read_keys (lines (TrustAnchor.to_string anchor)) ≡ ok (key ∷ key ∷ [])
read_keys-to_string_example = read_keys-to_string anchor (
  record { valid = key-IsValid; plain = key_text-Lacks },
  (record { valid = key-IsValid; plain = key_text-Lacks }, tt),
)

from_str_bounds_example : IsValid (Record.a a_record)
from_str_bounds_example = Record.RoundTrip.from_str_bounds a_input from_str-a
