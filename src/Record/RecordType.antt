-- ===== src/Record/RecordType.antt =====
-- `RecordType` of packages/dns-test/src/record.rs, which the macro `record_types!` declares.
use dnssec_tests.Base.{◌≡◌, refl, if◌then◌else◌, [], ◌∷◌}
use dnssec_tests.Text.{Text, codes, equal, format, is_whitespace}
use dnssec_tests.Text.Columns.{IsWord, is_word, is_word-IsWord}
use dnssec_tests.Error.{message, Result, ok, err}

pub data RecordType : Type 0 where
  a aaaa dnskey ds mx ns nsec3 nsec3param rrsig soa txt : RecordType

unfoldable pub as_str : RecordType → Text
as_str RecordType.a = codes "A"
as_str RecordType.aaaa = codes "AAAA"
as_str RecordType.dnskey = codes "DNSKEY"
as_str RecordType.ds = codes "DS"
as_str RecordType.mx = codes "MX"
as_str RecordType.ns = codes "NS"
as_str RecordType.nsec3 = codes "NSEC3"
as_str RecordType.nsec3param = codes "NSEC3PARAM"
as_str RecordType.rrsig = codes "RRSIG"
as_str RecordType.soa = codes "SOA"
as_str RecordType.txt = codes "TXT"

unfoldable pub from_str : Text → Result RecordType
unfolding equal
from_str input =
    if equal input (codes "A")
    then ok RecordType.a
    else if equal input (codes "AAAA")
    then ok RecordType.aaaa
    else if equal input (codes "DNSKEY")
    then ok RecordType.dnskey
    else if equal input (codes "DS")
    then ok RecordType.ds
    else if equal input (codes "MX")
    then ok RecordType.mx
    else if equal input (codes "NS")
    then ok RecordType.ns
    else if equal input (codes "NSEC3")
    then ok RecordType.nsec3
    else if equal input (codes "NSEC3PARAM")
    then ok RecordType.nsec3param
    else if equal input (codes "RRSIG")
    then ok RecordType.rrsig
    else if equal input (codes "SOA")
    then ok RecordType.soa
    else if equal input (codes "TXT")
    then ok RecordType.txt
    else err (message (format (codes "unknown record type: " ∷ input ∷ [])))

unfoldable pub to_string : RecordType → Text
unfolding as_str
to_string = as_str

pub to_string-IsWord : (t : RecordType) → IsWord (to_string t)
unfolding to_string is_word is_whitespace
to_string-IsWord RecordType.a = is_word-IsWord _ refl
to_string-IsWord _ = is_word-IsWord _ refl

-- Every record type is read back from its print.
pub from_str-to_string : (t : RecordType) → from_str (to_string t) ≡ ok t
unfolding from_str to_string
from_str-to_string RecordType.a = refl
from_str-to_string _ = refl
