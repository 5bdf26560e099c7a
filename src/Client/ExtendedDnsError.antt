-- ===== src/Client/ExtendedDnsError.antt =====
-- `ExtendedDnsError` of packages/dns-test/src/client.rs, by the codes of RFC 8914.
use dnssec_tests.Base.{ℕ, if◌then◌else◌, ◌==◌, [], ◌∷◌}
use dnssec_tests.Text.{Text, codes, format}
use dnssec_tests.Error.{Result, ok, panic, ◌>>=◌}
use dnssec_tests.Uint.{u16_max, parse_uint, uint_to_string}

pub data ExtendedDnsError : Type 0 where
  dnskey_missing dnssec_bogus rrsigs_missing unsupported_dnskey_algorithm : ExtendedDnsError

unfoldable pub of_code : ℕ → Result ExtendedDnsError
of_code code =
    if code == 1
    then ok unsupported_dnskey_algorithm
    else if code == 6
    then ok dnssec_bogus
    else if code == 9
    then ok dnskey_missing
    else if code == 10
    then ok rrsigs_missing
    else panic (
        format (
          codes "not yet implemented: EDE "
          ∷ uint_to_string code
          ∷ codes " has not yet been implemented"
          ∷ []))

unfoldable pub from_str : Text → Result ExtendedDnsError
unfolding of_code parse_uint
from_str input = parse_uint u16_max input >>= of_code
