-- ===== src/Tests/ZoneFiles.antt =====
-- Zone files: packages/dns-test/src/zone_file/mod.rs.
use dnssec_tests.Base.{List, [], ◌∷◌, ◌++◌, ◌≡◌, refl}
use dnssec_tests.Text.{Text, codes, lines, trim}
use dnssec_tests.Error.{ok}
use dnssec_tests.Uint
use dnssec_tests.Ipv4
use dnssec_tests.Fqdn
use dnssec_tests.Fqdn.{com_zone}
use dnssec_tests.Record
use dnssec_tests.Record.{Record, is_soa}
use dnssec_tests.ZoneFile.{ZoneFile, new, referral, from_str, to_string}
use dnssec_tests.ZoneFile.RoundTrip.{IsValid, from_str-to_string-IsValid}
use dnssec_tests.ZoneFile.Lines.{
  Reads, done, blank, line, soas, others, from_str-Reads, Reads-from_str,
}
use dnssec_tests.Tests.Data.{
  a_input, a_record, a_record-IsValid, a_root, ns, ns-IsValid, soa, soa-IsValid,
}

abbrev zone_file : ZoneFile
zone_file = record { origin = com_zone; soa = soa; records = Record.ns ns ∷ Record.a a_record ∷ [] }

zone_file-IsValid : IsValid zone_file
unfolding is_soa
zone_file-IsValid = record {
  origin = refl;
  soa = soa-IsValid;
  records = (
    record { valid = ns-IsValid; plain = tt; not_soa = refl },
    (record { valid = a_record-IsValid; plain = tt; not_soa = refl }, tt),
  );
}

from_str-to_string-IsValid_example : from_str (to_string zone_file) ≡ ok zone_file
from_str-to_string-IsValid_example = from_str-to_string-IsValid zone_file zone_file-IsValid

abbrev built : ZoneFile
built =
    referral (new soa) com_zone a_root
      (record { octet0 = 10; octet1 = 0; octet2 = 0; octet3 = 255 })

abbrev soa_input : Text
soa_input = codes "com.\t86400\tIN\tSOA\ta. b. 1 2 3 4 5"

abbrev soa_read : Record.Soa.Soa
soa_read = record {
  zone = com_zone;
  ttl = 86400;
  nameserver = record { inner = codes "a." };
  admin = record { inner = codes "b." };
  settings = record { serial = 1; refresh = 2; retry = 3; expire = 4; minimum = 5 };
}

-- The SOA record stands behind another record and a blank line.
abbrev input : Text
input = a_input ++ (codes "\n  \n" ++ soa_input)

lines-input : lines input ≡ a_input ∷ codes "  " ∷ soa_input ∷ []
unfolding lines
lines-input = refl

a_read : Record.from_str (trim a_input) ≡ ok (Record.a a_record)
unfolding trim Record.from_str Record.A.from_str Fqdn.from_str Uint.parse_uint Ipv4.from_str
a_read = refl

soa_line : Record.from_str (trim soa_input) ≡ ok (Record.soa soa_read)
unfolding trim Record.from_str Record.Soa.from_str Fqdn.from_str Uint.parse_uint
soa_line = refl

input-Reads : Reads (lines input) (Record.a a_record ∷ Record.soa soa_read ∷ [])
unfolding trim
input-Reads = rw lines-input (
    line a_input (Record.a a_record) refl a_read
      (blank (codes "  ") refl (line soa_input (Record.soa soa_read) refl soa_line done)))

abbrev read_zone_file : ZoneFile
read_zone_file = record { origin = com_zone; soa = soa_read; records = Record.a a_record ∷ [] }

from_str-Reads_example : from_str input ≡ ok read_zone_file
from_str-Reads_example = from_str-Reads input input-Reads

Reads-from_str_example :
    (rs : List Record) × Reads (lines input) rs
    × (soas rs ≡ soa_read ∷ [])
    × (others rs ≡ Record.a a_record ∷ [])
    × (com_zone ≡ com_zone)
Reads-from_str_example = Reads-from_str input from_str-Reads_example
