-- ===== src/ZoneFile.antt =====
-- packages/dns-test/src/zone_file/mod.rs: BIND-style zone files, with their printer and parser.
pub mod Root
pub mod Entry
pub mod RoundTrip
pub mod Build
pub mod Lines
use dnssec_tests.Base.{Bool, true, false, Option, none, some, List, [], ◌∷◌, ◌++◌, if◌then◌else◌}
use dnssec_tests.Text.{Text, codes, format, is_empty, lines, trim}
use dnssec_tests.Error.{Error, message, Result, ok, err, ◌>>=◌, ok_or}
use dnssec_tests.Ipv4.{Ipv4Addr}
use dnssec_tests.Fqdn.{Fqdn}
use dnssec_tests.Record
use dnssec_tests.Record.{Record}
use dnssec_tests.Record.Soa.{Soa}

pub record ZoneFile : Type 0 where
  pub origin : Fqdn
  pub soa : Soa
  pub records : List Record

unfoldable pub new : Soa → ZoneFile
new soa = record { origin = soa.zone; soa = soa; records = [] }

unfoldable pub add : ZoneFile → Record → ZoneFile
add zone_file r = record zone_file { records = zone_file.records ++ r ∷ [] }

unfoldable pub referral : ZoneFile → Fqdn → Fqdn → Ipv4Addr → ZoneFile
unfolding add
referral zone_file zone nameserver ipv4_addr =
    add (add zone_file (Record.new_ns zone nameserver)) (Record.new_a nameserver ipv4_addr)

-- The loop that prints the records, a line each.
unfoldable pub write_records : List Record → Text
write_records [] = []
write_records (r ∷ records) = format (Record.to_string r ∷ codes "\n" ∷ []) ++ write_records records

unfoldable pub to_string : ZoneFile → Text
unfolding write_records
to_string zone_file =
    format (Record.Soa.to_string zone_file.soa ∷ codes "\n" ∷ []) ++ write_records zone_file.records

-- Where one record goes: the SOA record is kept apart from the others.
unfoldable pub place : List Record → Option Soa → Record → Result (List Record × Option Soa)
place records none (Record.soa soa) = ok (records, some soa)
place records (some _) (Record.soa soa) = err (message (codes "found more than one SOA record"))
place records maybe_soa other = ok (records ++ other ∷ [], maybe_soa)

-- The loop over the lines; blank ones are skipped.
unfoldable pub read_lines : List Record → Option Soa → List Text → Result (List Record × Option Soa)
read_lines records maybe_soa [] = ok (records, maybe_soa)
read_lines records maybe_soa (line ∷ rest) = elim (is_empty (trim line)) [
  | true ↦ read_lines records maybe_soa rest
  | false ↦ Record.from_str (trim line) >>= λ r.
      place records maybe_soa r >>= λ (records', maybe_soa'). read_lines records' maybe_soa' rest
]

abbrev pub finish : List Record × Option Soa → Result ZoneFile
finish (records, maybe_soa) = do
  soa ← ok_or (message (codes "no SOA record found in zone file")) maybe_soa
  ok (record { origin = soa.zone; soa = soa; records = records })

unfoldable pub from_str : Text → Result ZoneFile
unfolding read_lines place
from_str input = read_lines [] none (lines input) >>= finish
