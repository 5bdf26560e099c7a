-- ===== src/Record.antt =====
-- packages/dns-test/src/record.rs: the enum `Record`, one constructor for each type of record, with
-- its constructors, conversions, parser and printer. The record types are in the modules below.
pub mod Common
pub mod RecordType
pub mod A
pub mod Dnskey
pub mod Ds
pub mod Ns
pub mod Nsec3
pub mod Nsec3param
pub mod Rrsig
pub mod Soa
pub mod RoundTrip
pub mod Columns
use dnssec_tests.Base.{Bool, true, false, List, [], ◌∷◌, ◌⊎◌, inl, inr, if◌then◌else◌, get_elem?}
use dnssec_tests.Text.{Text, codes, equal, format, split_whitespace}
use dnssec_tests.Error.{Error, message, Result, ok, err, ◌>>=◌, ok_or}
use dnssec_tests.Ipv4.{Ipv4Addr}
use dnssec_tests.Fqdn.{Fqdn}
use dnssec_tests.Record.Common.{default_ttl}

pub data Record : Type 0 where
  a : A.A → Record
  dnskey : Dnskey.Dnskey → Record
  ds : Ds.Ds → Record
  ns : Ns.Ns → Record
  nsec3 : Nsec3.Nsec3 → Record
  nsec3param : Nsec3param.Nsec3param → Record
  rrsig : Rrsig.Rrsig → Record
  soa : Soa.Soa → Record

unfoldable pub try_into_a : Record → A.A ⊎ Record
try_into_a (Record.a v) = inl v
try_into_a other = inr other

unfoldable pub try_into_rrsig : Record → Rrsig.Rrsig ⊎ Record
try_into_rrsig (Record.rrsig v) = inl v
try_into_rrsig other = inr other

unfoldable pub try_into_ds : Record → Ds.Ds ⊎ Record
try_into_ds (Record.ds v) = inl v
try_into_ds other = inr other

unfoldable pub is_soa : Record → Bool
is_soa (Record.soa _) = true
is_soa _ = false

-- `Record::a` and `Record::ns`.
unfoldable pub new_a : Fqdn → Ipv4Addr → Record
new_a fqdn ipv4_addr = Record.a (record { fqdn = fqdn; ttl = default_ttl; ipv4_addr = ipv4_addr })

unfoldable pub new_ns : Fqdn → Fqdn → Record
new_ns zone nameserver =
    Record.ns (record { zone = zone; ttl = default_ttl; nameserver = nameserver })

-- The record of `input` by its type.
unfoldable pub parse_as : Text → Text → Result Record
unfolding equal
parse_as record_type input =
    if equal record_type (codes "A")
    then (do v ← A.from_str input; ok (Record.a v))
    else if equal record_type (codes "DNSKEY")
    then (do v ← Dnskey.from_str input; ok (Record.dnskey v))
    else if equal record_type (codes "DS")
    then (do v ← Ds.from_str input; ok (Record.ds v))
    else if equal record_type (codes "NS")
    then (do v ← Ns.from_str input; ok (Record.ns v))
    else if equal record_type (codes "NSEC3")
    then (do v ← Nsec3.from_str input; ok (Record.nsec3 v))
    else if equal record_type (codes "NSEC3PARAM")
    then (do v ← Nsec3param.from_str input; ok (Record.nsec3param v))
    else if equal record_type (codes "RRSIG")
    then (do v ← Rrsig.from_str input; ok (Record.rrsig v))
    else if equal record_type (codes "SOA")
    then (do v ← Soa.from_str input; ok (Record.soa v))
    else err (message (format (codes "unknown record type: " ∷ record_type ∷ [])))

unfoldable pub from_str : Text → Result Record
unfolding parse_as split_whitespace
from_str input = do
  record_type ←
      ok_or (message (codes "record is missing the type column"))
        (get_elem? (split_whitespace input) 3)
  parse_as record_type input

unfoldable pub to_string : Record → Text
to_string (Record.a v) = A.to_string v
to_string (Record.ds v) = Ds.to_string v
to_string (Record.dnskey v) = Dnskey.to_string v
to_string (Record.ns v) = Ns.to_string v
to_string (Record.nsec3 v) = Nsec3.to_string v
to_string (Record.nsec3param v) = Nsec3param.to_string v
to_string (Record.rrsig v) = Rrsig.to_string v
to_string (Record.soa v) = Soa.to_string v
