-- ===== src/NameServer.antt =====
-- packages/dns-test/src/name_server.rs: name servers that are stopped, signed or running.
pub mod Names
pub mod Lifecycle
pub mod Ending
pub mod Zones
pub mod Started
pub mod Links
pub mod Graph
use dnssec_tests.Base.{ℕ, ◌==◌, Bool, if◌then◌else◌, [], ◌∷◌, ◌++◌}
use dnssec_tests.Text.{Text, codes, format}
use dnssec_tests.Error.{Result}
use dnssec_tests.Uint.{uint_to_string}
use dnssec_tests.Ipv4.{Ipv4Addr}
use dnssec_tests.Fqdn
use dnssec_tests.Fqdn.{Fqdn, fqdn, unwrap, root, num_labels}
use dnssec_tests.Record
use dnssec_tests.Record.{Record}
use dnssec_tests.Record.Dnskey.{Dnskey}
use dnssec_tests.Record.Ds.{Ds}
use dnssec_tests.ZoneFile
use dnssec_tests.ZoneFile.{ZoneFile}
use dnssec_tests.ZoneFile.Root
use dnssec_tests.Implementation.{Implementation}
use dnssec_tests.Container.{Container}
use dnssec_tests.Container.Child.{Child}

pub record NameServer (S : Type 0) : Type 0 where
  pub container : Container
  pub implementation : Implementation
  pub state : S
  pub zone_file : ZoneFile

pub data Stopped : Type 0 where
  stopped : Stopped

pub record Signed : Type 0 where
  pub ds : Ds
  pub zsk : Dnskey
  pub ksk : Dnskey
  pub signed : ZoneFile

pub record Running : Type 0 where
  pub child : Child

unfoldable pub expand_zone : Fqdn → Text
unfolding Fqdn.eq num_labels
expand_zone zone =
    if Fqdn.eq zone root
    then codes "nameservers.com."
    else if num_labels zone == 1
    then format (codes "nameservers." ∷ zone.inner ∷ [])
    else zone.inner

unfoldable pub primary_ns : ℕ → Fqdn → Result Fqdn
unfolding expand_zone fqdn
primary_ns ns_count zone =
    unwrap (
      fqdn (format (codes "primary" ∷ uint_to_string ns_count ∷ codes "." ∷ expand_zone zone ∷ [])))

unfoldable pub admin_ns : ℕ → Fqdn → Result Fqdn
unfolding expand_zone fqdn
admin_ns ns_count zone =
    unwrap
      (fqdn (format (codes "admin" ∷ uint_to_string ns_count ∷ codes "." ∷ expand_zone zone ∷ [])))

abbrev pub zones_dir : Text
zones_dir = codes "/etc/zones"

abbrev pub zone_filename : Text
zone_filename = codes "main.zone"

abbrev pub zone_file_path : Text
zone_file_path = format (zones_dir ∷ codes "/" ∷ zone_filename ∷ [])

-- The methods of a name server in any state.
abbrev pub zone : {S : Type 0} → NameServer S → Fqdn
zone nameserver = nameserver.zone_file.origin

abbrev pub name : {S : Type 0} → NameServer S → Fqdn
name nameserver = nameserver.zone_file.soa.nameserver

abbrev pub ipv4_addr : {S : Type 0} → NameServer S → Ipv4Addr
ipv4_addr nameserver = nameserver.container.ipv4_addr

unfoldable pub a : {S : Type 0} → NameServer S → Record
a nameserver = Record.new_a (name nameserver) (ipv4_addr nameserver)

unfoldable pub root_hint : {S : Type 0} → NameServer S → Root.Root
root_hint nameserver = Root.new (name nameserver) (ipv4_addr nameserver)

unfoldable pub add : NameServer Stopped → Record → NameServer Stopped
unfolding ZoneFile.add
add nameserver r = record nameserver { zone_file = ZoneFile.add nameserver.zone_file r }

unfoldable pub referral : NameServer Stopped → Fqdn → Fqdn → Ipv4Addr → NameServer Stopped
unfolding ZoneFile.referral
referral nameserver zone ns ipv4_addr = record nameserver {
  zone_file = ZoneFile.referral nameserver.zone_file zone ns ipv4_addr;
}

unfoldable pub referral_nameserver :
    {S : Type 0} → NameServer Stopped → NameServer S → NameServer Stopped
unfolding referral
referral_nameserver parent child = referral parent (zone child) (name child) (ipv4_addr child)
