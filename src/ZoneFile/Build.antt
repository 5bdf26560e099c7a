-- ===== src/ZoneFile/Build.antt =====
-- Zone files that are built by `new`, `add` and `referral` of packages/dns-test/src/zone_file/mod.rs.
use dnssec_tests.Base.{[], ◌∷◌, refl, arith, All-append}
use dnssec_tests.Ipv4
use dnssec_tests.Ipv4.{Ipv4Addr}
use dnssec_tests.Fqdn.{Fqdn}
use dnssec_tests.Fqdn.Names.{IsName}
use dnssec_tests.Record
use dnssec_tests.Record.{Record, new_a, new_ns, is_soa}
use dnssec_tests.Record.Soa.{Soa}
use dnssec_tests.ZoneFile.{ZoneFile, new, add, referral}
use dnssec_tests.ZoneFile.RoundTrip
use dnssec_tests.ZoneFile.RoundTrip.{IsEntry, IsValid}

pub new-IsValid : (soa : Soa) → Record.Soa.IsValid soa → IsValid (new soa)
unfolding new
new-IsValid soa h = record { origin = refl; soa = h; records = tt }

pub add-IsValid : (z : ZoneFile) (r : Record) → IsValid z → IsEntry r → IsValid (add z r)
unfolding add
add-IsValid z r v h = record {
  origin = v.origin;
  soa = v.soa;
  records = All-append _ z.records (r ∷ []) v.records (h, tt);
}

pub new_ns-IsEntry :
    (zone nameserver : Fqdn) → IsName zone → IsName nameserver → IsEntry (new_ns zone nameserver)
unfolding new_ns is_soa
new_ns-IsEntry zone nameserver h k = record {
  valid = record { zone = h; ttl = omega arith; nameserver = k };
  plain = tt;
  not_soa = refl;
}

pub new_a-IsEntry :
    (name : Fqdn) (addr : Ipv4Addr) → IsName name → Ipv4.IsValid addr → IsEntry (new_a name addr)
unfolding new_a is_soa
new_a-IsEntry name addr h k = record {
  valid = record { fqdn = h; ttl = omega arith; ipv4_addr = k };
  plain = tt;
  not_soa = refl;
}

pub referral-IsValid :
    (z : ZoneFile) (zone nameserver : Fqdn) (addr : Ipv4Addr)
    → IsValid z
    → IsName zone
    → IsName nameserver
    → Ipv4.IsValid addr
    → IsValid (referral z zone nameserver addr)
unfolding referral
referral-IsValid z zone nameserver addr v h k a =
    add-IsValid _ _ (add-IsValid z _ v (new_ns-IsEntry zone nameserver h k))
      (new_a-IsEntry nameserver addr k a)

-- The zone files that a client of the module can make out of valid parts.
pub data Built : ZoneFile → Type 0 where
  created : (soa : Soa) → Record.Soa.IsValid soa → Built (new soa)
  added : {z : ZoneFile} (r : Record) → Built z → IsEntry r → Built (add z r)
  referred :
      {z : ZoneFile} (zone nameserver : Fqdn) (addr : Ipv4Addr)
      → Built z
      → IsName zone
      → IsName nameserver
      → Ipv4.IsValid addr
      → Built (referral z zone nameserver addr)

pub Built-IsValid : {z : ZoneFile} → Built z → IsValid z
Built-IsValid (created soa h) = new-IsValid soa h
Built-IsValid (added r b h) = add-IsValid _ r (Built-IsValid b) h
Built-IsValid (referred zone nameserver addr b h k a) =
    referral-IsValid _ zone nameserver addr (Built-IsValid b) h k a
