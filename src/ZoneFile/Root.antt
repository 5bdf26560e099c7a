-- ===== src/ZoneFile/Root.antt =====
-- `Root` of packages/dns-test/src/zone_file/mod.rs: a root hint.
use dnssec_tests.Base.{ℕ, [], ◌∷◌, ◌++◌}
use dnssec_tests.Text.{Text, codes, format}
use dnssec_tests.Uint.{uint_to_string}
use dnssec_tests.Ipv4
use dnssec_tests.Ipv4.{Ipv4Addr}
use dnssec_tests.Fqdn.{Fqdn}
use dnssec_tests.Record.Common.{default_ttl}

pub record Root : Type 0 where
  pub ipv4_addr : Ipv4Addr
  pub ns : Fqdn
  pub ttl : ℕ

unfoldable pub new : Fqdn → Ipv4Addr → Root
new ns ipv4_addr = record { ipv4_addr = ipv4_addr; ns = ns; ttl = default_ttl }

unfoldable pub to_string : Root → Text
to_string hint =
    format
      (codes ".\t" ∷ uint_to_string hint.ttl ∷ codes "\tNS\t" ∷ hint.ns.inner ∷ codes "\n" ∷ [])
    ++ format (
        hint.ns.inner
        ∷ codes "\t"
        ∷ uint_to_string hint.ttl
        ∷ codes "\tA\t"
        ∷ Ipv4.to_string hint.ipv4_addr
        ∷ [])
