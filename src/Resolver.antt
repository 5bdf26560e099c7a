-- ===== src/Resolver.antt =====
-- packages/dns-test/src/resolver.rs: recursive resolvers and their settings.
pub mod Start
pub mod Trust
pub mod Started
use dnssec_tests.Base.{not, Bool, true, false, List, [], ◌∷◌, ◌++◌, if◌then◌else◌}
use dnssec_tests.Text.{Text, codes, format}
use dnssec_tests.Record.Dnskey.{Dnskey}
use dnssec_tests.TrustAnchor
use dnssec_tests.TrustAnchor.{TrustAnchor}
use dnssec_tests.ZoneFile.Root
use dnssec_tests.Container.{Network}

pub record ResolverSettings : Type 0 where
  pub ede : Bool
  pub network : Network
  pub roots : List Root.Root
  pub trust_anchor : TrustAnchor

-- `Resolver::new`.
unfoldable pub new : Network → Root.Root → ResolverSettings
unfolding TrustAnchor.empty
new network root = record {
  ede = false;
  network = network;
  roots = root ∷ [];
  trust_anchor = TrustAnchor.empty;
}

unfoldable pub extended_dns_errors : ResolverSettings → ResolverSettings
extended_dns_errors settings = record settings { ede = true }

unfoldable pub add_root : ResolverSettings → Root.Root → ResolverSettings
add_root settings root = record settings { roots = settings.roots ++ root ∷ [] }

unfoldable pub trust_anchor_key : ResolverSettings → Dnskey → ResolverSettings
unfolding TrustAnchor.add
trust_anchor_key settings key = record settings {
  trust_anchor = TrustAnchor.add settings.trust_anchor key;
}

unfoldable pub add_keys : ResolverSettings → List Dnskey → ResolverSettings
unfolding trust_anchor_key
add_keys settings [] = settings
add_keys settings (key ∷ keys) = add_keys (trust_anchor_key settings key) keys

unfoldable pub trust_anchor : ResolverSettings → TrustAnchor → ResolverSettings
unfolding add_keys
trust_anchor settings other = add_keys settings other.keys

-- The file of the root hints.
unfoldable pub write_hints : List Root.Root → Text
unfolding Root.to_string
write_hints [] = []
write_hints (root ∷ roots) = format (Root.to_string root ∷ codes "\n" ∷ []) ++ write_hints roots

unfoldable pub use_dnssec : ResolverSettings → Bool
unfolding TrustAnchor.is_empty
use_dnssec settings = not (TrustAnchor.is_empty settings.trust_anchor)
