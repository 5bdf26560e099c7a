-- ===== src/Resolver/Trust.antt =====
-- The settings of resolvers in packages/dns-test/src/resolver.rs.
use dnssec_tests.Base.{
  true, false, not, List, [], ◌∷◌, ◌++◌, append-nil, append_assoc, ◌≡◌, ◌≢◌, ◌↔◌, refl, ◌∙◌, All,
  All-append,
}
use dnssec_tests.Text.{is_empty, lines}
use dnssec_tests.Error.{ok}
use dnssec_tests.Record.Dnskey.{Dnskey}
use dnssec_tests.TrustAnchor
use dnssec_tests.TrustAnchor.{TrustAnchor}
use dnssec_tests.TrustAnchor.RoundTrip.{IsPlain, read_keys, read_keys-to_string}
use dnssec_tests.Implementation.{Implementation, is_bind}
use dnssec_tests.Resolver.{ResolverSettings, add_keys, trust_anchor_key, trust_anchor, use_dnssec}
use dnssec_tests.Resolver.Start.{key_contents}

-- The settings with more keys.
abbrev pub with_keys : ResolverSettings → List Dnskey → ResolverSettings
with_keys settings keys = record settings {
  trust_anchor = record { keys = settings.trust_anchor.keys ++ keys };
}

add_keys-with_keys :
    (settings : ResolverSettings) (keys : List Dnskey)
    → add_keys settings keys ≡ with_keys settings keys
unfolding add_keys trust_anchor_key TrustAnchor.add
add_keys-with_keys settings [] = rw append-nil
add_keys-with_keys settings (key ∷ keys) =
    add_keys-with_keys (trust_anchor_key settings key) keys ∙ rw append_assoc

-- The settings with a trust anchor ask for validation exactly if a key was trusted before or is among
-- the added ones; and if all these keys are valid and have no semicolon, the contents of the key file
-- of an implementation other than BIND are lines that are read as these keys, in order.
pub trust_anchor-keys :
    (settings : ResolverSettings) (other : TrustAnchor) (implementation : Implementation)
    → All IsPlain settings.trust_anchor.keys
    → All IsPlain other.keys
    → is_bind implementation ≡ false
    → ((use_dnssec (trust_anchor settings other) ≡ true)
        ↔ (settings.trust_anchor.keys ++ other.keys ≢ []))
      × (read_keys (lines (key_contents implementation (trust_anchor settings other).trust_anchor))
          ≡ ok (settings.trust_anchor.keys ++ other.keys))
unfolding trust_anchor use_dnssec TrustAnchor.is_empty key_contents
trust_anchor-keys settings other implementation h k b =
    rw (add_keys-with_keys settings other.keys) (
      cases (settings.trust_anchor.keys ++ other.keys),
      rw b (read_keys-to_string _ (All-append _ settings.trust_anchor.keys other.keys h k)),
    )
  where
    cases : (keys : List Dnskey) → (not (is_empty keys) ≡ true) ↔ (keys ≢ [])
    cases [] = ((λ e. cc), (λ h. absurd (h refl)))
    cases (key ∷ keys) = ((λ e. cc), (λ h. refl))
