-- ===== src/TrustAnchor.antt =====
-- packages/dns-test/src/trust_anchor.rs: the keys that a validating resolver trusts.
pub mod RoundTrip
use dnssec_tests.Base.{Bool, List, [], ◌∷◌, ◌++◌}
use dnssec_tests.Text.{Text, codes, format}
use dnssec_tests.Text
use dnssec_tests.Record.Dnskey
use dnssec_tests.Record.Dnskey.{Dnskey}

pub record TrustAnchor : Type 0 where
  pub keys : List Dnskey

unfoldable pub empty : TrustAnchor
empty = record { keys = [] }

unfoldable pub is_empty : TrustAnchor → Bool
is_empty anchor = Text.is_empty anchor.keys

unfoldable pub add : TrustAnchor → Dnskey → TrustAnchor
add anchor key = record { keys = anchor.keys ++ key ∷ [] }

unfoldable pub push_delv : Text → List Dnskey → Text
push_delv buf [] = buf
push_delv buf (key ∷ keys) = push_delv (buf ++ Dnskey.delv key) keys

-- The format that `delv` expects.
unfoldable pub delv : TrustAnchor → Text
unfolding push_delv
delv anchor = push_delv (codes "trust-anchors {") anchor.keys ++ codes "};"

unfoldable pub write_keys : List Dnskey → Text
write_keys [] = []
write_keys (key ∷ keys) = format (Dnskey.to_string key ∷ codes "\n" ∷ []) ++ write_keys keys

-- `Display`: a key on each line.
unfoldable pub to_string : TrustAnchor → Text
unfolding write_keys
to_string anchor = write_keys anchor.keys

-- `FromIterator`.
unfoldable pub from_iter : List Dnskey → TrustAnchor
from_iter keys = record { keys = keys }
