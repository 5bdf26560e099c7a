-- ===== src/Conformance/Fixtures.antt =====
-- packages/conformance-tests/src/resolver/dnssec/fixtures.rs: the networks that several tests start.
use dnssec_tests.Base.{ℕ, List, Option, none, some}
use dnssec_tests.Text.{Text, codes}
use dnssec_tests.Error
use dnssec_tests.Error.{Result, ok, err, panic}
use dnssec_tests.Ipv4.{Ipv4Addr}
use dnssec_tests.Fqdn.{Fqdn, nameservers, parent}
use dnssec_tests.Record
use dnssec_tests.TrustAnchor.{TrustAnchor}
use dnssec_tests.Implementation.{Implementation}
use dnssec_tests.Implementation.Templates.{Value}
use dnssec_tests.System.{System, Io, ◌>>=◌, ◌>>◌, lift}
use dnssec_tests.Container.Networks
use dnssec_tests.NameServer.{NameServer, Running, add}
use dnssec_tests.NameServer.Lifecycle
use dnssec_tests.NameServer.Links.{is_some_eq}
use dnssec_tests.NameServer.Graph.{Sign, Graph, build}
use dnssec_tests.Resolver
use dnssec_tests.Resolver.Start
use dnssec_tests.Resolver.Start.{Resolver}
use dnssec_tests.Conformance.Amend.{bad_signature}
use dnssec_tests.Conformance.Checks.{assert, not_equal}

-- `Option::unwrap`.
abbrev pub unwrap : {A : Type 0} → Option A → Result A
unwrap none = panic (codes "called `Option::unwrap()` on a `None` value")
unwrap (some a) = ok a

-- The assertion that both fixtures begin with.
unfoldable pub check_parent : Fqdn → Result (Unit {0})
unfolding parent
check_parent leaf_fqdn =
    Error.◌>>=◌ (parent leaf_fqdn) λ zone. assert not_equal (is_some_eq nameservers zone)

-- The implementations under test, and the peers, are those that the environment names.
module _ {World : Type 0} (system : System World) (render : Text → List (Text × Value) → Text)
    (subject peer : Implementation) where
  unfoldable pub bad_signature_in_leaf_nameserver :
      (Text → Result (List ℕ)) → (List ℕ → Text) → Fqdn → Ipv4Addr → Io World (Resolver × Graph)
  unfolding check_parent Networks.new Lifecycle.new add build bad_signature Resolver.new
      Resolver.trust_anchor Start.start
  bad_signature_in_leaf_nameserver decode encode leaf_fqdn leaf_ipv4_addr = do
    lift (check_parent leaf_fqdn)
    network ← Networks.new system
    leaf_ns ← Lifecycle.new system render peer nameservers network
    graph ←
        build system render (add leaf_ns (Record.new_a leaf_fqdn leaf_ipv4_addr))
          (Sign.and_amend (bad_signature decode encode leaf_fqdn))
    trust_anchor ← lift (unwrap graph.trust_anchor)
    resolver ←
        Start.start system render
          (Resolver.trust_anchor (Resolver.new network graph.root) trust_anchor) subject
    lift (ok (resolver, graph))

  unfoldable pub minimally_secure :
      Fqdn → Ipv4Addr → Io World (Resolver × List (NameServer Running) × TrustAnchor)
  unfolding check_parent Networks.new Lifecycle.new add build Resolver.new Resolver.trust_anchor
      Start.start
  minimally_secure leaf_fqdn leaf_ipv4_addr = do
    lift (check_parent leaf_fqdn)
    network ← Networks.new system
    leaf_ns ← Lifecycle.new system render peer nameservers network
    graph ← build system render (add leaf_ns (Record.new_a leaf_fqdn leaf_ipv4_addr)) Sign.yes
    trust_anchor ← lift (unwrap graph.trust_anchor)
    resolver ←
        Start.start system render
          (Resolver.trust_anchor (Resolver.new network graph.root) trust_anchor) subject
    lift (ok (resolver, graph.nameservers, trust_anchor))
