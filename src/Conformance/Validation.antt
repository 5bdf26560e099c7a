-- ===== src/Conformance/Validation.antt =====
-- The tests of resolvers without DNSSEC, of the validation of signed zones, and of the refusal of bogus
-- ones: packages/conformance-tests/src/resolver, dns/scenarios.rs and dnssec/scenarios.
use dnssec_tests.Base.{ℕ, not, ◌∷◌, [], List}
use dnssec_tests.Text.{Text, codes, starts_with}
use dnssec_tests.Error.{Result}
use dnssec_tests.Fqdn.{fqdn, nameservers, root}
use dnssec_tests.Record
use dnssec_tests.Record.{Record}
use dnssec_tests.Record.RecordType
use dnssec_tests.TrustAnchor
use dnssec_tests.TrustAnchor.{TrustAnchor}
use dnssec_tests.Implementation.{Implementation}
use dnssec_tests.Implementation.Templates.{Value}
use dnssec_tests.System.{System, Io, ◌>>=◌, ◌>>◌, lift}
use dnssec_tests.Container.Networks
use dnssec_tests.Client.Query
use dnssec_tests.Client.Query.{Client, dig, delv}
use dnssec_tests.Client.DigSettings
use dnssec_tests.Client.DigSettings.{authentic_data, checking_disabled, set_dnssec, set_recurse}
use dnssec_tests.Client.DigStatus.{is_noerror, is_nxdomain, is_servfail}
use dnssec_tests.NameServer
use dnssec_tests.NameServer.{NameServer, Running, Signed, Stopped, add, root_hint, zone, ipv4_addr}
use dnssec_tests.NameServer.Lifecycle
use dnssec_tests.NameServer.Lifecycle.{sign, start, start_signed}
use dnssec_tests.NameServer.Graph.{Sign, build}
use dnssec_tests.Resolver
use dnssec_tests.Resolver.{extended_dns_errors}
use dnssec_tests.Resolver.Start
use dnssec_tests.Resolver.Start.{Resolver}
use dnssec_tests.Conformance.Checks.{assert}
use dnssec_tests.Conformance.Fixtures.{bad_signature_in_leaf_nameserver, minimally_secure}
use dnssec_tests.Conformance.Answers.{needle_fqdn, needle_addr, check_a}

abbrev pub fully_validated : Text → Result (Unit {0})
unfolding starts_with
fully_validated output =
    assert (codes "assertion failed: output.starts_with(\"; fully validated\")")
      (starts_with (codes "; fully validated") output)

module _ {World : Type 0} (system : System World) (render : Text → List (Text × Value) → Text)
    (subject peer : Implementation) where
  unfoldable pub can_resolve : Io World (Unit {0})
  unfolding Networks.new Lifecycle.new add build Resolver.new Start.start Query.new dig set_recurse
      fqdn check_a is_noerror
  can_resolve = do
    name ← lift (fqdn needle_fqdn)
    network ← Networks.new system
    leaf_ns ← Lifecycle.new system render peer nameservers network
    graph ← build system render (add leaf_ns (Record.new_a name needle_addr)) Sign.no
    resolver ← Start.start system render (Resolver.new network graph.root) subject
    client ← Query.new system network
    output ←
        dig system client (set_recurse DigSettings.default) resolver.container.ipv4_addr
          RecordType.a name
    lift (assert (codes "assertion failed: output.status.is_noerror()") (is_noerror output.status))
    lift (check_a name needle_addr output.answer)

  unfoldable pub nxdomain : Io World (Unit {0})
  unfolding Networks.new Lifecycle.new build Resolver.new Start.start Query.new dig set_recurse fqdn
      is_nxdomain
  nxdomain = do
    name ← lift (fqdn (codes "unicorn.nameservers.com."))
    network ← Networks.new system
    leaf_ns ← Lifecycle.new system render peer nameservers network
    graph ← build system render leaf_ns Sign.no
    resolver ← Start.start system render (Resolver.new network graph.root) subject
    client ← Query.new system network
    output ←
        dig system client (set_recurse DigSettings.default) resolver.container.ipv4_addr
          RecordType.a name
    lift (
        assert (codes "assertion failed: dbg!(output).status.is_nxdomain()")
          (is_nxdomain output.status))

  -- A chain of trust with a single link.
  unfoldable pub can_validate_without_delegation : Io World (Unit {0})
  unfolding Networks.new Lifecycle.new add NameServer.a sign start_signed root_hint Resolver.new
      Resolver.trust_anchor TrustAnchor.from_iter Start.start Query.new dig delv set_recurse
      authentic_data is_noerror
  can_validate_without_delegation = do
    network ← Networks.new system
    ns ← Lifecycle.new system render peer root network
    signed ← sign system render (add ns (NameServer.a ns))
    ns ← start_signed system render signed
    let trust_anchor = TrustAnchor.from_iter (signed.state.ksk ∷ signed.state.zsk ∷ [])
    resolver ←
        Start.start system render
          (Resolver.trust_anchor (Resolver.new network (root_hint ns)) trust_anchor) subject
    client ← Query.new system network
    output ←
        dig system client (authentic_data (set_recurse DigSettings.default))
          resolver.container.ipv4_addr RecordType.soa root
    lift (assert (codes "assertion failed: output.status.is_noerror()") (is_noerror output.status))
    lift (
        assert (codes "assertion failed: output.flags.authenticated_data")
          output.flags.authenticated_data)
    text ← delv system client resolver.container.ipv4_addr RecordType.soa root trust_anchor
    lift (fully_validated text)

  unfoldable pub can_validate_with_delegation : Io World (Unit {0})
  unfolding minimally_secure Query.new dig delv set_recurse authentic_data fqdn check_a is_noerror
  can_validate_with_delegation = do
    name ← lift (fqdn needle_fqdn)
    (resolver, _, trust_anchor) ← minimally_secure system render subject peer name needle_addr
    client ← Query.new system resolver.container.network
    output ←
        dig system client (authentic_data (set_recurse DigSettings.default))
          resolver.container.ipv4_addr RecordType.a name
    lift (assert (codes "assertion failed: output.status.is_noerror()") (is_noerror output.status))
    lift (
        assert (codes "assertion failed: output.flags.authenticated_data")
          output.flags.authenticated_data)
    lift (check_a name needle_addr output.answer)
    text ← delv system client resolver.container.ipv4_addr RecordType.a name trust_anchor
    lift (fully_validated text)

  -- The tests of data that is not authentic, without and with the CD bit.
  unfoldable pub if_cd_bit_is_clear_and_data_is_not_authentic_then_respond_with_servfail :
      (Text → Result (List ℕ)) → (List ℕ → Text) → Io World (Unit {0})
  unfolding bad_signature_in_leaf_nameserver Query.new dig set_recurse authentic_data fqdn
      is_servfail
  if_cd_bit_is_clear_and_data_is_not_authentic_then_respond_with_servfail decode encode = do
    name ← lift (fqdn needle_fqdn)
    (resolver, _) ←
        bad_signature_in_leaf_nameserver system render subject peer decode encode name needle_addr
    client ← Query.new system resolver.container.network
    output ←
        dig system client (authentic_data (set_recurse DigSettings.default))
          resolver.container.ipv4_addr RecordType.a name
    lift
        (assert (codes "assertion failed: output.status.is_servfail()") (is_servfail output.status))

  unfoldable pub if_cd_bit_is_set_then_respond_with_data_that_fails_authentication :
      (Text → Result (List ℕ)) → (List ℕ → Text) → Io World (Unit {0})
  unfolding bad_signature_in_leaf_nameserver Query.new dig set_recurse authentic_data
      checking_disabled fqdn check_a is_noerror
  if_cd_bit_is_set_then_respond_with_data_that_fails_authentication decode encode = do
    name ← lift (fqdn needle_fqdn)
    (resolver, _) ←
        bad_signature_in_leaf_nameserver system render subject peer decode encode name needle_addr
    client ← Query.new system resolver.container.network
    output ←
        dig system client (checking_disabled (authentic_data (set_recurse DigSettings.default)))
          resolver.container.ipv4_addr RecordType.a name
    lift (assert (codes "assertion failed: output.status.is_noerror()") (is_noerror output.status))
    lift (
        assert (codes "assertion failed: !output.flags.authenticated_data")
          (not output.flags.authenticated_data))
    lift (check_a name needle_addr output.answer)
