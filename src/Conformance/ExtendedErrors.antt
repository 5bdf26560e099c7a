-- ===== src/Conformance/ExtendedErrors.antt =====
-- The tests of Extended DNS Errors: packages/conformance-tests/src/resolver/dnssec/scenarios/ede.rs.
use dnssec_tests.Base.{Bool, true, false, List, Option, none, some, if◌then◌else◌}
use dnssec_tests.Text.{Text, codes}
use dnssec_tests.Error.{message, Result, ok, err, panic}
use dnssec_tests.Fqdn.{Fqdn, fqdn, nameservers}
use dnssec_tests.Record
use dnssec_tests.Record.{Record}
use dnssec_tests.Record.RecordType
use dnssec_tests.Implementation.{Implementation, supports_ede}
use dnssec_tests.Implementation.Templates.{Value}
use dnssec_tests.System.{System, Io, ◌>>=◌, lift}
use dnssec_tests.Container.Networks
use dnssec_tests.Client.Query
use dnssec_tests.Client.Query.{Client, dig, delv}
use dnssec_tests.Client.DigSettings
use dnssec_tests.Client.DigSettings.{authentic_data, checking_disabled, set_dnssec, set_recurse}
use dnssec_tests.Client.DigStatus.{is_servfail}
use dnssec_tests.Client.ExtendedDnsError.{ExtendedDnsError}
use dnssec_tests.Client.DigOutput.{DigOutput}
use dnssec_tests.NameServer.{add}
use dnssec_tests.NameServer.Lifecycle
use dnssec_tests.NameServer.Lifecycle.{sign, start, start_signed}
use dnssec_tests.NameServer.Graph.{Sign, build}
use dnssec_tests.Resolver
use dnssec_tests.Resolver.{extended_dns_errors}
use dnssec_tests.Resolver.Start
use dnssec_tests.Resolver.Start.{Resolver}
use dnssec_tests.Conformance.Amend.{
  dnskey_missing, rrsigs_missing, unsupported_dnskey_algorithm, dnssec_bogus,
}
use dnssec_tests.Conformance.Checks.{assert, not_equal}
use dnssec_tests.Conformance.Fixtures.{unwrap}
use dnssec_tests.Conformance.Answers.{needle_fqdn, needle_addr}

-- `PartialEq` of `ExtendedDnsError`, derived.
abbrev pub same_ede : ExtendedDnsError → ExtendedDnsError → Bool
same_ede ExtendedDnsError.dnskey_missing ExtendedDnsError.dnskey_missing = true
same_ede ExtendedDnsError.dnssec_bogus ExtendedDnsError.dnssec_bogus = true
same_ede ExtendedDnsError.rrsigs_missing ExtendedDnsError.rrsigs_missing = true
same_ede ExtendedDnsError.unsupported_dnskey_algorithm
      ExtendedDnsError.unsupported_dnskey_algorithm =
    true
same_ede _ _ = false

-- `Some(expected) == ede`.
unfoldable pub has_ede : ExtendedDnsError → Option ExtendedDnsError → Bool
has_ede expected none = false
has_ede expected (some ede) = same_ede expected ede

-- The assertions on the output.
unfoldable pub check_ede : Bool → ExtendedDnsError → DigOutput → Result (Unit {0})
unfolding has_ede is_servfail
check_ede supports expected output =
    dnssec_tests.Error.◌>>◌
      (assert (codes "assertion failed: output.status.is_servfail()") (is_servfail output.status))
      (if supports then assert not_equal (has_ede expected output.ede) else ok tt)

-- The settings of the resolver ask for Extended DNS Errors if it supports them.
abbrev pub ede_settings : Bool → Resolver.ResolverSettings → Resolver.ResolverSettings
unfolding extended_dns_errors
ede_settings supports settings = if supports then extended_dns_errors settings else settings

module _ {World : Type 0} (system : System World) (render : Text → List (Text × Value) → Text)
    (subject peer : Implementation) where
  unfoldable pub fixture :
      ExtendedDnsError → (Fqdn → Fqdn → List Record → Result (List Record)) → Io World (Unit {0})
  unfolding Networks.new Lifecycle.new add build Resolver.new Resolver.trust_anchor Start.start
      Query.new dig set_recurse authentic_data fqdn check_ede supports_ede
  fixture expected amend = do
    let supports = supports_ede subject
    name ← lift (fqdn needle_fqdn)
    network ← Networks.new system
    leaf_ns ← Lifecycle.new system render peer nameservers network
    graph ←
        build system render (add leaf_ns (Record.new_a name needle_addr))
          (Sign.and_amend (amend name))
    let settings = ede_settings supports (Resolver.new network graph.root)
    trust_anchor ← lift (unwrap graph.trust_anchor)
    resolver ← Start.start system render (Resolver.trust_anchor settings trust_anchor) subject
    client ← Query.new system network
    output ←
        dig system client (authentic_data (set_recurse DigSettings.default))
          resolver.container.ipv4_addr RecordType.a name
    lift (check_ede supports expected output)

  unfoldable pub dnskey_missing_test : Io World (Unit {0})
  unfolding fixture dnskey_missing
  dnskey_missing_test = fixture ExtendedDnsError.dnskey_missing dnskey_missing

  unfoldable pub rrsigs_missing_test : Io World (Unit {0})
  unfolding fixture rrsigs_missing
  rrsigs_missing_test = fixture ExtendedDnsError.rrsigs_missing rrsigs_missing

  unfoldable pub unsupported_dnskey_algorithm_test : Io World (Unit {0})
  unfolding fixture unsupported_dnskey_algorithm
  unsupported_dnskey_algorithm_test =
      fixture ExtendedDnsError.unsupported_dnskey_algorithm unsupported_dnskey_algorithm

  unfoldable pub dnssec_bogus_test : Io World (Unit {0})
  unfolding fixture dnssec_bogus
  dnssec_bogus_test = fixture ExtendedDnsError.dnssec_bogus dnssec_bogus
