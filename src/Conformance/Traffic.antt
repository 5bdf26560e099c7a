-- ===== src/Conformance/Traffic.antt =====
-- The tests of packages/conformance-tests/src/resolver/dnssec/rfc4035 that watch the messages of a
-- resolver; `json` reads the trace of tshark.
use dnssec_tests.Base.{Bool, true, false, ◌∷◌, [], List, Option, none, some, if◌then◌else◌, map}
use dnssec_tests.Text.{Text, codes}
use dnssec_tests.Error.{message, Result, ok, err, panic}
use dnssec_tests.Ipv4.{Ipv4Addr}
use dnssec_tests.Fqdn
use dnssec_tests.Fqdn.{Fqdn, fqdn, nameservers, com_zone, root}
use dnssec_tests.Record.{Record}
use dnssec_tests.Record.RecordType
use dnssec_tests.Implementation.{Implementation}
use dnssec_tests.Implementation.Templates.{Value}
use dnssec_tests.System.{System, Io, ◌>>=◌, ◌>>◌, lift}
use dnssec_tests.Container.Networks
use dnssec_tests.Client.Query
use dnssec_tests.Client.Query.{Client, dig, delv}
use dnssec_tests.Client.DigSettings
use dnssec_tests.Client.DigSettings.{authentic_data, checking_disabled, set_dnssec, set_recurse}
use dnssec_tests.Client.DigStatus.{is_noerror}
use dnssec_tests.NameServer.{NameServer, Running, root_hint, zone, ipv4_addr}
use dnssec_tests.NameServer.Lifecycle
use dnssec_tests.NameServer.Lifecycle.{sign, start, start_signed}
use dnssec_tests.NameServer.Graph.{Sign, build}
use dnssec_tests.Resolver
use dnssec_tests.Resolver.{extended_dns_errors}
use dnssec_tests.Resolver.Start
use dnssec_tests.Resolver.Start.{Resolver}
use dnssec_tests.Tshark.{Layers}
use dnssec_tests.Tshark.Run
use dnssec_tests.Tshark.Run.{Tshark, eavesdrop, wait_for_capture}
use dnssec_tests.Conformance.Checks.{
  assert, not_equal, check_do_bit, check_edns, check_queries, clears_ad_flag, one_ds_query,
}
use dnssec_tests.Conformance.Fixtures.{unwrap, minimally_secure}
use dnssec_tests.Conformance.Answers.{
  only, pair, as_ds, needle_fqdn, needle_addr, is_soa, is_dnskey,
}

abbrev pub is_rrsig : Record → Bool
is_rrsig (Record.rrsig _) = true
is_rrsig _ = false

-- Every record of the answer is a key.
unfoldable pub check_dnskeys : List Record → Result (Unit {0})
check_dnskeys [] = ok tt
check_dnskeys (r ∷ rs) =
    dnssec_tests.Error.◌>>◌
      (assert (codes "assertion failed: matches!(record, Record::DNSKEY(_))") (is_dnskey r))
      (check_dnskeys rs)

-- The loop that looks for the server of `com.`: the last one wins.
unfoldable pub com_ns_addr : Option Ipv4Addr → List (NameServer Running) → Option Ipv4Addr
unfolding Fqdn.eq
com_ns_addr found [] = found
com_ns_addr found (ns ∷ servers) =
    com_ns_addr (if Fqdn.eq (zone ns) com_zone then some (ipv4_addr ns) else found) servers

abbrev pub expect_com : Option Ipv4Addr → Result Ipv4Addr
expect_com none = panic (codes "com. NS not found")
expect_com (some addr) = ok addr

module _ {World : Type 0} (system : System World) (render : Text → List (Text × Value) → Text)
    (json : Text → Result (List Layers)) (subject peer : Implementation) where
  -- The clients of section 3.2 and what they ask.
  unfoldable pub do_bit_not_set_in_request : Io World (Unit {0})
  unfolding Networks.new Lifecycle.new sign start_signed root_hint Resolver.new Start.start
      Query.new dig set_recurse eavesdrop wait_for_capture Run.terminate check_queries check_do_bit
  do_bit_not_set_in_request = do
    network ← Networks.new system
    ns ← Lifecycle.new system render peer root network
    signed ← sign system render ns
    ns ← start_signed system render signed
    resolver ← Start.start system render (Resolver.new network (root_hint ns)) subject
    tshark ← eavesdrop system resolver.container
    client ← Query.new system network
    output ←
        dig system client (set_recurse DigSettings.default) resolver.container.ipv4_addr
          RecordType.soa root
    answer ← lift (only output.answer)
    lift (assert (codes "assertion failed: matches!(answer, Record::SOA(_))") (is_soa answer))
    let (waited, tshark) = wait_for_capture tshark
    _ ← lift waited
    captures ← Run.terminate system json tshark
    lift (check_queries check_do_bit client.inner.ipv4_addr (ipv4_addr ns) captures)

  unfoldable pub do_bit_set_in_request : Io World (Unit {0})
  unfolding Networks.new Lifecycle.new sign start_signed root_hint Resolver.new Start.start
      Query.new dig set_recurse set_dnssec eavesdrop wait_for_capture Run.terminate check_queries
      check_do_bit
  do_bit_set_in_request = do
    network ← Networks.new system
    ns ← Lifecycle.new system render peer root network
    signed ← sign system render ns
    ns ← start_signed system render signed
    resolver ← Start.start system render (Resolver.new network (root_hint ns)) subject
    tshark ← eavesdrop system resolver.container
    client ← Query.new system network
    output ←
        dig system client (set_recurse (set_dnssec DigSettings.default))
          resolver.container.ipv4_addr RecordType.soa root
    (answer, signature) ← lift (pair output.answer)
    lift (assert (codes "assertion failed: matches!(answer, Record::SOA(_))") (is_soa answer))
    lift (assert (codes "assertion failed: matches!(rrsig, Record::RRSIG(_))") (is_rrsig signature))
    let (waited, tshark) = wait_for_capture tshark
    _ ← lift waited
    captures ← Run.terminate system json tshark
    lift (check_queries check_do_bit client.inner.ipv4_addr (ipv4_addr ns) captures)

  unfoldable pub if_do_bit_not_set_in_request_then_requested_dnssec_record_is_not_stripped :
      Io World (Unit {0})
  unfolding Networks.new Lifecycle.new sign start_signed root_hint Resolver.new Start.start
      Query.new dig set_recurse check_dnskeys
  if_do_bit_not_set_in_request_then_requested_dnssec_record_is_not_stripped = do
    network ← Networks.new system
    ns ← Lifecycle.new system render peer root network
    signed ← sign system render ns
    ns ← start_signed system render signed
    resolver ← Start.start system render (Resolver.new network (root_hint ns)) subject
    client ← Query.new system network
    output ←
        dig system client (set_recurse DigSettings.default) resolver.container.ipv4_addr
          RecordType.dnskey root
    lift (check_dnskeys output.answer)

  unfoldable pub copies_cd_bit_from_query_to_response : Io World (Unit {0})
  unfolding Networks.new Lifecycle.new start root_hint Resolver.new Start.start Query.new dig
      set_recurse checking_disabled
  copies_cd_bit_from_query_to_response = do
    network ← Networks.new system
    ns ← Lifecycle.new system render peer root network
    ns ← start system render ns
    resolver ← Start.start system render (Resolver.new network (root_hint ns)) subject
    client ← Query.new system network
    output ←
        dig system client (set_recurse (checking_disabled DigSettings.default))
          resolver.container.ipv4_addr RecordType.soa root
    lift (
        assert (codes "assertion failed: ans.flags.checking_disabled")
          output.flags.checking_disabled)

  unfoldable pub edns_support : Io World (Unit {0})
  unfolding Networks.new Lifecycle.new start root_hint Resolver.new Start.start Query.new dig
      set_recurse authentic_data eavesdrop wait_for_capture Run.terminate check_queries check_edns
  edns_support = do
    network ← Networks.new system
    ns ← Lifecycle.new system render peer root network
    ns ← start system render ns
    resolver ← Start.start system render (Resolver.new network (root_hint ns)) subject
    tshark ← eavesdrop system resolver.container
    client ← Query.new system network
    _ ←
        dig system client (set_recurse (authentic_data DigSettings.default))
          resolver.container.ipv4_addr RecordType.soa root
    let (waited, tshark) = wait_for_capture tshark
    _ ← lift waited
    captures ← Run.terminate system json tshark
    lift (check_queries check_edns client.inner.ipv4_addr (ipv4_addr ns) captures)

  unfoldable pub clears_ad_bit_in_outgoing_queries : Io World (Unit {0})
  unfolding minimally_secure Query.new dig set_recurse authentic_data fqdn eavesdrop
      wait_for_capture Run.terminate clears_ad_flag
  clears_ad_bit_in_outgoing_queries = do
    name ← lift (fqdn needle_fqdn)
    (resolver, servers, _) ← minimally_secure system render subject peer name needle_addr
    tshark ← eavesdrop system resolver.container
    client ← Query.new system resolver.container.network
    _ ←
        dig system client (authentic_data (set_recurse DigSettings.default))
          resolver.container.ipv4_addr RecordType.a name
    let (waited, tshark) = wait_for_capture tshark
    _ ← lift waited
    captures ← Run.terminate system json tshark
    lift (clears_ad_flag client.inner.ipv4_addr (map (λ ns. ipv4_addr ns) servers) captures)

  unfoldable pub on_clients_ds_query_it_queries_the_parent_zone : Io World (Unit {0})
  unfolding Networks.new Lifecycle.new build Resolver.new Resolver.trust_anchor Start.start
      Query.new dig set_recurse eavesdrop wait_for_capture Run.terminate is_noerror Fqdn.eq
      one_ds_query com_ns_addr
  on_clients_ds_query_it_queries_the_parent_zone = do
    network ← Networks.new system
    leaf_ns ← Lifecycle.new system render peer nameservers network
    graph ← build system render leaf_ns Sign.yes
    com_addr ← lift (expect_com (com_ns_addr none graph.nameservers))
    trust_anchor ← lift (unwrap graph.trust_anchor)
    resolver ←
        Start.start system render
          (Resolver.trust_anchor (Resolver.new network graph.root) trust_anchor) subject
    tshark ← eavesdrop system resolver.container
    client ← Query.new system network
    output ←
        dig system client (set_recurse DigSettings.default) resolver.container.ipv4_addr
          RecordType.ds nameservers
    let (waited, tshark) = wait_for_capture tshark
    _ ← lift waited
    captures ← Run.terminate system json tshark
    lift (assert (codes "assertion failed: output.status.is_noerror()") (is_noerror output.status))
    answer ← lift (only output.answer)
    ds ← lift (as_ds answer)
    lift (assert not_equal (Fqdn.eq ds.zone nameservers))
    lift (one_ds_query client.inner.ipv4_addr com_addr captures)
