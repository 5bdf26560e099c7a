-- ===== src/Conformance/Authority.antt =====
-- The tests of name servers: packages/conformance-tests/src/name_server.
use dnssec_tests.Base.{Bool, true, false, List}
use dnssec_tests.Text.{Text, codes}
use dnssec_tests.Error.{message, Result, ok, err, panic}
use dnssec_tests.Fqdn
use dnssec_tests.Fqdn.{Fqdn, fqdn, nameservers, com_zone, root}
use dnssec_tests.Record.{Record}
use dnssec_tests.Record.RecordType
use dnssec_tests.Implementation.{Implementation}
use dnssec_tests.Implementation.Templates.{Value}
use dnssec_tests.System.{System, Io, ◌>>=◌, ◌>>◌, lift}
use dnssec_tests.Container.Networks
use dnssec_tests.Client.Query
use dnssec_tests.Client.Query.{Client, dig, delv}
use dnssec_tests.Client.DigSettings
use dnssec_tests.Client.DigSettings.{authentic_data, checking_disabled, set_dnssec, set_recurse}
use dnssec_tests.Client.DigStatus.{is_noerror}
use dnssec_tests.NameServer
use dnssec_tests.NameServer.{NameServer, Running, Signed, Stopped, add, root_hint, zone, ipv4_addr}
use dnssec_tests.NameServer.Lifecycle
use dnssec_tests.NameServer.Lifecycle.{sign, start, start_signed}
use dnssec_tests.Conformance.Checks.{assert, not_equal}
use dnssec_tests.Conformance.Answers.{pair, as_rrsig, is_a, is_ns}

-- A record of this type, which `text` tells if it is another, and then the RRSIG record that covers it, of this name.
unfoldable pub check_signed :
    Text → (Record → Bool) → (RecordType.RecordType → Bool) → Fqdn → List Record → Result (Unit {0})
unfolding Fqdn.eq
check_signed text is_type covers name records = dnssec_tests.Error.◌>>=◌ (pair records) λ (r, s).
    dnssec_tests.Error.◌>>◌ (assert text (is_type r)) (
      dnssec_tests.Error.◌>>=◌ (as_rrsig s) λ rrsig.
        dnssec_tests.Error.◌>>◌ (assert not_equal (covers rrsig.type_covered))
          (assert not_equal (Fqdn.eq name rrsig.fqdn)))

abbrev pub covers_a : RecordType.RecordType → Bool
covers_a RecordType.a = true
covers_a _ = false

abbrev pub covers_ns : RecordType.RecordType → Bool
covers_ns RecordType.ns = true
covers_ns _ = false

module _ {World : Type 0} (system : System World) (render : Text → List (Text × Value) → Text)
    (subject : Implementation) where
  unfoldable pub authoritative_answer : Io World (Unit {0})
  unfolding Networks.new Lifecycle.new start Query.new dig is_noerror
  authoritative_answer = do
    network ← Networks.new system
    ns ← Lifecycle.new system render subject root network
    ns ← start system render ns
    client ← Query.new system network
    output ← dig system client DigSettings.default (ipv4_addr ns) RecordType.soa root
    lift (assert (codes "assertion failed: output.status.is_noerror()") (is_noerror output.status))
    lift (
        assert (codes "assertion failed: ans.flags.authoritative_answer")
          output.flags.authoritative_answer)

  unfoldable pub rrsig_in_answer_section : Io World (Unit {0})
  unfolding Networks.new Lifecycle.new sign start_signed Query.new dig set_dnssec is_noerror
      check_signed
  rrsig_in_answer_section = do
    network ← Networks.new system
    ns ← Lifecycle.new system render subject root network
    signed ← sign system render ns
    ns ← start_signed system render signed
    client ← Query.new system network
    output ←
        dig system client (set_dnssec DigSettings.default) (ipv4_addr ns) RecordType.a
          (NameServer.name ns)
    lift (assert (codes "assertion failed: output.status.is_noerror()") (is_noerror output.status))
    lift (
        check_signed (codes "assertion failed: matches!(a, Record::A(..))") is_a covers_a
          (NameServer.name ns) output.answer)

  unfoldable pub rrsig_in_authority_section : Io World (Unit {0})
  unfolding Networks.new Lifecycle.new sign start_signed Query.new dig set_dnssec is_noerror
      check_signed
  rrsig_in_authority_section = do
    network ← Networks.new system
    ns ← Lifecycle.new system render subject root network
    signed ← sign system render ns
    ns ← start_signed system render signed
    client ← Query.new system network
    output ← dig system client (set_dnssec DigSettings.default) (ipv4_addr ns) RecordType.soa root
    lift (assert (codes "assertion failed: output.status.is_noerror()") (is_noerror output.status))
    lift (
        check_signed (codes "assertion failed: matches!(ns, Record::NS(..))") is_ns covers_ns root
          output.authority)
