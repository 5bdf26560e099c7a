-- ===== src/Client/Query.antt =====
-- `Client` of packages/dns-test/src/client.rs: the runs of `dig` and `delv` in a container.
pub mod Described
use dnssec_tests.Base.{List, [], ◌∷◌, if◌then◌else◌}
use dnssec_tests.Text.{Text, codes, format}
use dnssec_tests.Error.{ok, panic}
use dnssec_tests.Ipv4
use dnssec_tests.Ipv4.{Ipv4Addr}
use dnssec_tests.Fqdn.{Fqdn}
use dnssec_tests.Record.RecordType
use dnssec_tests.TrustAnchor
use dnssec_tests.TrustAnchor.{TrustAnchor}
use dnssec_tests.System.{System, Io, ◌>>=◌, ◌>>◌, lift}
use dnssec_tests.Container
use dnssec_tests.Container.{Container, Network, run, stdout, cp}
use dnssec_tests.Client.DigSettings.{DigSettings, rdflag, do_bit, adflag, cdflag}
use dnssec_tests.Client.DigOutput
use dnssec_tests.Client.DigOutput.{DigOutput}

pub record Client : Type 0 where
  pub inner : Container

unfoldable pub dig_command : DigSettings → Ipv4Addr → RecordType.RecordType → Fqdn → List Text
unfolding rdflag do_bit adflag cdflag
dig_command settings server record_type fqdn =
    codes "dig"
    ∷ rdflag settings
    ∷ do_bit settings
    ∷ adflag settings
    ∷ cdflag settings
    ∷ format (codes "@" ∷ Ipv4.to_string server ∷ [])
    ∷ RecordType.to_string record_type
    ∷ fqdn.inner
    ∷ []

abbrev trust_anchor_path : Text
trust_anchor_path = codes "/etc/bind.keys"

module _ {World : Type 0} (system : System World) where
  unfoldable pub new : Network → Io World Client
  unfolding run
  new network = do
    inner ← run system Container.Image.Image.client network
    lift (ok (record { inner = inner }))

  unfoldable pub dig :
      Client → DigSettings → Ipv4Addr → RecordType.RecordType → Fqdn → Io World DigOutput
  unfolding dig_command stdout
  dig client settings server record_type fqdn = do
    output ← stdout system client.inner (dig_command settings server record_type fqdn)
    lift (DigOutput.from_str output)

  unfoldable pub delv :
      Client → Ipv4Addr → RecordType.RecordType → Fqdn → TrustAnchor → Io World Text
  unfolding cp stdout TrustAnchor.is_empty TrustAnchor.delv
  delv client server record_type fqdn anchor =
      if TrustAnchor.is_empty anchor
      then lift (panic (codes "`delv` cannot be used with an empty trust anchor"))
      else (do
        cp system client.inner trust_anchor_path (TrustAnchor.delv anchor)
        stdout system client.inner (
            codes "delv"
            ∷ format (codes "@" ∷ Ipv4.to_string server ∷ [])
            ∷ codes "-a"
            ∷ trust_anchor_path
            ∷ fqdn.inner
            ∷ RecordType.to_string record_type
            ∷ []))
