-- ===== src/Tests/Signing.antt =====
-- A name server that is signed on a machine with scripted output: packages/dns-test/src/name_server.rs.
use dnssec_tests.Base.{ℕ, none, true, false, List, [], ◌∷◌, ◌++◌, ◌≡◌, refl, map, length}
use dnssec_tests.Text.{Text, codes, lines}
use dnssec_tests.Error.{Result, ok, err, panic}
use dnssec_tests.Uint
use dnssec_tests.Fqdn
use dnssec_tests.Fqdn.{com_zone, nameservers, root, num_labels}
use dnssec_tests.Record
use dnssec_tests.Record.Ds
use dnssec_tests.Record.Soa
use dnssec_tests.ZoneFile
use dnssec_tests.ZoneFile.Entry
use dnssec_tests.System.{System, State, Once, ProcessOutput, ◌>>=◌}
use dnssec_tests.NameServer.{NameServer, Signed, Running}
use dnssec_tests.NameServer.Lifecycle.{sign}
use dnssec_tests.NameServer.Zones.{SignedFrom, sign-SignedFrom}
use dnssec_tests.NameServer.Graph.{sign_all}
use dnssec_tests.NameServer.Graph.Delegated.{IsChain, sign_all-IsChain}
use dnssec_tests.System.Returns.{Returns}
use dnssec_tests.TrustAnchor
use dnssec_tests.TrustAnchor.{TrustAnchor}
use dnssec_tests.Tests.Servers.{process, server_of, leaf_zone, render_template}

-- A machine whose commands print these texts, one after another.
abbrev pop : List Text → Result ProcessOutput × List Text
pop [] = (panic [], [])
pop (t ∷ ts) = (
  ok (record {
    success = true;
    stderr = ok [];
    stdout = ok t;
    stderr_lossy = [];
    stdout_lossy = t;
  }),
  ts,
)

abbrev scripted : System (List Text)
scripted = record {
  id = 1;
  verbose_docker_build = false;
  output = λ _ w. pop w;
  status = λ _ w. (ok true, w);
  spawn = λ _ w. (ok process, w);
  wait_with_output = λ _ w. pop w;
  temp_dir = λ w. (ok (codes "/tmp/dir"), w);
  temp_file = λ w. (ok (codes "/tmp/file"), w);
  write = λ _ _ w. (ok tt, w);
}

-- What the commands print when one server is signed and started.
abbrev printed : List Text
printed =
    []
    ∷ codes "Kcom.+007+00001"
    ∷ codes "com. IN DNSKEY 256 3 7 AwEAAb ;{id = 1 (zsk), size = 1024b}\n"
    ∷ codes "Kcom.+007+00002"
    ∷ codes "com. IN DNSKEY 257 3 7 AwEAAc ;{id = 2 (ksk), size = 2048b}\n"
    ∷ codes "com. 3600 IN DS 2 7 2 0011\n"
    ∷ codes "com. 86400 IN SOA a. b. 1 2 3 4 5\n"
    ∷ []
    ∷ []
    ∷ []

abbrev script : State (List Text)
script = record {
  ns_count = 0;
  container_count = 0;
  network_count = 1;
  tshark_count = 0;
  onces = λ _. Once.incomplete;
  world = printed ++ (printed ++ (printed ++ printed));
}

abbrev signed_flags : Result (NameServer Signed) × State (List Text) → List ℕ
signed_flags (ok server, state) =
    server.state.zsk.flags ∷ server.state.ksk.flags ∷ server.state.ksk.ttl ∷ []
signed_flags (err e, state) = []
signed_flags (panic m, state) = []

sign-scripted :
    signed_flags (sign scripted render_template (server_of com_zone) script)
    ≡ 256 ∷ 257 ∷ 86400 ∷ []
unfolding sign ◌>>=◌ Entry.from_str Fqdn.from_str Uint.parse_uint Ds.from_str ZoneFile.from_str
    lines Record.from_str Soa.from_str ZoneFile.new
sign-scripted = refl

sign-SignedFrom_example :
    Returns (SignedFrom (server_of com_zone)) (sign scripted render_template (server_of com_zone))
sign-SignedFrom_example = sign-SignedFrom scripted render_template (server_of com_zone)

abbrev counts : Result (List (NameServer Running) × TrustAnchor) × State (List Text) → List ℕ
counts (ok (servers, anchor), state) =
    map (λ server. length server.zone_file.records) servers ++ length anchor.keys ∷ []
counts (err e, state) = []
counts (panic m, state) = []

-- All four servers run: com. with two DS records, the root with one; and two keys are trusted.
sign_all-scripted :
    counts (
      sign_all scripted render_template none [] 0 TrustAnchor.empty
        (server_of nameservers ∷ server_of leaf_zone ∷ server_of com_zone ∷ server_of root ∷ [])
        script)
    ≡ 0 ∷ 0 ∷ 2 ∷ 1 ∷ 2 ∷ []
unfolding sign_all ◌>>=◌ Entry.from_str Fqdn.from_str Uint.parse_uint Ds.from_str ZoneFile.from_str
    lines Record.from_str Soa.from_str ZoneFile.new TrustAnchor.empty
sign_all-scripted = refl

sign_all-IsChain_example :
    Returns
      (λ p.
        IsChain scripted render_template
          (server_of nameservers)
          (server_of leaf_zone)
          (server_of com_zone)
          (server_of root)
          p.0)
      (sign_all scripted render_template none [] 0 TrustAnchor.empty
        (server_of nameservers ∷ server_of leaf_zone ∷ server_of com_zone ∷ server_of root ∷ []))
unfolding num_labels ZoneFile.new
sign_all-IsChain_example =
    sign_all-IsChain scripted render_template none TrustAnchor.empty (server_of nameservers)
      (server_of leaf_zone) (server_of com_zone) (server_of root) refl refl refl
