-- ===== src/Tests/Starts.antt =====
-- The starts of servers on a machine with a log: packages/dns-test/src/name_server.rs and resolver.rs.
use dnssec_tests.Base.{Bool, true, false, List, [], ◌∷◌, ◌≡◌, refl}
use dnssec_tests.Text.{codes}
use dnssec_tests.Error.{Result, ok, err, panic}
use dnssec_tests.Uint
use dnssec_tests.Ipv4
use dnssec_tests.Fqdn.{com_zone}
use dnssec_tests.ZoneFile
use dnssec_tests.Implementation.{Implementation}
use dnssec_tests.System.{State, Once, ◌>>=◌}
use dnssec_tests.System.Logged.{Call, logged, Makes, EndsIn}
use dnssec_tests.Container
use dnssec_tests.NameServer.{NameServer, Signed}
use dnssec_tests.NameServer.Lifecycle
use dnssec_tests.NameServer.Started.{make_directory, start_calls}
use dnssec_tests.Resolver.{ResolverSettings}
use dnssec_tests.Resolver.Start.{Resolver}
use dnssec_tests.Resolver.Started.{AreStartCalls, start-AreStartCalls}
use dnssec_tests.Tests.Data.{key, soa}
use dnssec_tests.Tests.Servers.{machine, server_of, render_template}

abbrev settings : ResolverSettings
settings = record {
  ede = false;
  network = record { name = codes "net"; subnet = codes "10.0.0.0/8" };
  roots = [];
  trust_anchor = record { keys = key ∷ [] };
}

abbrev initial : State (Unit {0} × List Call)
initial = record {
  ns_count = 0;
  container_count = 0;
  network_count = 1;
  tshark_count = 0;
  onces = λ _. Once.incomplete;
  world = (tt, []);
}

abbrev is_ok : {A World : Type 0} → Result A × World → Bool
is_ok (ok a, w) = true
is_ok (err e, w) = false
is_ok (panic m, w) = false

-- The resolver starts on this machine.
start-unbound :
    is_ok (
      dnssec_tests.Resolver.Start.start
        (logged machine)
        render_template
        settings
        Implementation.unbound
        initial)
    ≡ true
unfolding dnssec_tests.Resolver.Start.start ◌>>=◌ Ipv4.from_str Uint.uint_to_string
    Container.Image.from_implementation
start-unbound = refl

start-IsStart_example : EndsIn (AreStartCalls render_template settings Implementation.unbound) (
    dnssec_tests.Resolver.Start.start
      (logged machine)
      render_template
      settings
      Implementation.unbound)
start-IsStart_example = start-AreStartCalls machine render_template settings Implementation.unbound

-- A signed server; only its signed zone file matters.
abbrev signed : NameServer Signed
signed = record {
  container = (server_of com_zone).container;
  implementation = Implementation.unbound;
  zone_file = ZoneFile.new soa;
  state = record {
    ds = record {
      zone = com_zone;
      ttl = 3600;
      key_tag = 2;
      algorithm = 7;
      digest_type = 2;
      digest = codes "0011";
    };
    zsk = key;
    ksk = key;
    signed = ZoneFile.new soa;
  };
}

start_calls_example :
    Makes
      (λ _ calls.
        dnssec_tests.NameServer.Started.AreStartCalls render_template Implementation.unbound
          (server_of com_zone).container
          (server_of com_zone).zone_file
          (server_of com_zone).zone_file
          (make_directory (server_of com_zone).container)
          calls)
      (Lifecycle.start (logged machine) render_template (server_of com_zone))
    × Makes
        (λ _ calls.
          dnssec_tests.NameServer.Started.AreStartCalls render_template Implementation.unbound
            signed.container signed.zone_file signed.state.signed [] calls)
        (Lifecycle.start_signed (logged machine) render_template signed)
start_calls_example = start_calls machine render_template (server_of com_zone) signed
