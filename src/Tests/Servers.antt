-- ===== src/Tests/Servers.antt =====
-- Name servers and graphs: packages/dns-test/src/name_server.rs; the output of commands: container.rs.
use dnssec_tests.Base.{true, false, List, [], ◌∷◌, ◌+◌, ◌≡◌, refl, arith, map, All, some}
use dnssec_tests.Text.{Text, codes, is_whitespace}
use dnssec_tests.Text.Columns.{is_word, is_word-IsWord}
use dnssec_tests.Text.Splits.{lacks, lacks-Lacks}
use dnssec_tests.Error.{Result, ok, err, panic}
use dnssec_tests.Uint
use dnssec_tests.Ipv4
use dnssec_tests.Fqdn.{Fqdn, fqdn, com_zone, nameservers, root}
use dnssec_tests.Fqdn.Names.{IsName}
use dnssec_tests.Fqdn.Labels.{IsLabel}
use dnssec_tests.Record
use dnssec_tests.Record.{Record}
use dnssec_tests.Record.Soa
use dnssec_tests.Record.Soa.{default_settings}
use dnssec_tests.ZoneFile
use dnssec_tests.ZoneFile.Build.{created}
use dnssec_tests.Implementation.{Implementation}
use dnssec_tests.Implementation.Templates.{Value}
use dnssec_tests.System.{System, State, Once, Process, ProcessOutput, ◌>>=◌}
use dnssec_tests.System.Returns.{Returns}
use dnssec_tests.Container
use dnssec_tests.Container.{Container, Network, is_line_end, pop_line_ends}
use dnssec_tests.NameServer.{NameServer, Stopped, stopped, zone, referral_nameserver, primary_ns}
use dnssec_tests.NameServer.Names.{primary_ns-IsName}
use dnssec_tests.NameServer.Lifecycle.{new}
use dnssec_tests.NameServer.Zones.{WellFormed, IsNew, new-IsNew}
use dnssec_tests.NameServer.Links.{second_pass}
use dnssec_tests.NameServer.Links.Referrals.{second_pass-chain}
use dnssec_tests.NameServer.Graph.{Graph, Sign, build, first_pass}
use dnssec_tests.NameServer.Graph.Ancestors.{first_pass-fuel}
use dnssec_tests.NameServer.Graph.Built.{TrustedBy, build-WellFormed}
use dnssec_tests.Tests.Data.{com_zone-IsName, soa, soa-IsValid}

-- A machine on which every command succeeds and prints an address.
abbrev answer : ProcessOutput
answer = record {
  success = true;
  stderr = ok [];
  stdout = ok (codes "10.0.0.1\n");
  stderr_lossy = [];
  stdout_lossy = codes "10.0.0.1\n";
}

abbrev pub process : Process
process = record { id = 7; stdout = some [] }

abbrev pub machine : System Unit
machine = record {
  id = 1;
  verbose_docker_build = false;
  output = λ _ w. (ok answer, w);
  status = λ _ w. (ok true, w);
  spawn = λ _ w. (ok process, w);
  wait_with_output = λ _ w. (ok answer, w);
  temp_dir = λ w. (ok (codes "/tmp/dir"), w);
  temp_file = λ w. (ok (codes "/tmp/file"), w);
  write = λ _ _ w. (ok tt, w);
}

abbrev initial : State Unit
initial = record {
  ns_count = 0;
  container_count = 0;
  network_count = 1;
  tshark_count = 0;
  onces = λ _. Once.incomplete;
  world = tt;
}

abbrev pub render_template : Text → List (Text × Value) → Text
render_template t _ = t

abbrev network : Network
network = record { name = codes "net"; subnet = codes "10.0.0.0/8" }

abbrev pub server_of : Fqdn → NameServer Stopped
server_of zone = record {
  container = record {
    name = codes "c";
    id = codes "1";
    ipv4_addr = record { octet0 = 10; octet1 = 0; octet2 = 0; octet3 = 1 };
    network = network;
  };
  implementation = Implementation.unbound;
  state = stopped;
  zone_file = ZoneFile.new (record soa { zone = zone });
}

primary_ns-IsName_example : (name : Fqdn) × (primary_ns 3 com_zone ≡ ok name) × IsName name
primary_ns-IsName_example = primary_ns-IsName 3 com_zone com_zone-IsName

-- The name server that `new` returns on this machine.
abbrev new_server : NameServer Stopped
new_server = record {
  container = record {
    name = codes "dns-test-unbound-1-0";
    id = codes "10.0.0.1";
    ipv4_addr = record { octet0 = 10; octet1 = 0; octet2 = 0; octet3 = 1 };
    network = network;
  };
  implementation = Implementation.unbound;
  state = stopped;
  zone_file = record {
    origin = com_zone;
    soa = record {
      zone = com_zone;
      ttl = 86400;
      nameserver = record { inner = codes "primary0.nameservers.com." };
      admin = record { inner = codes "admin0.nameservers.com." };
      settings = default_settings;
    };
    records =
        Record.ns (record {
          zone = com_zone;
          ttl = 86400;
          nameserver = record { inner = codes "primary0.nameservers.com." };
        })
        ∷ Record.a (record {
          fqdn = record { inner = codes "primary0.nameservers.com." };
          ttl = 86400;
          ipv4_addr = record { octet0 = 10; octet1 = 0; octet2 = 0; octet3 = 1 };
        })
        ∷ [];
  };
}

abbrev state_of : {A World : Type 0} → A × State World → State World
state_of p = p.1

new-new_server : new machine render_template Implementation.unbound com_zone network initial ≡ (
  ok new_server,
  state_of (new machine render_template Implementation.unbound com_zone network initial),
)
unfolding new ◌>>=◌ Ipv4.from_str Uint.uint_to_string Container.Image.from_implementation
    Record.new_ns Record.new_a
new-new_server = refl

new-IsNew_example :
    IsNew 0 Implementation.unbound com_zone new_server × Ipv4.IsValid new_server.container.ipv4_addr
new-IsNew_example =
    new-IsNew machine render_template Implementation.unbound com_zone network initial
      (state_of (new machine render_template Implementation.unbound com_zone network initial))
      new_server new-new_server

abbrev pub leaf_zone : Fqdn
leaf_zone = record { inner = codes "example.com." }

example-IsLabel : IsLabel (codes "example")
unfolding lacks
example-IsLabel = record { ne_nil = cc; no_dot = lacks-Lacks b'.' (codes "example") refl }

second_pass-chain_example :
    second_pass 3
      (server_of nameservers ∷ server_of leaf_zone ∷ server_of com_zone ∷ server_of root ∷ [])
    ≡ ok (
        server_of nameservers
        ∷ server_of leaf_zone
        ∷ referral_nameserver
            (referral_nameserver (server_of com_zone) (server_of nameservers))
            (server_of leaf_zone)
        ∷ referral_nameserver (server_of root) (server_of com_zone)
        ∷ [])
unfolding ZoneFile.new
second_pass-chain_example =
    second_pass-chain (server_of nameservers) (server_of leaf_zone) (server_of com_zone)
      (server_of root) (codes "example") example-IsLabel refl refl refl refl

first_pass-fuel_example :
    first_pass machine render_template
      (5 + 3)
      Implementation.unbound
      network
      com_zone
      (server_of nameservers)
      []
      initial
    ≡ first_pass machine render_template 5 Implementation.unbound network com_zone
        (server_of nameservers)
        []
        initial
first_pass-fuel_example =
    first_pass-fuel machine render_template 5 3 Implementation.unbound network com_zone
      (server_of nameservers) [] initial (omega arith)

leaf_zone-IsName : IsName leaf_zone
unfolding fqdn is_word is_whitespace
leaf_zone-IsName = record { accepted = refl; word = is_word-IsWord _ refl }

leaf_soa-IsValid : Soa.IsValid (record soa { zone = leaf_zone })
leaf_soa-IsValid = record {
  zone = leaf_zone-IsName;
  ttl = soa-IsValid.ttl;
  nameserver = soa-IsValid.nameserver;
  admin = soa-IsValid.admin;
  settings = soa-IsValid.settings;
}

leaf-WellFormed : WellFormed (server_of leaf_zone)
leaf-WellFormed = record {
  built = created (record soa { zone = leaf_zone }) leaf_soa-IsValid;
  addr = omega arith;
}

build-WellFormed_example :
    Returns
      (λ graph. All WellFormed graph.nameservers × TrustedBy Sign.no graph.trust_anchor)
      (build machine render_template (server_of leaf_zone) Sign.no)
build-WellFormed_example =
    build-WellFormed machine render_template (server_of leaf_zone) Sign.no leaf-WellFormed

-- The zones of the servers of a result.
abbrev zones : Result Graph × State Unit → List Text
zones (ok graph, state) = map (λ server. (zone server).inner) graph.nameservers
zones (err e, state) = []
zones (panic m, state) = []

build_chain :
    zones (build machine render_template (server_of leaf_zone) Sign.no initial)
    ≡ codes "nameservers.com." ∷ codes "example.com." ∷ codes "com." ∷ codes "." ∷ []
unfolding build ◌>>=◌ ZoneFile.new Ipv4.from_str Uint.uint_to_string
    Container.Image.from_implementation
build_chain = refl

-- The name of a server of a zone with two labels.
primary_ns-leaf : primary_ns 3 leaf_zone ≡ ok (record { inner = codes "primary3.example.com." })
unfolding primary_ns Uint.uint_to_string
primary_ns-leaf = refl
