-- ===== src/NameServer/Lifecycle.antt =====
-- The operations of packages/dns-test/src/name_server.rs that take a name server from one state to
-- the next.
use dnssec_tests.Base.{ℕ, not, ◌&&◌, if◌then◌else◌, List, [], ◌∷◌}
use dnssec_tests.Text.{Text, codes, format, is_empty}
use dnssec_tests.Error.{message, Result, ok, err, panic}
use dnssec_tests.Fqdn.{Fqdn}
use dnssec_tests.Record
use dnssec_tests.Record.Common.{default_ttl}
use dnssec_tests.Record.Ds
use dnssec_tests.Record.Soa.{Soa, default_settings}
use dnssec_tests.ZoneFile
use dnssec_tests.ZoneFile.Entry
use dnssec_tests.Implementation
use dnssec_tests.Implementation.{
  Implementation, Config, Role, role, conf_file_path, cmd_args, pidfile, is_hickory,
}
use dnssec_tests.Implementation.Templates.{Value, format_config}
use dnssec_tests.System.{System, Io, ◌>>=◌, ◌>>◌, lift, fetch_add}
use dnssec_tests.Container
use dnssec_tests.Container.{Network, run, status_ok, stdout, cp}
use dnssec_tests.Container.Child.{Child, spawn, wait}
use dnssec_tests.NameServer.{
  NameServer, Stopped, stopped, Signed, Running, primary_ns, admin_ns, zones_dir, zone_filename,
  zone_file_path,
}

-- The shell command that ends the server whose PID file is given.
abbrev pub kill_command : Text → Text
kill_command pidfile =
    format (
      codes "test -f "
      ∷ pidfile
      ∷ codes " || sleep 1\nkill -TERM $(cat "
      ∷ pidfile
      ∷ codes ")"
      ∷ [])

-- `ns_count`.
unfoldable pub ns_count : {World : Type 0} → Io World ℕ
ns_count state = (ok state.ns_count, record state { ns_count = fetch_add state.ns_count })

-- The zone file of a new name server.
unfoldable pub new_zone_file : Fqdn → Fqdn → Fqdn → Container.Container → ZoneFile.ZoneFile
unfolding ZoneFile.new ZoneFile.add
new_zone_file zone nameserver admin container =
    let soa : Soa = record {
      zone = zone;
      ttl = default_ttl;
      nameserver = nameserver;
      admin = admin;
      settings = default_settings;
    } in
    ZoneFile.add (ZoneFile.add (ZoneFile.new soa) (Record.new_ns zone nameserver))
      (Record.new_a nameserver container.ipv4_addr)

module _ {World : Type 0} (system : System World) (render : Text → List (Text × Value) → Text) where
  unfoldable pub new : Implementation → Fqdn → Network → Io World (NameServer Stopped)
  unfolding ns_count primary_ns admin_ns new_zone_file run
  new implementation zone network = do
    count ← ns_count
    nameserver ← lift (primary_ns count zone)
    container ← run system (Container.Image.from_implementation implementation) network
    admin ← lift (admin_ns count zone)
    lift (
        ok (record {
          container = container;
          implementation = implementation;
          state = stopped;
          zone_file = new_zone_file zone nameserver admin container;
        }))

  -- A command of the shell in the directory of the zones.
  abbrev in_zones : List Text → List Text
  in_zones words =
      codes "sh" ∷ codes "-c" ∷ format (codes "cd " ∷ zones_dir ∷ codes " && " ∷ words) ∷ []

  -- The file name of a new key pair, and the key in it.
  unfoldable pub keygen : Container.Container → List Text → Io World (Text × Entry.Entry)
  unfolding stdout
  keygen container command = do
    filename ← stdout system container (in_zones command)
    text ←
        stdout system container
          (codes "cat" ∷ format (zones_dir ∷ codes "/" ∷ filename ∷ codes ".key" ∷ []) ∷ [])
    entry ← lift (Entry.from_str text)
    lift (ok (filename, entry))

  unfoldable pub sign : NameServer Stopped → Io World (NameServer Signed)
  unfolding status_ok cp stdout keygen Entry.with_ttl
  sign server = do
    let container = server.container
    let zone_file = server.zone_file
    let zone = zone_file.origin.inner
    status_ok system container (codes "mkdir" ∷ codes "-p" ∷ zones_dir ∷ [])
    cp system container zone_file_path (ZoneFile.to_string zone_file)
    (zsk_filename, zsk) ←
        keygen container (codes "ldns-keygen -a RSASHA1-NSEC3-SHA1 -b 1024 " ∷ zone ∷ [])
    (ksk_filename, ksk) ←
        keygen container (codes "ldns-keygen -k -a RSASHA1-NSEC3-SHA1 -b 2048 " ∷ zone ∷ [])
    status_ok system container (
        in_zones (
          codes "ldns-signzone -n -p "
          ∷ zone_filename
          ∷ codes " "
          ∷ zsk_filename
          ∷ codes " "
          ∷ ksk_filename
          ∷ []))
    ds_text ←
        stdout system container
          (in_zones (codes "ldns-key2ds -n -2 " ∷ zone_filename ∷ codes ".signed" ∷ []))
    ds ← lift (Ds.from_str ds_text)
    signed_text ←
        stdout system container (codes "cat" ∷ format (zone_file_path ∷ codes ".signed" ∷ []) ∷ [])
    signed ← lift (ZoneFile.from_str signed_text)
    let ttl = zone_file.soa.ttl
    lift (
        ok (record {
          container = container;
          implementation = server.implementation;
          zone_file = zone_file;
          state = record {
            ds = ds;
            signed = signed;
            ksk = Entry.with_ttl ksk ttl;
            zsk = Entry.with_ttl zsk ttl;
          };
        }))

  abbrev running : {S : Type 0} → NameServer S → Child → NameServer Running
  running server child = record {
    container = server.container;
    implementation = server.implementation;
    zone_file = server.zone_file;
    state = record { child = child };
  }

  -- `NameServer<Stopped>::start`.
  unfoldable pub start : NameServer Stopped → Io World (NameServer Running)
  unfolding status_ok cp spawn conf_file_path cmd_args format_config role
  start server = do
    let implementation = server.implementation
    let config = Config.name_server server.zone_file.origin
    contents ← lift (format_config render implementation config)
    cp system server.container (conf_file_path implementation (role config)) contents
    status_ok system server.container (codes "mkdir" ∷ codes "-p" ∷ zones_dir ∷ [])
    cp system server.container zone_file_path (ZoneFile.to_string server.zone_file)
    child ← spawn system server.container (cmd_args implementation (role config))
    lift (ok (running server child))

  -- `NameServer<Signed>::start`.
  unfoldable pub start_signed : NameServer Signed → Io World (NameServer Running)
  unfolding cp spawn conf_file_path cmd_args format_config role
  start_signed server = do
    let implementation = server.implementation
    let config = Config.name_server server.zone_file.origin
    contents ← lift (format_config render implementation config)
    cp system server.container (conf_file_path implementation (role config)) contents
    cp system server.container zone_file_path (ZoneFile.to_string server.state.signed)
    child ← spawn system server.container (cmd_args implementation (role config))
    lift (ok (running server child))

  -- What is made of the output of a server that was told to end.
  unfoldable pub ended : Implementation → Container.Output → Result Text
  unfolding is_hickory
  ended implementation output =
      if not (is_hickory implementation) && not output.success
      then err (
          message (
            format (
              codes "could not terminate the `"
              ∷ Implementation.to_string implementation
              ∷ codes "` process"
              ∷ [])))
      else if is_empty output.stderr
      then ok output.stdout
      else panic (codes "stderr should be returned if not empty")

  unfoldable pub terminate : NameServer Running → Io World Text
  unfolding status_ok wait ended pidfile
  terminate server = do
    let kill = kill_command (pidfile server.implementation Role.name_server)
    status_ok system server.container (codes "sh" ∷ codes "-c" ∷ kill ∷ [])
    output ← wait system server.state.child
    lift (ended server.implementation output)
