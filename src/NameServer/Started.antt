-- ===== src/NameServer/Started.antt =====
-- What a name server is started with: `NameServer<Stopped>::start` and `NameServer<Signed>::start` of
-- packages/dns-test/src/name_server.rs.
use dnssec_tests.Base.{List, [], ◌∷◌, ◌++◌, ◌≡◌, ap, ◌∙◌, append-nil}
use dnssec_tests.Text.{Text, codes}
use dnssec_tests.Error.{ok}
use dnssec_tests.ZoneFile
use dnssec_tests.ZoneFile.{ZoneFile}
use dnssec_tests.Implementation.{Implementation, Config, Role, conf_file_path, cmd_args}
use dnssec_tests.Implementation.Templates.{Value, format_config}
use dnssec_tests.System.{System}
use dnssec_tests.System.Logged.{
  Call, ran, started, logged, Makes, Makes-bind, Makes-lift, Makes-lift_bind,
}
use dnssec_tests.Container.{Container, exec}
use dnssec_tests.Container.Copies.{IsCopy, cp-IsCopy, spawn_exec-Makes, status_ok-Makes}
use dnssec_tests.NameServer.{NameServer, Stopped, Signed}
use dnssec_tests.NameServer.Lifecycle.{start, start_signed}

-- The calls that start a server of the zone: its configuration is copied to the path of the
-- implementation, the calls `between` follow, the zone file is copied, and the implementation is
-- started.
pub record AreStartCalls (render : Text → List (Text × Value) → Text)
    (implementation : Implementation) (container : Container) (zone_file served : ZoneFile)
    (between calls : List Call) : Type 0 where
  pub config : List Call
  pub zone : List Call
  pub contents : Text
  pub parts :
      calls
      ≡ config
        ++ (between
            ++ (zone ++ started (exec container (cmd_args implementation Role.name_server)) ∷ []))
  pub formatted :
      format_config render implementation (Config.name_server zone_file.origin) ≡ ok contents
  pub config_copied :
      IsCopy container (conf_file_path implementation Role.name_server) contents config
  pub zone_copied : IsCopy container (codes "/etc/zones/main.zone") (ZoneFile.to_string served) zone

abbrev pub make_directory : Container → List Call
make_directory container =
    ran (exec container (codes "mkdir" ∷ codes "-p" ∷ codes "/etc/zones" ∷ [])) ∷ []

module _ {World : Type 0} (system : System World) (render : Text → List (Text × Value) → Text) where
  start-AreStartCalls :
      (server : NameServer Stopped)
      → Makes
          (λ _ calls.
            AreStartCalls render server.implementation server.container server.zone_file
              server.zone_file
              (make_directory server.container)
              calls)
          (start (logged system) render server)
  unfolding start
  start-AreStartCalls server = Makes-lift_bind _ λ contents formatted.
      Makes-bind (cp-IsCopy system server.container _ contents) λ _ config c.
        Makes-bind (status_ok-Makes system server.container _) λ _ directory d.
          Makes-bind (cp-IsCopy system server.container _ _) λ _ zone z.
            Makes-bind (spawn_exec-Makes system server.container _) λ child last s.
              Makes-lift _ λ _ _. record {
                config = config;
                zone = zone;
                contents = contents;
                parts =
                    ap (λ l. config ++ (l ++ (zone ++ (last ++ [])))) d
                    ∙ ap (λ l. config ++ (make_directory server.container ++ (zone ++ l)))
                        (append-nil last ∙ s);
                formatted = formatted;
                config_copied = c;
                zone_copied = z;
              }

  start_signed-AreStartCalls :
      (server : NameServer Signed)
      → Makes
          (λ _ calls.
            AreStartCalls render server.implementation server.container server.zone_file
              server.state.signed [] calls)
          (start_signed (logged system) render server)
  unfolding start_signed
  start_signed-AreStartCalls server = Makes-lift_bind _ λ contents formatted.
      Makes-bind (cp-IsCopy system server.container _ contents) λ _ config c.
        Makes-bind (cp-IsCopy system server.container _ _) λ _ zone z.
          Makes-bind (spawn_exec-Makes system server.container _) λ child last s.
            Makes-lift _ λ _ _. record {
              config = config;
              zone = zone;
              contents = contents;
              parts = ap (λ l. config ++ (zone ++ l)) (append-nil last ∙ s);
              formatted = formatted;
              config_copied = c;
              zone_copied = z;
            }

  -- Whenever a name server starts, these are all its calls, in order: the configuration for its zone is
  -- copied to the path of the implementation; for a server that was not signed, the directory of the
  -- zones is made and its zone file is copied there; for a signed server the signed zone file is; and
  -- the implementation is started.
  pub start_calls :
      (stopped : NameServer Stopped) (signed : NameServer Signed)
      → Makes
          (λ _ calls.
            AreStartCalls render stopped.implementation stopped.container stopped.zone_file
              stopped.zone_file
              (make_directory stopped.container)
              calls)
          (start (logged system) render stopped)
        × Makes
            (λ _ calls.
              AreStartCalls render signed.implementation signed.container signed.zone_file
                signed.state.signed [] calls)
            (start_signed (logged system) render signed)
  start_calls stopped signed = (start-AreStartCalls stopped, start_signed-AreStartCalls signed)
