-- ===== src/Implementation/Paths.antt =====
-- The paths that packages/dns-test/src/implementation.rs names, against those of the configuration
-- files and the commands.
use dnssec_tests.Base.{true, false, List, ◌++◌, ◌≡◌, refl, sym}
use dnssec_tests.Text.{Text, contains, format}
use dnssec_tests.Error.{ok, ok-eq}
use dnssec_tests.Implementation.{Config, Implementation, role, cmd_args, pidfile}
use dnssec_tests.Implementation.Templates.{Value, format_config}

-- The text is a template with its values filled in, and the template or the command line names the
-- file.
abbrev pub IsNamedBy : (Text → List (Text × Value) → Text) → Text → List Text → Text → Type 0
IsNamedBy render file args text =
    (t : Text) × (values : List (Text × Value)) × (text ≡ render t values)
    × (contains file (t ++ format args) ≡ true)

-- Whenever a server's configuration is written, the file from which its process identifier is read to
-- end it stands in the template of that configuration or in the command that starts the server.
pub format_config-pidfile :
    (render : Text → List (Text × Value) → Text) (implementation : Implementation) (config : Config)
    (text : Text)
    → format_config render implementation config ≡ ok text
    → IsNamedBy render
        (pidfile implementation (role config))
        (cmd_args implementation (role config))
        text
unfolding format_config contains pidfile cmd_args role
format_config-pidfile render Implementation.bind (Config.name_server o) text e =
    (_, _, sym (ok-eq e), refl)
format_config-pidfile render Implementation.bind (Config.resolver d n true) text e = cc
format_config-pidfile render Implementation.bind (Config.resolver d n false) text e =
    (_, _, sym (ok-eq e), refl)
format_config-pidfile render (Implementation.hickory _) (Config.name_server o) text e =
    (_, _, sym (ok-eq e), refl)
format_config-pidfile render (Implementation.hickory _) (Config.resolver d n b) text e =
    (_, _, sym (ok-eq e), refl)
format_config-pidfile render Implementation.unbound (Config.name_server o) text e =
    (_, _, sym (ok-eq e), refl)
format_config-pidfile render Implementation.unbound (Config.resolver d n b) text e =
    (_, _, sym (ok-eq e), refl)
