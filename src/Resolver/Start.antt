-- ===== src/Resolver/Start.antt =====
-- The start and the end of a resolver in packages/dns-test/src/resolver.rs.
use dnssec_tests.Base.{Bool, true, false, List, [], ◌∷◌, if◌then◌else◌}
use dnssec_tests.Text.{contains, Text, codes}
use dnssec_tests.Error.{Result, ok, err, panic}
use dnssec_tests.TrustAnchor
use dnssec_tests.Implementation.{
  Implementation, Config, Role, role, conf_file_path, cmd_args, pidfile, is_bind, is_hickory,
}
use dnssec_tests.Implementation.Templates.{Value, format_config}
use dnssec_tests.System.{System, Io, ◌>>=◌, ◌>>◌, lift}
use dnssec_tests.Container
use dnssec_tests.Container.{Container, run, status_ok, cp}
use dnssec_tests.Container.Child
use dnssec_tests.Container.Child.{spawn, wait}
use dnssec_tests.NameServer.Lifecycle.{kill_command, ended}
use dnssec_tests.Resolver.{ResolverSettings, write_hints, use_dnssec}

pub record Resolver : Type 0 where
  pub container : Container
  pub child : Child.Child
  pub implementation : Implementation

-- Where the keys are kept, and in which format.
unfoldable pub key_path : Implementation → Text
unfolding is_bind
key_path implementation =
    if is_bind implementation then codes "/etc/bind/bind.keys" else codes "/etc/trusted-key.key"

unfoldable pub key_contents : Implementation → TrustAnchor.TrustAnchor → Text
unfolding is_bind TrustAnchor.delv TrustAnchor.to_string
key_contents implementation anchor =
    if is_bind implementation then TrustAnchor.delv anchor else TrustAnchor.to_string anchor

-- The loop over the lines of the log, up to the one that says that the server is up.
unfoldable pub skip_to_start : List (Result Text) → Result (Unit {0})
unfolding contains
skip_to_start [] = ok tt
skip_to_start (ok line ∷ rest) =
    let others = skip_to_start rest in
    if contains (codes "Server starting up") line then ok tt else others
skip_to_start (err e ∷ rest) = err e
skip_to_start (panic m ∷ rest) = panic m

module _ {World : Type 0} (system : System World) (render : Text → List (Text × Value) → Text) where
  -- The child, without its stdout if that was read.
  unfoldable pub wait_started : Bool → Child.Child → Io World Child.Child
  unfolding skip_to_start Child.stdout
  wait_started false child = lift (ok child)
  wait_started true child = do
    (lines, child') ← lift (Child.stdout child)
    lift (skip_to_start lines)
    lift (ok child')

  unfoldable pub write_keys :
      Bool → ResolverSettings → Implementation → Container → Io World (Unit {0})
  unfolding cp key_path key_contents
  write_keys false settings implementation container = lift (ok tt)
  write_keys true settings implementation container =
      cp system container (key_path implementation)
        (key_contents implementation settings.trust_anchor)

  unfoldable pub start : ResolverSettings → Implementation → Io World Resolver
  unfolding run cp write_hints use_dnssec format_config conf_file_path cmd_args role write_keys
      spawn is_hickory wait_started
  start settings implementation = do
    container ← run system (Container.Image.from_implementation implementation) settings.network
    cp system container (codes "/etc/root.hints") (write_hints settings.roots)
    let config = Config.resolver (use_dnssec settings) settings.network.subnet settings.ede
    contents ← lift (format_config render implementation config)
    cp system container (conf_file_path implementation (role config)) contents
    write_keys (use_dnssec settings) settings implementation container
    child ← spawn system container (cmd_args implementation (role config))
    child ← wait_started (is_hickory implementation) child
    lift (ok (record { container = container; child = child; implementation = implementation }))

  unfoldable pub terminate : Resolver → Io World Text
  unfolding status_ok wait ended pidfile
  terminate resolver = do
    let kill = kill_command (pidfile resolver.implementation Role.resolver)
    status_ok system resolver.container (codes "sh" ∷ codes "-c" ∷ kill ∷ [])
    output ← wait system resolver.child
    lift (ended system render resolver.implementation output)
