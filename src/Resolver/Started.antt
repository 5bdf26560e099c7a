-- ===== src/Resolver/Started.antt =====
-- What a resolver is started with: `ResolverSettings::start` of packages/dns-test/src/resolver.rs.
use dnssec_tests.Base.{
  Bool, true, false, List, [], ◌∷◌, ◌++◌, ◌≡◌, refl, subst, ap, ◌∙◌, append-nil,
}
use dnssec_tests.Text.{Text, codes}
use dnssec_tests.Error.{ok, ok-eq}
use dnssec_tests.Record.Dnskey.{Dnskey}
use dnssec_tests.TrustAnchor
use dnssec_tests.TrustAnchor.{TrustAnchor}
use dnssec_tests.Implementation.{
  Implementation, Config, Role, conf_file_path, cmd_args, is_bind, is_hickory,
}
use dnssec_tests.Implementation.Templates.{Value, format_config}
use dnssec_tests.System.{System}
use dnssec_tests.System.Logged.{
  Call, started, logged, Makes, Makes-bind, Makes-lift, Makes-lift_bind, EndsIn, EndsIn-bind,
}
use dnssec_tests.Container.{Container, Network, exec, run}
use dnssec_tests.Container.Child
use dnssec_tests.Container.Child.{spawn}
use dnssec_tests.ZoneFile.Root
use dnssec_tests.Container.Copies.{IsCopy, cp-IsCopy, spawn_exec-Makes}
use dnssec_tests.Resolver.{ResolverSettings, write_hints, use_dnssec}
use dnssec_tests.Resolver.Start.{Resolver, start, key_path, key_contents, write_keys, wait_started}

-- The keys, if there are any, are copied to the file that the implementation reads, in its format.
abbrev pub AreKeysCopied : Container → Implementation → List Dnskey → List Call → Type 0
AreKeysCopied container implementation [] calls = calls ≡ []
AreKeysCopied container Implementation.bind (k ∷ ks) calls =
    IsCopy container (codes "/etc/bind/bind.keys") (TrustAnchor.delv (record { keys = k ∷ ks }))
      calls
AreKeysCopied container Implementation.unbound (k ∷ ks) calls =
    IsCopy container (codes "/etc/trusted-key.key")
      (TrustAnchor.to_string (record { keys = k ∷ ks })) calls
AreKeysCopied container (Implementation.hickory _) (k ∷ ks) calls =
    IsCopy container (codes "/etc/trusted-key.key")
      (TrustAnchor.to_string (record { keys = k ∷ ks })) calls

abbrev pub config_of : ResolverSettings → Config
config_of settings = Config.resolver (use_dnssec settings) settings.network.subnet settings.ede

-- The calls of a start, behind those that run the container.
pub record AreStartCalls (render : Text → List (Text × Value) → Text) (settings : ResolverSettings)
    (implementation : Implementation) (resolver : Resolver) (calls : List Call) : Type 0 where
  pub hints : List Call
  pub config : List Call
  pub keys : List Call
  pub contents : Text
  pub parts :
      calls
      ≡ hints
        ++ (config
            ++ (keys
                ++ started (exec resolver.container (cmd_args implementation Role.resolver)) ∷ []))
  pub hints_copied :
      IsCopy resolver.container (codes "/etc/root.hints") (write_hints settings.roots) hints
  pub formatted : format_config render implementation (config_of settings) ≡ ok contents
  pub config_copied :
      IsCopy resolver.container (conf_file_path implementation Role.resolver) contents config
  pub keys_copied : AreKeysCopied resolver.container implementation settings.trust_anchor.keys keys
  pub implemented : resolver.implementation ≡ implementation

module _ {World : Type 0} (system : System World) (render : Text → List (Text × Value) → Text) where
  write_keys-AreKeysCopied :
      (container : Container) (implementation : Implementation) (ede : Bool) (network : Network)
      (roots : List Root.Root) (keys : List Dnskey)
      → let settings : ResolverSettings = record {
        ede = ede;
        network = network;
        roots = roots;
        trust_anchor = record { keys = keys };
      } in
        Makes
          (λ _ calls. AreKeysCopied container implementation keys calls)
          (write_keys
            (logged system)
            render
            (use_dnssec settings)
            settings
            implementation
            container)
  unfolding write_keys use_dnssec TrustAnchor.is_empty is_bind key_path key_contents
  write_keys-AreKeysCopied container implementation ede network roots [] = Makes-lift _ λ _ _. refl
  write_keys-AreKeysCopied container Implementation.bind ede network roots (k ∷ ks) =
      cp-IsCopy system container _ _
  write_keys-AreKeysCopied container Implementation.unbound ede network roots (k ∷ ks) =
      cp-IsCopy system container _ _
  write_keys-AreKeysCopied container (Implementation.hickory r) ede network roots (k ∷ ks) =
      cp-IsCopy system container _ _

  wait_started-nil :
      (b : Bool) (child : Child.Child)
      → Makes (λ _ calls. calls ≡ []) (wait_started (logged system) render b child)
  unfolding wait_started
  wait_started-nil false child = Makes-lift _ λ _ _. refl
  wait_started-nil true child =
      Makes-lift_bind _ λ taken _. Makes-lift_bind _ λ _ _. Makes-lift _ λ _ _. refl

  -- Whenever `start` returns a resolver, its last calls are these, in order: the root hints are copied
  -- into its container; the configuration for a resolver that validates exactly if there are keys, to
  -- the path of the implementation; if there are keys, these, for BIND in the format of `delv` to
  -- its own path, else line by line; and the implementation is started, and nothing after it.
  pub start-AreStartCalls :
      (settings : ResolverSettings) (implementation : Implementation)
      → EndsIn
          (AreStartCalls render settings implementation)
          (start (logged system) render settings implementation)
  unfolding start
  start-AreStartCalls settings implementation = EndsIn-bind (run (logged system) _ _) λ container.
      Makes-bind (cp-IsCopy system container _ _) λ _ hints h.
        Makes-lift_bind _ λ contents formatted.
          Makes-bind (cp-IsCopy system container _ contents) λ _ config c.
            Makes-bind
              (write_keys-AreKeysCopied container implementation settings.ede settings.network
                settings.roots settings.trust_anchor.keys)
              λ _ keys k. Makes-bind (spawn_exec-Makes system container _) λ child last s.
                Makes-bind (wait_started-nil (is_hickory implementation) child) λ child' none n.
                  Makes-lift _ λ resolver e.
                    subst
                      (λ r.
                        AreStartCalls render settings implementation r
                          (hints ++ (config ++ (keys ++ (last ++ (none ++ []))))))
                      (ok-eq e)
                      (record {
                        hints = hints;
                        config = config;
                        keys = keys;
                        contents = contents;
                        parts =
                            ap (λ l. hints ++ (config ++ (keys ++ l)))
                              (ap (λ l. last ++ (l ++ [])) n ∙ append-nil last ∙ s);
                        hints_copied = h;
                        formatted = formatted;
                        config_copied = c;
                        keys_copied = k;
                        implemented = refl;
                      })
