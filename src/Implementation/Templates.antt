-- ===== src/Implementation/Templates.antt =====
-- The templates of packages/dns-test/src/templates, and `format_config` of
-- packages/dns-test/src/implementation.rs, which renders one of them.
use dnssec_tests.Base.{Bool, List, [], ◌∷◌, ◌++◌, if◌then◌else◌}
use dnssec_tests.Text.{Text, codes}
use dnssec_tests.Error.{Result, ok, panic}
use dnssec_tests.Implementation.{Config, Implementation}

-- named.resolver.conf.jinja.
abbrev pub named_resolver : Text
named_resolver =
    codes "options {\n"
    ++ codes "    directory \"/var/cache/bind\";\n"
    ++ codes "    pid-file \"/tmp/named.pid\";\n"
    ++ codes "    recursion yes;\n"
    ++ codes "    dnssec-validation {% if use_dnssec %} auto {% else %} no {% endif %};\n"
    ++ codes "    allow-transfer { none; };\n"
    ++ codes "    # significantly reduces noise in logs\n"
    ++ codes "    empty-zones-enable no;\n"
    ++ codes "};\n"
    ++ codes "\n"
    ++ codes "zone \".\" {\n"
    ++ codes "     type hint;\n"
    ++ codes "     file \"/etc/root.hints\";\n"
    ++ codes "};\n"

-- named.name-server.conf.jinja.
abbrev pub named_name_server : Text
named_name_server =
    codes "options {\n"
    ++ codes "    directory \"/var/cache/bind\";\n"
    ++ codes "    pid-file \"/tmp/named.pid\";\n"
    ++ codes "    recursion no;\n"
    ++ codes "    dnssec-validation no;\n"
    ++ codes "    allow-transfer { none; };\n"
    ++ codes "    # significantly reduces noise in logs\n"
    ++ codes "    empty-zones-enable no;\n"
    ++ codes "};\n"
    ++ codes "\n"
    ++ codes "zone \"{{ fqdn }}\" IN {\n"
    ++ codes "     type primary;\n"
    ++ codes "     file \"/etc/zones/main.zone\";\n"
    ++ codes "};\n"

-- nsd.conf.jinja.
abbrev pub nsd : Text
nsd =
    codes "server:\n"
    ++ codes "    pidfile: /tmp/nsd.pid\n"
    ++ codes "\n"
    ++ codes "remote-control:\n"
    ++ codes "  control-enable: no\n"
    ++ codes "\n"
    ++ codes "zone:\n"
    ++ codes "  name: {{ fqdn }}\n"
    ++ codes "  zonefile: /etc/zones/main.zone\n"

-- unbound.conf.jinja.
abbrev pub unbound_conf : Text
unbound_conf =
    codes "server:\n"
    ++ codes "    verbosity: 4\n"
    ++ codes "    use-syslog: no\n"
    ++ codes "    interface: 0.0.0.0\n"
    ++ codes "    access-control: {{ netmask }} allow\n"
    ++ codes "    root-hints: /etc/root.hints\n"
    ++ codes "    pidfile: /tmp/unbound.pid\n"
    ++ codes "    ede: {% if ede %} yes {% else %} no {% endif %}\n"
    ++ codes "{% if use_dnssec %}\n"
    ++ codes "    trust-anchor-file: /etc/trusted-key.key\n"
    ++ codes "{% endif %}\n"
    ++ codes "\n"
    ++ codes "remote-control:\n"
    ++ codes "    control-enable: no\n"

-- hickory.resolver.toml.jinja.
abbrev pub hickory_resolver : Text
hickory_resolver =
    codes "[[zones]]\n"
    ++ codes "zone = \".\"\n"
    ++ codes "zone_type = \"Hint\"\n"
    ++ codes
        "stores = { type = \"recursor\", roots = \"/etc/root.hints\", security_aware = true }\n"
    ++ codes "enable_dnssec = {{ use_dnssec }}\n"

-- hickory.name-server.toml.jinja.
abbrev pub hickory_name_server : Text
hickory_name_server =
    codes "[[zones]]\n"
    ++ codes "zone = \"{{ fqdn }}\"\n"
    ++ codes "zone_type = \"Primary\"\n"
    ++ codes "file = \"/etc/zones/main.zone\"\n"

-- A value that a template is rendered with.
pub data Value : Type 0 where
  of_bool : Bool → Value
  of_text : Text → Value

-- `minijinja::render!` is a parameter: a template and its values give a text.
module _ (render : Text → List (Text × Value) → Text) where
  unfoldable pub format_resolver : Implementation → Bool → Text → Bool → Result Text
  format_resolver Implementation.bind use_dnssec netmask ede =
      if ede
      then panic (codes "the BIND resolver does not support EDE (RFC8914)")
      else ok (
          render named_resolver
            ((codes "use_dnssec", of_bool use_dnssec) ∷ (codes "netmask", of_text netmask) ∷ []))
  format_resolver (Implementation.hickory _) use_dnssec netmask ede =
      ok (render hickory_resolver ((codes "use_dnssec", of_bool use_dnssec) ∷ []))
  format_resolver Implementation.unbound use_dnssec netmask ede = ok (
      render unbound_conf (
        (codes "use_dnssec", of_bool use_dnssec)
        ∷ (codes "netmask", of_text netmask)
        ∷ (codes "ede", of_bool ede)
        ∷ []))

  unfoldable pub format_name_server : Implementation → Text → Text
  format_name_server Implementation.bind origin =
      render named_name_server ((codes "fqdn", of_text origin) ∷ [])
  format_name_server Implementation.unbound origin =
      render nsd ((codes "fqdn", of_text origin) ∷ [])
  format_name_server (Implementation.hickory _) origin =
      render hickory_name_server ((codes "fqdn", of_text origin) ∷ [])

  unfoldable pub format_config : Implementation → Config → Result Text
  unfolding format_resolver format_name_server
  format_config implementation (Config.resolver use_dnssec netmask ede) =
      format_resolver implementation use_dnssec netmask ede
  format_config implementation (Config.name_server origin) =
      ok (format_name_server implementation origin.inner)
