-- ===== src/Implementation.antt =====
-- packages/dns-test/src/implementation.rs: the DNS implementations under test, and where each keeps
-- its files. The templates are those of packages/dns-test/src/templates.
pub mod Templates
pub mod Paths
pub mod Configs
pub mod Subject
use dnssec_tests.Base.{Bool, true, false, if◌then◌else◌, List, [], ◌∷◌}
use dnssec_tests.Text.{Text, codes}
use dnssec_tests.Error.{Result, ok, panic}
use dnssec_tests.Fqdn.{Fqdn}

pub data Config : Type 0 where
  name_server : Fqdn → Config
  -- `use_dnssec`, `netmask` and `ede`.
  resolver : Bool → Text → Bool → Config

pub data Role : Type 0 where
  name_server resolver : Role

unfoldable pub role : Config → Role
role (Config.name_server _) = Role.name_server
role (Config.resolver _ _ _) = Role.resolver

pub record Repository : Type 0 where
  pub inner : Text

-- `Repository`, which panics unless `input` is a path that exists or a URL. Both tests are made
-- outside of the source: they are the first two arguments.
unfoldable pub new_repository : (Text → Bool) → (Text → Bool) → Text → Result Repository
new_repository path_exists is_url input =
    if path_exists input
    then ok (record { inner = input })
    else if is_url input
    then ok (record { inner = input })
    else panic (codes "not a valid repository")

pub data Implementation : Type 0 where
  bind unbound : Implementation
  hickory : Repository → Implementation

abbrev pub default : Implementation
default = Implementation.unbound

unfoldable pub supports_ede : Implementation → Bool
supports_ede Implementation.bind = false
supports_ede (Implementation.hickory _) = true
supports_ede Implementation.unbound = true

unfoldable pub is_bind : Implementation → Bool
is_bind Implementation.bind = true
is_bind _ = false

unfoldable pub is_hickory : Implementation → Bool
is_hickory (Implementation.hickory _) = true
is_hickory _ = false

unfoldable pub conf_file_path : Implementation → Role → Text
conf_file_path Implementation.bind _ = codes "/etc/bind/named.conf"
conf_file_path (Implementation.hickory _) _ = codes "/etc/named.toml"
conf_file_path Implementation.unbound Role.name_server = codes "/etc/nsd/nsd.conf"
conf_file_path Implementation.unbound Role.resolver = codes "/etc/unbound/unbound.conf"

unfoldable pub cmd_args : Implementation → Role → List Text
cmd_args Implementation.bind _ = codes "named" ∷ codes "-g" ∷ codes "-d5" ∷ []
cmd_args (Implementation.hickory _) _ =
    codes "sh" ∷ codes "-c" ∷ codes "echo $$ > /tmp/hickory.pid\nexec hickory-dns -d" ∷ []
cmd_args Implementation.unbound Role.name_server = codes "nsd" ∷ codes "-d" ∷ []
cmd_args Implementation.unbound Role.resolver = codes "unbound" ∷ codes "-d" ∷ []

unfoldable pub pidfile : Implementation → Role → Text
pidfile Implementation.bind _ = codes "/tmp/named.pid"
pidfile (Implementation.hickory _) _ = codes "/tmp/hickory.pid"
pidfile Implementation.unbound Role.name_server = codes "/tmp/nsd.pid"
pidfile Implementation.unbound Role.resolver = codes "/tmp/unbound.pid"

unfoldable pub to_string : Implementation → Text
to_string Implementation.bind = codes "bind"
to_string (Implementation.hickory _) = codes "hickory"
to_string Implementation.unbound = codes "unbound"
