-- ===== src/Explore.antt =====
-- packages/dns-test/examples/explore.rs: a network to explore, which stays up until it is interrupted.
pub mod Options
use dnssec_tests.Base.{
  ℕ, Bool, true, false, ◌∷◌, [], ◌++◌, List, Option, none, some, map, if◌then◌else◌,
}
use dnssec_tests.Text.{Text, codes, format, equal}
use dnssec_tests.Error.{message, Result, ok, err, panic}
use dnssec_tests.Ipv4
use dnssec_tests.Ipv4.{Ipv4Addr}
use dnssec_tests.Fqdn.{fqdn, root}
use dnssec_tests.Record.RecordType
use dnssec_tests.TrustAnchor.{TrustAnchor}
use dnssec_tests.Implementation.{Implementation}
use dnssec_tests.Implementation.Templates.{Value}
use dnssec_tests.System.{System, Io, ◌>>=◌, ◌>>◌, lift}
use dnssec_tests.Container.Networks
use dnssec_tests.Client.Query
use dnssec_tests.Client.Query.{Client, delv}
use dnssec_tests.NameServer.{NameServer, Running, zone, ipv4_addr}
use dnssec_tests.NameServer.Lifecycle
use dnssec_tests.NameServer.Graph.{Sign, Graph, build}
use dnssec_tests.Resolver
use dnssec_tests.Resolver.{ResolverSettings}
use dnssec_tests.Resolver.Start
use dnssec_tests.Resolver.Start.{Resolver}

pub record Args : Type 0 where
  pub dnssec : Bool

-- The usage text on stderr is outside of the model.
abbrev pub cli_error : {T : Type 0} → Result T
cli_error = err (message (codes "CLI error"))

-- `Args::from_env`, of the arguments behind the program's name.
unfoldable pub from_env : List Text → Result Args
unfolding equal
from_env [] = ok (record { dnssec = false })
from_env (arg ∷ []) =
    if equal arg (codes "--dnssec") then ok (record { dnssec = true }) else cli_error
from_env (_ ∷ _ ∷ _) = cli_error

abbrev pub unwrap : {A : Type 0} → Option A → Result A
unwrap none = panic (codes "called `Option::unwrap()` on a `None` value")
unwrap (some a) = ok a

abbrev pub sign_of : Bool → Sign
sign_of dnssec = if dnssec then Sign.yes else Sign.no

abbrev pub with_anchor : Option TrustAnchor → ResolverSettings → ResolverSettings
unfolding Resolver.trust_anchor
with_anchor none settings = settings
with_anchor (some anchor) settings = Resolver.trust_anchor settings anchor

abbrev pub attach : Text → Text
attach id =
    format (codes "attach to this container with: `docker exec -it " ∷ id ∷ codes " bash`\n" ∷ [])

abbrev pub server_lines : NameServer Running → List Text
server_lines ns =
    format
      ((zone ns).inner ∷ codes " name server's IP address: " ∷ Ipv4.to_string (ipv4_addr ns) ∷ [])
    ∷ attach ns.container.id
    ∷ []

all_server_lines : List (NameServer Running) → List Text
all_server_lines [] = []
all_server_lines (ns ∷ servers) = server_lines ns ++ all_server_lines servers

abbrev pub queries : Bool → Ipv4Addr → List Text
queries dnssec addr =
    let server = Ipv4.to_string addr in
    format (
      codes "`dig @"
      ∷ server
      ∷ codes " "
      ∷ (if dnssec then codes "+adflag" else codes "+noadflag")
      ∷ codes " SOA .`\n"
      ∷ [])
    ∷ (if dnssec
        then (format (
              codes "`delv -a /etc/bind.keys @"
              ∷ server
              ∷ codes " SOA .` (you MUST use the `-a` flag with delv)\n\n"
              ∷ [])
            ∷ [])
        else [])

-- What is printed when the network is up.
unfoldable pub instructions : Bool → List (NameServer Running) → Resolver → Client → List Text
unfolding all_server_lines
instructions dnssec servers resolver client =
    all_server_lines servers
    ++ (format (codes "resolver's IP address: " ∷ Ipv4.to_string resolver.container.ipv4_addr ∷ [])
        ∷ attach resolver.container.id
        ∷ format (codes "client's IP address: " ∷ Ipv4.to_string client.inner.ipv4_addr ∷ [])
        ∷ format (attach client.inner.id ∷ codes "\n" ∷ [])
        ∷ codes "example queries (run these in the client container):\n"
        ∷ queries dnssec resolver.container.ipv4_addr)
    ++ (codes
          "to print the DNS traffic flowing through the resolver run this command in\nthe resolver container before performing queries:\n"
        ∷ codes "`tshark -f 'udp port 53' -O dns`\n\n"
        ∷ codes "press Ctrl+C to take down the network"
        ∷ [])

module _ {World : Type 0} (system : System World) (render : Text → List (Text × Value) → Text)
    (subject peer : Implementation) where
  -- The run of delv that leaves its key file in the client.
  write_key_file : Bool → Client → Option TrustAnchor → Io World (Unit {0})
  unfolding delv
  write_key_file false client trust_anchor = lift (ok tt)
  write_key_file true client trust_anchor = do
    anchor ← lift (unwrap trust_anchor)
    _ ←
        delv system client (record { octet0 = 127; octet1 = 0; octet2 = 0; octet3 = 1 })
          RecordType.soa root anchor
    lift (ok tt)

  -- `main` up to the handler of the interrupt: the network, and what is printed about it.
  unfoldable pub main : List Text → Io World (List Text)
  unfolding from_env Networks.new Lifecycle.new fqdn build Query.new write_key_file Resolver.new
      Start.start instructions
  main arguments = do
    args ← lift (from_env arguments)
    network ← Networks.new system
    name ← lift (fqdn (codes "mydomain.com."))
    leaf_ns ← Lifecycle.new system render peer name network
    graph ← build system render leaf_ns (sign_of args.dnssec)
    client ← Query.new system network
    write_key_file args.dnssec client graph.trust_anchor
    let settings = with_anchor graph.trust_anchor (Resolver.new network graph.root)
    resolver ← Start.start system render settings subject
    lift (ok (instructions args.dnssec graph.nameservers resolver client))
