-- ===== src/NameServer/Zones.antt =====
-- The zone files of the name servers that packages/dns-test/src/name_server.rs makes and signs.
use dnssec_tests.Base.{ℕ, arith, ◌≡◌, refl, sym, subst, List, [], ◌∷◌}
use dnssec_tests.Text.{Text, trim}
use dnssec_tests.Error.{Result, ok, Ensures, Ensures-ok, Ensures-err}
use dnssec_tests.Ipv4
use dnssec_tests.Fqdn.{Fqdn}
use dnssec_tests.Fqdn.Names.{IsName}
use dnssec_tests.Record
use dnssec_tests.Record.Ds
use dnssec_tests.Record.Soa.{default_settings}
use dnssec_tests.ZoneFile
use dnssec_tests.ZoneFile.Entry.{with_ttl}
use dnssec_tests.ZoneFile.Build.{
  Built, Built-IsValid, referred, created, added, new_ns-IsEntry, new_a-IsEntry,
}
use dnssec_tests.Implementation.{Implementation}
use dnssec_tests.Implementation.Templates.{Value}
use dnssec_tests.System.{System, State, fetch_add, ◌>>=◌}
use dnssec_tests.System.Returns.{
  Returns, lift-eq-ok, Returns-if, Returns-bind, Returns-then, Returns-lift,
}
use dnssec_tests.Container
use dnssec_tests.Container.{Network, run, get_ipv4_addr}
use dnssec_tests.NameServer.{
  NameServer, Stopped, Signed, primary_ns, admin_ns, zone, name, ipv4_addr, referral_nameserver,
}
use dnssec_tests.NameServer.Names.{primary_ns-IsName, admin_ns-IsName}
use dnssec_tests.NameServer.Lifecycle.{new, ns_count, new_zone_file, sign, start, start_signed}

-- The zone file is built out of valid parts, and the address has four octets.
pub record WellFormed {S : Type 0} (server : NameServer S) : Type 0 where
  pub built : Built server.zone_file
  pub addr : Ipv4.IsValid (ipv4_addr server)

pub zone-IsName : {S : Type 0} (server : NameServer S) → WellFormed server → IsName (zone server)
zone-IsName server h = let v = Built-IsValid h.built in subst IsName (sym v.origin) v.soa.zone

pub referral_nameserver-WellFormed :
    {S : Type 0} (parent : NameServer Stopped) (child : NameServer S)
    → WellFormed parent
    → WellFormed child
    → WellFormed (referral_nameserver parent child)
unfolding referral_nameserver
referral_nameserver-WellFormed parent child p c = record {
  built =
      referred (zone child) (name child) (ipv4_addr child) p.built (zone-IsName child c)
        (Built-IsValid c.built).soa.nameserver c.addr;
  addr = p.addr;
}

get_ipv4_addr-IsValid :
    {World : Type 0} (system : System World) (id : Text)
    → Returns Ipv4.IsValid (get_ipv4_addr system id)
unfolding get_ipv4_addr
get_ipv4_addr-IsValid system id = Returns-then _ λ output.
    Returns-if output.success
      (Returns-then _ λ stdout. Returns-lift (Ipv4.from_str-Ensures (trim stdout)))
      (Returns-lift (Ensures-err _))

run-IsValid :
    {World : Type 0} (system : System World) (image : Container.Image.Image) (network : Network)
    → Returns (λ container. Ipv4.IsValid container.ipv4_addr) (run system image network)
unfolding run
run-IsValid system image network = Returns-then _ λ dir. Returns-then _ λ _. Returns-then _ λ _.
    Returns-then _ λ count. Returns-then _ λ output. Returns-then _ λ decoded.
      Returns-bind (get_ipv4_addr-IsValid system _) λ addr h. Returns-lift (Ensures-ok _ h)

known : {A : Type 0} {P : A → Type 0} (m : Result A) (a : A) → m ≡ ok a → P a → Ensures P m
known {P} m a e h = rw e (Ensures-ok {P = P} a h)

primary_ns-Ensures :
    (count : ℕ) (zone : Fqdn) → IsName zone → Ensures IsName (primary_ns count zone)
primary_ns-Ensures count zone h =
    let (name, e, n) = primary_ns-IsName count zone h in known _ name e n

admin_ns-Ensures : (count : ℕ) (zone : Fqdn) → IsName zone → Ensures IsName (admin_ns count zone)
admin_ns-Ensures count zone h = let (name, e, n) = admin_ns-IsName count zone h in known _ name e n

new_zone_file-Built :
    (zone nameserver admin : Fqdn) (container : Container.Container)
    → IsName zone
    → IsName nameserver
    → IsName admin
    → Ipv4.IsValid container.ipv4_addr
    → Built (new_zone_file zone nameserver admin container)
unfolding new_zone_file
new_zone_file-Built zone nameserver admin container z n a v =
    added _
      (added _
        (created _ (record {
          zone = z;
          ttl = omega arith;
          nameserver = n;
          admin = a;
          settings = omega arith;
        }))
        (new_ns-IsEntry zone nameserver z n))
      (new_a-IsEntry nameserver container.ipv4_addr n v)

-- Whatever the machine answers: a name server that `new` returns for a name with no white space has a
-- zone file that is built out of valid parts, and an address of four octets.
pub new-WellFormed :
    {World : Type 0} (system : System World) (render : Text → List (Text × Value) → Text)
    (implementation : Implementation) (zone : Fqdn) (network : Network)
    → IsName zone
    → Returns WellFormed (new system render implementation zone network)
unfolding new
new-WellFormed system render implementation zone network h = Returns-then _ λ count.
    Returns-bind (Returns-lift (primary_ns-Ensures count zone h)) λ nameserver n.
      Returns-bind (run-IsValid system _ network) λ container v.
        Returns-bind (Returns-lift (admin_ns-Ensures count zone h)) λ admin a. Returns-lift (
          Ensures-ok _ (record {
            built = new_zone_file-Built zone nameserver admin container h n a v;
            addr = v;
          }))

-- A new server of the zone, the one with this count: its names are those of the count, its zone file is
-- the SOA record with the defaults, the NS record of the zone and the A record of the server.
pub record IsNew (count : ℕ) (implementation : Implementation) (zone : Fqdn)
    (server : NameServer Stopped) : Type 0 where
  pub nameserver : Fqdn
  pub admin : Fqdn
  pub primary : primary_ns count zone ≡ ok nameserver
  pub administrator : admin_ns count zone ≡ ok admin
  pub implemented : server.implementation ≡ implementation
  pub zone_file : server.zone_file ≡ record {
    origin = zone;
    soa = record {
      zone = zone;
      ttl = 86400;
      nameserver = nameserver;
      admin = admin;
      settings = default_settings;
    };
    records =
        Record.ns (record { zone = zone; ttl = 86400; nameserver = nameserver })
        ∷ Record.a
            (record { fqdn = nameserver; ttl = 86400; ipv4_addr = server.container.ipv4_addr })
        ∷ [];
  }

-- A name server that `new` returns has the names of the count that it draws, and a zone file of exactly
-- the SOA record with the defaults, the NS record that names it as the server of the zone, and the A
-- record with the address of its container, which has four octets.
pub new-IsNew :
    {World : Type 0} (system : System World) (render : Text → List (Text × Value) → Text)
    (implementation : Implementation) (zone : Fqdn) (network : Network) (state state' : State World)
    (server : NameServer Stopped)
    → new system render implementation zone network state ≡ (ok server, state')
    → IsNew state.ns_count implementation zone server × Ipv4.IsValid (ipv4_addr server)
unfolding new ns_count ◌>>=◌ new_zone_file ZoneFile.new ZoneFile.add Record.new_ns Record.new_a
new-IsNew system render implementation origin network state state' server e =
    let drawn = record state { ns_count = fetch_add state.ns_count } in
    let P : NameServer Stopped → Type 0 = λ server.
      IsNew state.ns_count implementation origin server × Ipv4.IsValid (ipv4_addr server) in
    let rest = Returns-bind {Q = P} (lift-eq-ok (primary_ns state.ns_count origin)) λ nameserver n.
      Returns-bind {Q = P} (run-IsValid system _ network) λ container v.
        Returns-bind {Q = P} (lift-eq-ok (admin_ns state.ns_count origin)) λ admin a. Returns-lift (
          Ensures-ok _ (
            record {
              nameserver = nameserver;
              admin = admin;
              primary = n;
              administrator = a;
              implemented = refl;
              zone_file = refl;
            },
            v,
          )) in
    rest.holds drawn state' server e

-- What signing keeps of a server, a valid DS record, and the TTL of the two keys.
pub record SignedFrom (server : NameServer Stopped) (result : NameServer Signed) : Type 0 where
  pub zone_file : result.zone_file ≡ server.zone_file
  pub container : result.container ≡ server.container
  pub implementation : result.implementation ≡ server.implementation
  pub ksk_ttl : result.state.ksk.ttl ≡ server.zone_file.soa.ttl
  pub ds : Ds.IsValid result.state.ds
  pub zsk_ttl : result.state.zsk.ttl ≡ server.zone_file.soa.ttl

-- Whatever the machine answers: a server that `sign` returns keeps its unsigned zone file, its
-- container and its implementation, its DS record is valid, and both keys have the TTL of the SOA
-- record.
pub sign-SignedFrom :
    {World : Type 0} (system : System World) (render : Text → List (Text × Value) → Text)
    (server : NameServer Stopped)
    → Returns (SignedFrom server) (sign system render server)
unfolding sign with_ttl
sign-SignedFrom system render server = Returns-then _ λ _. Returns-then _ λ _. Returns-then _ λ zsk.
    Returns-then _ λ ksk. Returns-then _ λ _. Returns-then _ λ text.
      Returns-bind (Returns-lift (Ds.from_str-Ensures text)) λ ds d. Returns-then _ λ _.
        Returns-then _ λ signed. Returns-lift (
          Ensures-ok _ (record {
            zone_file = refl;
            container = refl;
            implementation = refl;
            ds = d;
            ksk_ttl = refl;
            zsk_ttl = refl;
          }))

pub SignedFrom-WellFormed :
    (server : NameServer Stopped) (result : NameServer Signed)
    → WellFormed server
    → SignedFrom server result
    → WellFormed result
SignedFrom-WellFormed server result h s = record {
  built = subst Built (sym s.zone_file) h.built;
  addr = subst (λ c. Ipv4.IsValid c.ipv4_addr) (sym s.container) h.addr;
}

pub start-WellFormed :
    {World : Type 0} (system : System World) (render : Text → List (Text × Value) → Text)
    (server : NameServer Stopped)
    → WellFormed server
    → Returns WellFormed (start system render server)
unfolding start
start-WellFormed system render server h = Returns-then _ λ contents. Returns-then _ λ _.
    Returns-then _ λ _. Returns-then _ λ _.
      Returns-then _
        λ child. Returns-lift (Ensures-ok _ (record { built = h.built; addr = h.addr }))

pub start_signed-WellFormed :
    {World : Type 0} (system : System World) (render : Text → List (Text × Value) → Text)
    (server : NameServer Signed)
    → WellFormed server
    → Returns WellFormed (start_signed system render server)
unfolding start_signed
start_signed-WellFormed system render server h = Returns-then _ λ contents. Returns-then _ λ _.
    Returns-then _ λ _.
      Returns-then _
        λ child. Returns-lift (Ensures-ok _ (record { built = h.built; addr = h.addr }))
