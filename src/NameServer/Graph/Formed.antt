-- ===== src/NameServer/Graph/Formed.antt =====
-- The steps of `Graph::build` in packages/dns-test/src/name_server.rs and the zone files of the servers.
use dnssec_tests.Base.{
  not, ◌&&◌, ◌+◌, ◌==◌, ℕ, zero, suc, Bool, true, false, Option, none, some, List, [], ◌∷◌, refl,
  All, All-append, if◌then◌else◌,
}
use dnssec_tests.Text.{Text, is_empty, is_whitespace}
use dnssec_tests.Error.{Result, Ensures, Ensures-panic, Ensures-ok, Ensures-bind, Ensures-any}
use dnssec_tests.Fqdn
use dnssec_tests.Fqdn.{Fqdn, fqdn, parent, nameservers, num_labels}
use dnssec_tests.Text.Columns.{is_word, is_word-IsWord}
use dnssec_tests.Fqdn.Names.{IsName}
use dnssec_tests.Fqdn.Ancestors.{IsAbove, parent-IsAbove}
use dnssec_tests.Record.{Record, is_soa}
use dnssec_tests.Record.Ds
use dnssec_tests.ZoneFile.Build.{Built-IsValid, added, new_a-IsEntry}
use dnssec_tests.Implementation.{Implementation}
use dnssec_tests.Implementation.Templates.{Value}
use dnssec_tests.System.{System, Io}
use dnssec_tests.System.Returns.{Returns-if, Returns, Returns-bind, Returns-lift}
use dnssec_tests.Container.{Network}
use dnssec_tests.NameServer
use dnssec_tests.NameServer.{NameServer, Stopped, Signed, Running, zone}
use dnssec_tests.NameServer.Zones.{WellFormed, new-WellFormed, start-WellFormed}
use dnssec_tests.NameServer.Links.{adopt, add_all, amend}
use dnssec_tests.NameServer.Graph.{first_pass, start_all, split_leaf}

pub nameservers-IsName : IsName nameservers
unfolding fqdn is_word is_whitespace
nameservers-IsName = record { accepted = refl; word = is_word-IsWord _ refl }

by_cases :
    {World A B : Type 0} (P : Option A → Type 0) {Q : B → Type 0} {io : Io World B}
    {next : A → Io World B} (o : Option A)
    → P o
    → Returns Q io
    → ((a : A) → P (some a) → Returns Q (next a))
    → Returns Q (elim o [ none ↦ io | some a ↦ next a ])
by_cases P none p h k = h
by_cases P (some a) p h k = k a p

module _ {World : Type 0} (system : System World) (render : Text → List (Text × Value) → Text) where
  -- The server of the name servers' own zone, and the others.
  abbrev pub AllFormed : NameServer Stopped × List (NameServer Stopped) → Type 0
  AllFormed (ns, servers) = WellFormed ns × All WellFormed servers

  pub first_pass-WellFormed :
      (fuel : ℕ) (implementation : Implementation) (network : Network) (zone : Fqdn)
      (ns : NameServer Stopped) (servers : List (NameServer Stopped))
      → IsName zone
      → WellFormed ns
      → All WellFormed servers
      → Returns AllFormed (first_pass system render fuel implementation network zone ns servers)
  unfolding first_pass NameServer.add NameServer.a
  first_pass-WellFormed zero implementation network zone ns servers z n h =
      Returns-lift (Ensures-panic _)
  first_pass-WellFormed (suc fuel) implementation network zone ns servers z n h =
      Returns-bind (Returns-lift (parent-IsAbove zone z)) λ o a.
        by_cases IsAbove o a (Returns-lift (Ensures-ok _ (n, h))) λ above k.
          Returns-bind (new-WellFormed system render implementation above network k) λ server w.
            first_pass-WellFormed fuel implementation network above _ _ k
              (record {
                built =
                    added _ n.built
                      (new_a-IsEntry _ _ (Built-IsValid w.built).soa.nameserver w.addr);
                addr = n.addr;
              })
              (All-append _ servers (server ∷ []) h (w, tt))

  pub start_all-WellFormed :
      (servers : List (NameServer Stopped))
      → All WellFormed servers
      → Returns (All WellFormed) (start_all system render servers)
  unfolding start_all
  start_all-WellFormed [] h = Returns-lift (Ensures-ok _ tt)
  start_all-WellFormed (server ∷ rest) h =
      Returns-bind (start-WellFormed system render server h.0) λ running w.
        Returns-bind (start_all-WellFormed rest h.1) λ others v. Returns-lift (Ensures-ok _ (w, v))

  pub split_leaf-WellFormed :
      (leaf : NameServer Stopped)
      → WellFormed leaf
      → Returns AllFormed (split_leaf system render leaf)
  unfolding split_leaf
  split_leaf-WellFormed leaf h =
      Returns-if (Fqdn.eq (zone leaf) nameservers) (Returns-lift (Ensures-ok _ (h, tt))) (
        Returns-bind
          (new-WellFormed system render leaf.implementation nameservers leaf.container.network
            nameservers-IsName)
          λ ns n. Returns-lift (Ensures-ok _ (n, (h, tt))))

add_all-WellFormed :
    (server : NameServer Stopped) (dss : List Ds.Ds)
    → WellFormed server
    → All Ds.IsValid dss
    → WellFormed (add_all server dss)
unfolding add_all NameServer.add is_soa
add_all-WellFormed server [] h d = h
add_all-WellFormed server (ds ∷ dss) h d =
    add_all-WellFormed _ dss
      (record {
        built = added _ h.built (record { valid = d.0; plain = tt; not_soa = refl });
        addr = h.addr;
      })
      d.1

abbrev pub Adopted : NameServer Stopped × List Ds.Ds → Type 0
Adopted (server, left) = WellFormed server × All Ds.IsValid left

pub adopt-WellFormed :
    (dss : List Ds.Ds) (labels : ℕ) (server : NameServer Stopped)
    → WellFormed server
    → All Ds.IsValid dss
    → Adopted (adopt dss labels server)
unfolding adopt
adopt-WellFormed dss labels server h d =
    split (not (is_empty dss) && (num_labels (zone server) + 1 == labels))
  where
    split : (b : Bool) → Adopted (if b then (add_all server dss, []) else (server, dss))
    split true = (add_all-WellFormed server dss h d, tt)
    split false = (h, d)

pub amend-WellFormed :
    (f : Option (Fqdn → List Record → Result (List Record))) (server : NameServer Signed)
    → WellFormed server
    → Ensures WellFormed (amend f server)
amend-WellFormed none server h = Ensures-ok server h
amend-WellFormed (some f) server h =
    Ensures-bind (Ensures-any _)
      λ records _. Ensures-ok _ (record { built = h.built; addr = h.addr })
