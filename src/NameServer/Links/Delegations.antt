-- ===== src/NameServer/Links/Delegations.antt =====
-- The DS records of children in `Graph::build` of packages/dns-test/src/name_server.rs.
use dnssec_tests.Base.{
  ℕ, suc, ◌+◌, ◌==◌, true, false, List, [], ◌∷◌, ◌++◌, append-nil, append_assoc, map, ◌≡◌, ◌≢◌,
  refl, ap, ◌∙◌, arith,
}
use dnssec_tests.Fqdn.{num_labels}
use dnssec_tests.Record.{Record}
use dnssec_tests.Record.Ds.{Ds}
use dnssec_tests.ZoneFile
use dnssec_tests.NameServer
use dnssec_tests.NameServer.{NameServer, Stopped, zone}
use dnssec_tests.NameServer.Links.{adopt, add_all}

-- A server with more records.
abbrev pub with_records : NameServer Stopped → List Record → NameServer Stopped
with_records server rs = record server {
  zone_file = record server.zone_file { records = server.zone_file.records ++ rs };
}

add_all_lem :
    (server : NameServer Stopped) (dss : List Ds)
    → add_all server dss ≡ with_records server (map Record.ds dss)
unfolding add_all NameServer.add ZoneFile.add
add_all_lem server [] = rw append-nil
add_all_lem server (ds ∷ dss) =
    add_all_lem (NameServer.add server (Record.ds ds)) dss ∙ rw append_assoc

-- The server of the zone right above the children takes all their DS records, in order, and none is
-- left.
pub adopt-parent :
    (children_ds : List Ds) (labels : ℕ) (server : NameServer Stopped)
    → children_ds ≢ []
    → labels ≡ suc (num_labels (zone server))
    → adopt children_ds labels server ≡ (with_records server (map Record.ds children_ds), [])
unfolding adopt
adopt-parent [] labels server h e = absurd (h refl)
adopt-parent (ds ∷ dss) labels server h e =
    let t : (num_labels (zone server) + 1 == labels) ≡ true = ground arith in
    rw t (ap (λ s. (s, [])) (add_all_lem server (ds ∷ dss)))

-- Any other server is left as it is, and the DS records wait for the parent.
pub adopt-other :
    (children_ds : List Ds) (labels : ℕ) (server : NameServer Stopped)
    → labels ≢ suc (num_labels (zone server))
    → adopt children_ds labels server ≡ (server, children_ds)
unfolding adopt
adopt-other [] labels server h = refl
adopt-other (ds ∷ dss) labels server h =
    let t : (num_labels (zone server) + 1 == labels) ≡ false = ground arith in rw t
