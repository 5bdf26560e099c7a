-- ===== src/NameServer/Graph.antt =====
-- `Graph` of packages/dns-test/src/name_server.rs: the name servers from a leaf zone to the root, with
-- the referrals between them and, if they are signed, the DS records and the trust anchor.
pub mod Ancestors
pub mod Formed
pub mod Built
pub mod Delegated
use dnssec_tests.Base.{
  ℕ, zero, suc, ◌+◌, ◌-◌, ◌==◌, not, Bool, true, false, if◌then◌else◌, Option, none, some, List, [],
  ◌∷◌, ◌++◌, map, length,
}
use dnssec_tests.Text.{Text, codes, is_empty}
use dnssec_tests.Error
use dnssec_tests.Error.{Result, ok, err, panic}
use dnssec_tests.Fqdn
use dnssec_tests.Fqdn.{Fqdn, parent, num_labels, com_zone, nameservers}
use dnssec_tests.Record
use dnssec_tests.Record.{Record}
use dnssec_tests.Record.Ds.{Ds}
use dnssec_tests.TrustAnchor
use dnssec_tests.TrustAnchor.{TrustAnchor}
use dnssec_tests.ZoneFile.Root
use dnssec_tests.Implementation.{Implementation}
use dnssec_tests.Implementation.Templates.{Value}
use dnssec_tests.System.{System, Io, ◌>>=◌, ◌>>◌, lift}
use dnssec_tests.Container.{Network}
use dnssec_tests.NameServer
use dnssec_tests.NameServer.{
  NameServer, Stopped, Signed, Running, zone, referral_nameserver, root_hint,
}
use dnssec_tests.NameServer.Links.{second_pass, last_hint, adopt, amend, check_leaf}
use dnssec_tests.NameServer.Lifecycle
use dnssec_tests.NameServer.Lifecycle.{new, sign, start, start_signed}

-- The function of `AndAmend` maps the records of a signed zone, or panics.
pub data Sign : Type 0 where
  no yes : Sign
  and_amend : (Fqdn → List Record → Result (List Record)) → Sign

pub record Graph : Type 0 where
  pub nameservers : List (NameServer Running)
  pub root : Root.Root
  pub trust_anchor : Option TrustAnchor

-- The keys of the last server are trusted.
abbrev pub trust : Bool → TrustAnchor → Signed → TrustAnchor
trust is_last anchor state =
    if is_last then TrustAnchor.add (TrustAnchor.add anchor state.ksk) state.zsk else anchor

module _ {World : Type 0} (system : System World) (render : Text → List (Text × Value) → Text) where
  -- The first pass: a name server for each zone above `zone`. The text of a zone is longer than that
  -- of its parent, so its length is fuel enough.
  unfoldable pub first_pass :
      ℕ
      → Implementation
      → Network
      → Fqdn
      → NameServer Stopped
      → List (NameServer Stopped)
      → Io World (NameServer Stopped × List (NameServer Stopped))
  unfolding parent new NameServer.add NameServer.a
  first_pass zero implementation network zone nameservers_ns servers =
      lift (panic (codes "out of fuel"))
  first_pass (suc fuel) implementation network zone nameservers_ns servers =
      lift (parent zone) >>= λ maybe_parent. elim maybe_parent [
        | none ↦ lift (ok (nameservers_ns, servers))
        | some parent ↦ new system render implementation parent network >>= λ server.
            first_pass fuel implementation network parent
              (NameServer.add nameservers_ns (NameServer.a server)) (servers ++ server ∷ [])
      ]

  unfoldable pub start_all : List (NameServer Stopped) → Io World (List (NameServer Running))
  unfolding start
  start_all [] = lift (ok [])
  start_all (server ∷ rest) = do
    running ← start system render server
    others ← start_all rest
    lift (ok (running ∷ others))

  -- The loop that signs the zones, from the leaf to the root.
  unfoldable pub sign_all :
      Option (Fqdn → List Record → Result (List Record))
      → List Ds
      → ℕ
      → TrustAnchor
      → List (NameServer Stopped)
      → Io World (List (NameServer Running) × TrustAnchor)
  unfolding adopt sign start_signed TrustAnchor.add num_labels
  sign_all maybe_mutate children_ds children_num_labels anchor [] = lift (ok ([], anchor))
  sign_all maybe_mutate children_ds children_num_labels anchor (server ∷ rest) =
      let (parent, left) = adopt children_ds children_num_labels server in
      sign system render parent >>= λ signed. lift (amend maybe_mutate signed) >>= λ amended.
      start_signed system render amended >>= λ running.
      sign_all maybe_mutate (left ++ signed.state.ds ∷ []) (num_labels (zone signed))
        (trust (is_empty rest) anchor signed.state) rest
      >>= λ (others, anchor'). lift (ok (running ∷ others, anchor'))

  -- The name servers start, signed or not.
  unfoldable pub start_graph :
      Sign → List (NameServer Stopped) → Io World (List (NameServer Running) × Option TrustAnchor)
  unfolding start_all sign_all TrustAnchor.empty
  start_graph Sign.no servers = do running ← start_all servers; lift (ok (running, none))
  start_graph Sign.yes servers = do
    (running, anchor) ← sign_all none [] 0 TrustAnchor.empty servers
    lift (ok (running, some anchor))
  start_graph (Sign.and_amend f) servers = do
    (running, anchor) ← sign_all (some f) [] 0 TrustAnchor.empty servers
    lift (ok (running, some anchor))

  -- The server of `nameservers.com.`, and the leaf if it is another.
  unfoldable pub split_leaf :
      NameServer Stopped → Io World (NameServer Stopped × List (NameServer Stopped))
  unfolding new Fqdn.eq
  split_leaf leaf = if Fqdn.eq (zone leaf) nameservers then lift (ok (leaf, [])) else (do
    nameservers_ns ← new system render leaf.implementation nameservers leaf.container.network
    lift (ok (nameservers_ns, leaf ∷ [])))

  unfoldable pub build : NameServer Stopped → Sign → Io World Graph
  unfolding check_leaf split_leaf first_pass second_pass last_hint start_graph
  build leaf sign = do
    lift (check_leaf (zone leaf))
    (nameservers_ns, leaves) ← split_leaf leaf
    (nameservers_ns, servers) ←
        first_pass (suc (length (zone leaf).inner)) leaf.implementation leaf.container.network
          (zone leaf) nameservers_ns []
    let unlinked = nameservers_ns ∷ (leaves ++ servers)
    linked ← lift (second_pass (length unlinked - 1) unlinked)
    root ← lift (last_hint linked)
    (running, anchor) ← start_graph sign linked
    lift (ok (record { nameservers = running; root = root; trust_anchor = anchor }))
