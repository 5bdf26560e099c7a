-- ===== src/NameServer/Links.antt =====
-- The parts of `Graph::build` in packages/dns-test/src/name_server.rs that need no container: the
-- assertions, the referrals, the root hint and the DS records of children.
pub mod Referrals
pub mod Delegations
use dnssec_tests.Base.{
  ℕ, zero, suc, ◌+◌, ◌-◌, ◌==◌, not, ◌&&◌, Bool, true, false, if◌then◌else◌, Option, none, some,
  List, [], ◌∷◌, ◌++◌, map, length,
}
use dnssec_tests.Text.{Text, codes, is_empty}
use dnssec_tests.Error.{Result, ok, err, panic, ◌>>=◌}
use dnssec_tests.Fqdn
use dnssec_tests.Fqdn.{Fqdn, parent, num_labels, com_zone, nameservers}
use dnssec_tests.Record
use dnssec_tests.Record.{Record}
use dnssec_tests.Record.Ds.{Ds}
use dnssec_tests.TrustAnchor
use dnssec_tests.TrustAnchor.{TrustAnchor}
use dnssec_tests.ZoneFile.Root
use dnssec_tests.Implementation.{Implementation}
use dnssec_tests.Implementation.Templates.{Value}
use dnssec_tests.Container.{Network}
use dnssec_tests.NameServer
use dnssec_tests.NameServer.{
  NameServer, Stopped, Signed, Running, zone, referral_nameserver, root_hint,
}
use dnssec_tests.NameServer.Lifecycle
use dnssec_tests.NameServer.Lifecycle.{new, sign, start, start_signed}

-- `Some(zone) == other`.
abbrev pub is_some_eq : Fqdn → Option Fqdn → Bool
is_some_eq zone none = false
is_some_eq zone (some other) = Fqdn.eq zone other

-- The inner loop of the second pass: the first of `right` that is the child's parent refers to it.
unfoldable pub refer :
    {S : Type 0} → NameServer S → List (NameServer Stopped) → Result (List (NameServer Stopped))
unfolding referral_nameserver parent Fqdn.eq
refer child [] = ok []
refer child (maybe_parent ∷ right) = parent (zone child) >>= λ parent_zone.
    elim (is_some_eq (zone maybe_parent) parent_zone) [
      | true ↦ ok (referral_nameserver maybe_parent child ∷ right)
      | false ↦ refer child right >>= λ right'. ok (maybe_parent ∷ right')
    ]

-- The second pass, for as many indices as are left.
unfoldable pub second_pass : ℕ → List (NameServer Stopped) → Result (List (NameServer Stopped))
unfolding refer
second_pass zero servers = ok servers
second_pass (suc indices) [] = ok []
second_pass (suc indices) (child ∷ right) =
    refer child right >>= λ right'. second_pass indices right' >>= λ rest. ok (child ∷ rest)

-- `nameservers.last().unwrap().root_hint()`.
unfoldable pub last_hint : List (NameServer Stopped) → Result Root.Root
unfolding root_hint
last_hint [] = panic (codes "called `Option::unwrap()` on a `None` value")
last_hint (server ∷ []) = ok (root_hint server)
last_hint (_ ∷ server ∷ rest) = last_hint (server ∷ rest)

-- `for ds in children_ds.drain(..) { nameserver.add(ds); }`.
unfoldable pub add_all : NameServer Stopped → List Ds → NameServer Stopped
unfolding NameServer.add
add_all server [] = server
add_all server (ds ∷ rest) = add_all (NameServer.add server (Record.ds ds)) rest

-- A name server before it is signed: it takes the DS records of its children, if it is their parent.
unfoldable pub adopt : List Ds → ℕ → NameServer Stopped → NameServer Stopped × List Ds
unfolding num_labels add_all
adopt children_ds children_num_labels server =
    if not (is_empty children_ds) && (num_labels (zone server) + 1 == children_num_labels)
    then (add_all server children_ds, [])
    else (server, children_ds)

abbrev pub amend :
    Option (Fqdn → List Record → Result (List Record))
    → NameServer Signed
    → Result (NameServer Signed)
amend none server = ok server
amend (some f) server = f (zone server) server.state.signed.records >>= λ records.
    ok (record server {
      state = record server.state { signed = record server.state.signed { records = records } };
    })

-- The two assertions.
unfoldable pub check_leaf : Fqdn → Result (Unit {0})
unfolding num_labels parent Fqdn.eq
check_leaf leaf_zone =
    if not (num_labels leaf_zone == 2)
    then panic (codes "not yet implemented")
    else parent leaf_zone >>= λ parent_zone.
        if is_some_eq com_zone parent_zone then ok tt else panic (codes "not yet implemented")
