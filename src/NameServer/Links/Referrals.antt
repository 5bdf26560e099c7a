-- ===== src/NameServer/Links/Referrals.antt =====
-- The second pass of `Graph::build` in packages/dns-test/src/name_server.rs.
use dnssec_tests.Base.{
  ℕ, zero, suc, Bool, true, false, some, List, [], ◌∷◌, ◌++◌, ◌≡◌, refl, ap, arith, All, Bool-cases,
  inl, inr, length, length-append,
}
use dnssec_tests.Text.{Text, codes, equal}
use dnssec_tests.Text.Equality.{equal_iff}
use dnssec_tests.Error.{Result, ok, ◌>>=◌, Ensures, Ensures-ok, Ensures-bind, Ensures-any}
use dnssec_tests.Fqdn
use dnssec_tests.Fqdn.{Fqdn, parent, root, com_zone, nameservers}
use dnssec_tests.Fqdn.Labels.{IsLabel, of_labels, parent-of_labels}
use dnssec_tests.NameServer.{NameServer, Stopped, zone, referral_nameserver}
use dnssec_tests.NameServer.Zones.{WellFormed, referral_nameserver-WellFormed}
use dnssec_tests.NameServer.Links.{is_some_eq, refer, second_pass}

choose :
    {P : List (NameServer Stopped) → Type 0} {m n : Result (List (NameServer Stopped))} (b : Bool)
    → Ensures P m
    → Ensures P n
    → Ensures P (elim b [ true ↦ m | false ↦ n ])
choose true h k = h
choose false h k = k

refer-WellFormed :
    {S : Type 0} (child : NameServer S) (right : List (NameServer Stopped))
    → WellFormed child
    → All WellFormed right
    → Ensures (All WellFormed) (refer child right)
unfolding refer
refer-WellFormed child [] c h = Ensures-ok _ tt
refer-WellFormed child (server ∷ right) c h =
    Ensures-bind (Ensures-any (parent (zone child))) λ above _.
      choose (is_some_eq (zone server) above)
        (Ensures-ok _ (referral_nameserver-WellFormed server child h.0 c, h.1))
        (Ensures-bind (refer-WellFormed child right c h.1) λ rest r. Ensures-ok _ (h.0, r))

-- The second pass keeps every server well formed.
pub second_pass-WellFormed :
    (indices : ℕ) (servers : List (NameServer Stopped))
    → All WellFormed servers
    → Ensures (All WellFormed) (second_pass indices servers)
unfolding second_pass
second_pass-WellFormed zero servers h = Ensures-ok _ h
second_pass-WellFormed (suc indices) [] h = Ensures-ok _ tt
second_pass-WellFormed (suc indices) (child ∷ right) h =
    Ensures-bind (refer-WellFormed child right h.0 h.1) λ right' r.
      Ensures-bind (second_pass-WellFormed indices right' r) λ rest s. Ensures-ok _ (h.0, s)

refer-here :
    (child server : NameServer Stopped) (right : List (NameServer Stopped))
    → parent (zone child) ≡ ok (some (zone server))
    → refer child (server ∷ right) ≡ ok (referral_nameserver server child ∷ right)
unfolding refer Fqdn.eq
refer-here child server right e =
    let t : equal (zone server).inner (zone server).inner ≡ true =
      (equal_iff (zone server).inner (zone server).inner).1 refl in
    rw (e, ◌>>=◌, t)

refer-past :
    (child server : NameServer Stopped) (right right' : List (NameServer Stopped)) (above : Fqdn)
    → parent (zone child) ≡ ok (some above)
    → Fqdn.eq (zone server) above ≡ false
    → refer child right ≡ ok right'
    → refer child (server ∷ right) ≡ ok (server ∷ right')
unfolding refer
refer-past child server right right' above e f h = rw (e, ◌>>=◌, f, h)

leaf-com : (l : Text) → Fqdn.eq (of_labels (l ∷ codes "com" ∷ [])) com_zone ≡ false
unfolding Fqdn.eq
leaf-com l = elim (Bool-cases (equal (l ++ codes ".com.") (codes "com."))) [
  | inl e ↦
      let q = ap length ((equal_iff (l ++ codes ".com.") (codes "com.")).0 e) in
      absurd (omega (arith, length-append l (codes ".com."), q))
  | inr e ↦ e
]

com-IsLabel : IsLabel (codes "com")
com-IsLabel = record { ne_nil = cc; no_dot = (omega arith, (omega arith, (omega arith, tt))) }

parent-nameservers : parent nameservers ≡ ok (some com_zone)
unfolding parent
parent-nameservers = refl

parent-com_zone : parent com_zone ≡ ok (some root)
unfolding parent
parent-com_zone = refl

-- With the servers of `nameservers.com.`, of a leaf below `com.`, of `com.` and of the root, in this
-- order, `com.` refers to both servers below it, the root refers to `com.`, and nothing else changes.
pub second_pass-chain :
    (ns leaf middle top : NameServer Stopped) (l : Text)
    → IsLabel l
    → zone ns ≡ nameservers
    → zone leaf ≡ of_labels (l ∷ codes "com" ∷ [])
    → zone middle ≡ com_zone
    → zone top ≡ root
    → second_pass 3 (ns ∷ leaf ∷ middle ∷ top ∷ [])
      ≡ ok (
          ns
          ∷ leaf
          ∷ referral_nameserver (referral_nameserver middle ns) leaf
          ∷ referral_nameserver top middle
          ∷ [])
unfolding second_pass referral_nameserver
second_pass-chain ns leaf middle top l h zn zl zc zt =
    let middle' = referral_nameserver middle ns in
    let first : refer ns (leaf ∷ middle ∷ top ∷ []) ≡ ok (leaf ∷ middle' ∷ top ∷ []) =
      refer-past ns leaf (middle ∷ top ∷ []) _ com_zone (rw zn parent-nameservers)
        (rw zl (leaf-com l)) (refer-here ns middle _ (rw (zn, zc) parent-nameservers)) in
    let second =
      refer-here leaf middle' (top ∷ [])
        (rw (zl, zc) (parent-of_labels l (codes "com" ∷ []) h (com-IsLabel, tt))) in
    let third =
      refer-here (referral_nameserver middle' leaf) top [] (rw (zc, zt) parent-com_zone) in
    rw (first, second, third) refl
