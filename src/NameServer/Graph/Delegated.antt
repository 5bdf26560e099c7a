-- ===== src/NameServer/Graph/Delegated.antt =====
-- The delegations of a signed graph: `Graph::build` of packages/dns-test/src/name_server.rs.
use dnssec_tests.Base.{
  ℕ, suc, List, [], ◌∷◌, ◌++◌, Option, none, some, ◌≡◌, ◌≢◌, refl, ap, subst, ◌∙◌, arith, map,
}
use dnssec_tests.Text.{Text, is_empty}
use dnssec_tests.Error.{Result, ok, Ensures, Ensures-ok, Ensures-bind, Ensures-any}
use dnssec_tests.Fqdn.{Fqdn, num_labels}
use dnssec_tests.Record.{Record}
use dnssec_tests.Record.Ds
use dnssec_tests.TrustAnchor.{TrustAnchor}
use dnssec_tests.Implementation.Templates.{Value}
use dnssec_tests.System.{System, State}
use dnssec_tests.System.Returns.{
  Returns, Returns-both, Returns-run, Returns-bind, Returns-then, Returns-lift,
}
use dnssec_tests.NameServer.{NameServer, Stopped, Signed, Running, zone}
use dnssec_tests.NameServer.Lifecycle.{sign, start_signed}
use dnssec_tests.NameServer.Zones.{sign-SignedFrom}
use dnssec_tests.NameServer.Links.{adopt, amend}
use dnssec_tests.NameServer.Links.Delegations.{with_records, adopt-parent, adopt-other}
use dnssec_tests.NameServer.Graph.{trust, sign_all}

-- A run of `sign` on the server returns `signed`.
abbrev pub SignsTo :
    {World : Type 0}
    → System World
    → (Text → List (Text × Value) → Text)
    → NameServer Stopped
    → NameServer Signed
    → Type 0
SignsTo {World} system render server signed =
    (before after : State World) × (sign system render server before ≡ (ok signed, after))

-- Each server is signed when it has taken the DS records that wait for it, and started with the zone
-- file that it has then; the DS record of that signing waits for one of the next servers.
pub Delegated :
    {World : Type 0}
    → System World
    → (Text → List (Text × Value) → Text)
    → List Ds.Ds
    → ℕ
    → List (NameServer Stopped)
    → List (NameServer Running)
    → Type 0
Delegated system render dss labels [] [] = Unit
Delegated system render dss labels [] (_ ∷ _) = ⊥
Delegated system render dss labels (_ ∷ _) [] = ⊥
Delegated system render dss labels (server ∷ rest) (running ∷ others) =
    (signed : NameServer Signed) × SignsTo system render (adopt dss labels server).0 signed
    × (running.zone_file ≡ (adopt dss labels server).0.zone_file)
    × Delegated system render ((adopt dss labels server).1 ++ signed.state.ds ∷ [])
        (num_labels (zone (adopt dss labels server).0)) rest others

amend-zone_file :
    (f : Option (Fqdn → List Record → Result (List Record))) (server : NameServer Signed)
    → Ensures (λ s. s.zone_file ≡ server.zone_file) (amend f server)
amend-zone_file none server = Ensures-ok server refl
amend-zone_file (some f) server = Ensures-bind (Ensures-any _) λ records _. Ensures-ok _ refl

module _ {World : Type 0} (system : System World) (render : Text → List (Text × Value) → Text) where
  start_signed-zone_file :
      (server : NameServer Signed)
      → Returns (λ r. r.zone_file ≡ server.zone_file) (start_signed system render server)
  unfolding start_signed
  start_signed-zone_file server = Returns-then _ λ _.
      Returns-then _ λ _. Returns-then _ λ _. Returns-then _ λ _. Returns-lift (Ensures-ok _ refl)

  sign_all-Delegated :
      (f : Option (Fqdn → List Record → Result (List Record))) (dss : List Ds.Ds) (labels : ℕ)
      (anchor : TrustAnchor) (servers : List (NameServer Stopped))
      → Returns
          (λ p. Delegated system render dss labels servers p.0)
          (sign_all system render f dss labels anchor servers)
  unfolding sign_all Delegated
  sign_all-Delegated f dss labels anchor [] = Returns-lift (Ensures-ok _ tt)
  sign_all-Delegated f dss labels anchor (server ∷ rest) =
      Returns-bind
        (Returns-both (sign-SignedFrom system render (adopt dss labels server).0)
          (Returns-run (sign system render (adopt dss labels server).0)))
        λ signed (s, run). Returns-bind (Returns-lift (amend-zone_file f signed)) λ amended a.
          Returns-bind (start_signed-zone_file amended) λ running r.
            Returns-bind
              (sign_all-Delegated f ((adopt dss labels server).1 ++ signed.state.ds ∷ [])
                (num_labels (zone signed)) (trust (is_empty rest) anchor signed.state) rest)
              λ (others, anchor') os. Returns-lift (
                Ensures-ok _ (
                  signed,
                  run,
                  r ∙ a ∙ s.zone_file,
                  subst
                      (λ z.
                        Delegated system render
                          ((adopt dss labels server).1 ++ signed.state.ds ∷ []) (num_labels z) rest
                          others)
                      (ap (λ z. z.origin) s.zone_file) os,
                ))

-- A server with the DS records of one signed zone or two behind its own records.
abbrev pub with_child : NameServer Stopped → NameServer Signed → NameServer Stopped
with_child server child = with_records server (Record.ds child.state.ds ∷ [])

abbrev pub with_children :
    NameServer Stopped → NameServer Signed → NameServer Signed → NameServer Stopped
with_children server left right =
    with_records server (Record.ds left.state.ds ∷ Record.ds right.state.ds ∷ [])

cons-ne-nil : (ds : Ds.Ds) (dss : List Ds.Ds) → (ds ∷ dss) ≢ []
cons-ne-nil ds dss e = cc

module _ {World : Type 0} (system : System World) (render : Text → List (Text × Value) → Text) where
  -- The first server is signed and runs with the zone file that it has after it has taken DS records or
  -- left them.
  abbrev RunsAs :
      NameServer Stopped × List Ds.Ds
      → List (NameServer Stopped)
      → NameServer Running
      → List (NameServer Running)
      → Type 0
  RunsAs (server, left) rest running others =
      (signed : NameServer Signed) × SignsTo system render server signed
      × (running.zone_file ≡ server.zone_file)
      × Delegated system render (left ++ signed.state.ds ∷ []) (num_labels (zone server)) rest
          others

  Delegated-RunsAs :
      (dss : List Ds.Ds) (labels : ℕ) (server adopted : NameServer Stopped) (left : List Ds.Ds)
      (rest : List (NameServer Stopped)) (running : NameServer Running)
      (others : List (NameServer Running))
      → adopt dss labels server ≡ (adopted, left)
      → Delegated system render dss labels (server ∷ rest) (running ∷ others)
      → RunsAs (adopted, left) rest running others
  unfolding Delegated
  Delegated-RunsAs dss labels server adopted left rest running others e h =
      subst (λ p. RunsAs p rest running others) e h

  -- Four servers that are signed and run: two children as they were, their parent with the DS records
  -- that the signing of both returned, and the root with that of the parent.
  abbrev pub IsChain :
      NameServer Stopped
      → NameServer Stopped
      → NameServer Stopped
      → NameServer Stopped
      → List (NameServer Running)
      → Type 0
  IsChain left right parent root (a ∷ b ∷ c ∷ d ∷ []) =
      (left_signed right_signed parent_signed root_signed : NameServer Signed) × SignsTo system
        render left left_signed
      × SignsTo system render right right_signed
      × SignsTo system render (with_children parent left_signed right_signed) parent_signed
      × SignsTo system render (with_child root parent_signed) root_signed
      × (a.zone_file ≡ left.zone_file)
      × (b.zone_file ≡ right.zone_file)
      × (c.zone_file ≡ (with_children parent left_signed right_signed).zone_file)
      × (d.zone_file ≡ (with_child root parent_signed).zone_file)
  IsChain left right parent root _ = ⊥

  Delegated-IsChain :
      (left right parent root : NameServer Stopped) (running : List (NameServer Running))
      → num_labels (zone left) ≡ suc (num_labels (zone parent))
      → num_labels (zone right) ≡ suc (num_labels (zone parent))
      → num_labels (zone parent) ≡ suc (num_labels (zone root))
      → Delegated system render [] 0 (left ∷ right ∷ parent ∷ root ∷ []) running
      → IsChain left right parent root running
  unfolding Delegated
  Delegated-IsChain left right parent root [] l r p h = h
  Delegated-IsChain left right parent root (a ∷ []) l r p h = h.3
  Delegated-IsChain left right parent root (a ∷ b ∷ []) l r p h = h.3.3
  Delegated-IsChain left right parent root (a ∷ b ∷ c ∷ []) l r p h = h.3.3.3
  Delegated-IsChain left right parent root (a ∷ b ∷ c ∷ d ∷ e ∷ _) l r p h = h.3.3.3.3
  Delegated-IsChain left right parent root (a ∷ b ∷ c ∷ d ∷ []) l r p h =
      let (ls, lrun, az, h1) =
        Delegated-RunsAs [] 0 left left [] (right ∷ parent ∷ root ∷ []) a (b ∷ c ∷ d ∷ [])
          (adopt-other [] 0 left (omega arith)) h in
      let (rs, rrun, bz, h2) =
        Delegated-RunsAs (ls.state.ds ∷ []) (num_labels (zone left)) right right (ls.state.ds ∷ [])
          (parent ∷ root ∷ []) b (c ∷ d ∷ [])
          (adopt-other (ls.state.ds ∷ []) (num_labels (zone left)) right (omega (arith, l, r)))
          h1 in
      let dss = ls.state.ds ∷ rs.state.ds ∷ [] in
      let (ps, prun, cz, h3) =
        Delegated-RunsAs dss (num_labels (zone right)) parent
          (with_records parent (map Record.ds dss)) [] (root ∷ []) c (d ∷ [])
          (adopt-parent dss (num_labels (zone right)) parent
            (cons-ne-nil ls.state.ds (rs.state.ds ∷ [])) r)
          h2 in
      let (os, orun, dz, _) =
        Delegated-RunsAs (ps.state.ds ∷ []) (num_labels (zone parent)) root
          (with_records root (Record.ds ps.state.ds ∷ [])) [] [] d []
          (adopt-parent (ps.state.ds ∷ []) (num_labels (zone parent)) root
            (cons-ne-nil ps.state.ds []) p)
          h3 in
      (ls, rs, ps, os, lrun, rrun, prun, orun, az, bz, cz, dz)

-- Whatever the machine answers and however the signed zones are amended: if the servers of two sibling
-- zones, the server of their parent and that of the parent's parent are signed and started, each runs
-- with the zone file that was signed; that of each child is as it was, that of the parent has behind
-- its own records the DS records that signing the two children returned, and the last one has that
-- which signing the parent with them returned.
pub sign_all-IsChain :
    {World : Type 0} (system : System World) (render : Text → List (Text × Value) → Text)
    (f : Option (Fqdn → List Record → Result (List Record))) (anchor : TrustAnchor)
    (left right parent root : NameServer Stopped)
    → num_labels (zone left) ≡ suc (num_labels (zone parent))
    → num_labels (zone right) ≡ suc (num_labels (zone parent))
    → num_labels (zone parent) ≡ suc (num_labels (zone root))
    → Returns
        (λ p. IsChain system render left right parent root p.0)
        (sign_all system render f [] 0 anchor (left ∷ right ∷ parent ∷ root ∷ []))
sign_all-IsChain system render f anchor left right parent root l r p =
    let all = sign_all-Delegated system render f [] 0 anchor (left ∷ right ∷ parent ∷ root ∷ []) in
    record {
      holds = λ state state' result e.
          Delegated-IsChain system render left right parent root result.0 l r p
            (all.holds state state' result e);
    }
