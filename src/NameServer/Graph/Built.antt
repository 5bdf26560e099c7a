-- ===== src/NameServer/Graph/Built.antt =====
-- What `Graph::build` of packages/dns-test/src/name_server.rs returns, whatever the machine answers.
use dnssec_tests.Base.{
  length, ◌-◌, ap, ◌∙◌, append_assoc, ℕ, zero, suc, Option, none, some, List, [], ◌∷◌, ◌++◌, ◌≡◌,
  refl, All, All-append,
}
use dnssec_tests.Text.{Text, is_empty}
use dnssec_tests.Error.{Result, Ensures, Ensures-bind, Ensures-both, Ensures-ok, Ensures-any}
use dnssec_tests.Fqdn.{Fqdn, num_labels}
use dnssec_tests.Record.{Record}
use dnssec_tests.Record.Ds
use dnssec_tests.Record.Dnskey.{Dnskey}
use dnssec_tests.TrustAnchor
use dnssec_tests.TrustAnchor.{TrustAnchor}
use dnssec_tests.Implementation.Templates.{Value}
use dnssec_tests.System.{System}
use dnssec_tests.System.Returns.{Returns, Returns-bind, Returns-then, Returns-lift}
use dnssec_tests.NameServer.{NameServer, Stopped, Signed, Running, zone}
use dnssec_tests.NameServer.Lifecycle.{sign}
use dnssec_tests.NameServer.Zones.{
  WellFormed, zone-IsName, SignedFrom-WellFormed, sign-SignedFrom, start_signed-WellFormed,
}
use dnssec_tests.NameServer.Links.{adopt, refer, second_pass}
use dnssec_tests.NameServer.Links.Referrals.{second_pass-WellFormed}
use dnssec_tests.NameServer.Graph.{Sign, sign_all, start_graph, build, trust}
use dnssec_tests.NameServer.Graph.Formed.{
  first_pass-WellFormed, start_all-WellFormed, split_leaf-WellFormed, adopt-WellFormed,
  amend-WellFormed,
}

-- The keys of the last server are added, if there is one.
abbrev Trusts : List (NameServer Stopped) → TrustAnchor → TrustAnchor → Type 0
Trusts [] before after = after ≡ before
Trusts (_ ∷ _) before after =
    (ksk : Dnskey) × (zsk : Dnskey) × (after.keys ≡ before.keys ++ ksk ∷ zsk ∷ [])

Trusts-trust :
    (server : NameServer Stopped) (rest : List (NameServer Stopped)) (anchor after : TrustAnchor)
    (state : Signed)
    → Trusts rest (trust (is_empty rest) anchor state) after
    → Trusts (server ∷ rest) anchor after
unfolding TrustAnchor.add
Trusts-trust server [] anchor after state h = (
  state.ksk,
  state.zsk,
  ap (λ a. a.keys) h ∙ append_assoc anchor.keys (state.ksk ∷ []) (state.zsk ∷ []),
)
Trusts-trust server (_ ∷ _) anchor after state h = h

module _ {World : Type 0} (system : System World) (render : Text → List (Text × Value) → Text) where
  sign_all-WellFormed :
      (f : Option (Fqdn → List Record → Result (List Record))) (dss : List Ds.Ds) (labels : ℕ)
      (anchor : TrustAnchor) (servers : List (NameServer Stopped))
      → All WellFormed servers
      → All Ds.IsValid dss
      → Returns
          (λ p. All WellFormed p.0 × Trusts servers anchor p.1)
          (sign_all system render f dss labels anchor servers)
  unfolding sign_all
  sign_all-WellFormed f dss labels anchor [] h d = Returns-lift (Ensures-ok _ (tt, refl))
  sign_all-WellFormed f dss labels anchor (server ∷ rest) h d =
      let (w, left) = adopt-WellFormed dss labels server h.0 d in
      Returns-bind (sign-SignedFrom system render _) λ signed s.
        Returns-bind (Returns-lift (amend-WellFormed f signed (SignedFrom-WellFormed _ signed w s)))
          λ amended v. Returns-bind (start_signed-WellFormed system render _ v) λ running r.
            Returns-bind
              (sign_all-WellFormed f ((adopt dss labels server).1 ++ signed.state.ds ∷ [])
                (num_labels (zone signed)) (trust (is_empty rest) anchor signed.state) rest h.1
                (All-append _ _ (signed.state.ds ∷ []) left (s.ds, tt)))
              λ (others, anchor') (os, t).
                Returns-lift
                  (Ensures-ok _ ((r, os), Trusts-trust server rest anchor anchor' signed.state t))

-- What is trusted: nothing without signing, and else two keys.
abbrev pub TrustedBy : Sign → Option TrustAnchor → Type 0
TrustedBy Sign.no anchor = anchor ≡ none
TrustedBy _ anchor =
    (ksk : Dnskey) × (zsk : Dnskey) × (anchor ≡ some (record { keys = ksk ∷ zsk ∷ [] }))

abbrev IsCons : List (NameServer Stopped) → Type 0
IsCons [] = ⊥
IsCons (_ ∷ _) = Unit

second_pass-IsCons :
    (indices : ℕ) (server : NameServer Stopped) (rest : List (NameServer Stopped))
    → Ensures IsCons (second_pass indices (server ∷ rest))
unfolding second_pass
second_pass-IsCons zero server rest = Ensures-ok _ tt
second_pass-IsCons (suc indices) server rest =
    Ensures-bind (Ensures-any (refer server rest)) λ right _.
      Ensures-bind (Ensures-any (second_pass indices right))
        λ others _. Ensures-ok (server ∷ others) tt

module _ {World : Type 0} (system : System World) (render : Text → List (Text × Value) → Text) where
  abbrev StartedAs : Sign → List (NameServer Running) × Option TrustAnchor → Type 0
  StartedAs sign (servers, anchor) = All WellFormed servers × TrustedBy sign anchor

  trusted :
      (server : NameServer Stopped) (rest : List (NameServer Stopped)) (anchor : TrustAnchor)
      → Trusts (server ∷ rest) TrustAnchor.empty anchor
      → TrustedBy Sign.yes (some anchor)
  unfolding TrustAnchor.empty
  trusted server rest anchor (ksk, zsk, e) =
      (ksk, zsk, ap (λ keys. some (record { keys = keys })) e)

  start_graph-StartedAs :
      (sign : Sign) (servers : List (NameServer Stopped))
      → IsCons servers
      → All WellFormed servers
      → Returns (StartedAs sign) (start_graph system render sign servers)
  unfolding start_graph
  start_graph-StartedAs sign [] c h = absurd c
  start_graph-StartedAs Sign.no (server ∷ rest) c h =
      Returns-bind (start_all-WellFormed system render (server ∷ rest) h)
        λ running w. Returns-lift (Ensures-ok _ (w, refl))
  start_graph-StartedAs Sign.yes (server ∷ rest) c h =
      Returns-bind
        (sign_all-WellFormed system render none [] 0 TrustAnchor.empty (server ∷ rest) h tt)
        λ (running, anchor) (w, t). Returns-lift (Ensures-ok _ (w, trusted server rest anchor t))
  start_graph-StartedAs (Sign.and_amend f) (server ∷ rest) c h =
      Returns-bind
        (sign_all-WellFormed system render (some f) [] 0 TrustAnchor.empty (server ∷ rest) h tt)
        λ (running, anchor) (w, t). Returns-lift (Ensures-ok _ (w, trusted server rest anchor t))

  -- Whatever the machine answers: if the leaf is well formed, every name server of the graph that
  -- `build` returns has a zone file built out of valid parts and an address of four octets; the trust
  -- anchor is missing without signing, and else holds two keys.
  pub build-WellFormed :
      (leaf : NameServer Stopped) (sign : Sign)
      → WellFormed leaf
      → Returns
          (λ graph. All WellFormed graph.nameservers × TrustedBy sign graph.trust_anchor)
          (build system render leaf sign)
  unfolding build
  build-WellFormed leaf sign h = Returns-then _ λ _.
      Returns-bind (split_leaf-WellFormed system render leaf h) λ (ns, leaves) (n, ls).
        Returns-bind
          (first_pass-WellFormed system render (suc (length (zone leaf).inner)) leaf.implementation
            leaf.container.network (zone leaf) ns [] (zone-IsName leaf h) n tt)
          λ (ns', servers) (n', ss).
            Returns-bind
              (Returns-lift (
                Ensures-both
                  (second_pass-WellFormed (length (ns' ∷ (leaves ++ servers)) - 1)
                    (ns' ∷ (leaves ++ servers)) (n', All-append _ leaves servers ls ss))
                  (second_pass-IsCons (length (ns' ∷ (leaves ++ servers)) - 1) ns'
                    (leaves ++ servers))))
              λ linked (w, c). Returns-then _ λ root.
                Returns-bind (start_graph-StartedAs sign linked c w)
                  λ (running, anchor) (v, t). Returns-lift (Ensures-ok _ (v, t))
