-- ===== src/NameServer/Graph/Ancestors.antt =====
-- The zones above a zone, for the loop of the first pass in `Graph::build` of
-- packages/dns-test/src/name_server.rs.
use dnssec_tests.Base.{
  ℕ, zero, suc, ◌+◌, ◌<◌, Option, none, some, List, [], ◌∷◌, ◌++◌, length, ◌≡◌, refl, arith,
}
use dnssec_tests.Text.{Text}
use dnssec_tests.Error.{Result, ok, err, panic}
use dnssec_tests.Fqdn.{Fqdn, parent}
use dnssec_tests.Implementation.{Implementation}
use dnssec_tests.Implementation.Templates.{Value}
use dnssec_tests.System.{System, State, Io, and_then, ◌>>=◌, lift}
use dnssec_tests.System.Returns.{and_then-cong}
use dnssec_tests.Fqdn.Ancestors.{parent-length}
use dnssec_tests.Container.{Network}
use dnssec_tests.NameServer
use dnssec_tests.NameServer.{NameServer, Stopped}
use dnssec_tests.NameServer.Lifecycle.{new}
use dnssec_tests.NameServer.Graph.{first_pass}

-- With fuel for the text of the zone, more fuel changes nothing: the loop ends by itself.
pub first_pass-fuel :
    {World : Type 0} (system : System World) (render : Text → List (Text × Value) → Text)
    (fuel more : ℕ) (implementation : Implementation) (network : Network) (zone : Fqdn)
    (nameservers_ns : NameServer Stopped) (servers : List (NameServer Stopped))
    (state : State World)
    → length zone.inner < fuel
    → first_pass system render
        (fuel + more)
        implementation
        network
        zone
        nameservers_ns
        servers
        state
      ≡ first_pass system render fuel implementation network zone nameservers_ns servers state
unfolding first_pass ◌>>=◌
first_pass-fuel system render zero more implementation network zone ns servers state h =
    absurd (omega arith)
first_pass-fuel {World} system render (suc fuel) more implementation network zone ns servers state
      h =
    let q : suc fuel + more ≡ suc (fuel + more) = omega arith in
    rw q (
      go (λ above. first_pass-fuel system render fuel more implementation network above)
        (parent zone) refl)
  where
    -- What the loop does with the parent, for an amount of fuel.
    body : ℕ → Option Fqdn → Io World (NameServer Stopped × List (NameServer Stopped))
    body n none = lift (ok (ns, servers))
    body n (some above) = new system render implementation above network >>= λ server.
        first_pass system render n implementation network above
          (NameServer.add ns (NameServer.a server)) (servers ++ server ∷ [])

    go :
        (ih : (above : Fqdn) (ns' : NameServer Stopped) (servers' : List (NameServer Stopped))
            (state' : State World)
          → length above.inner < fuel
          → first_pass system render (fuel + more) implementation network above ns' servers' state'
            ≡ first_pass system render fuel implementation network above ns' servers' state')
        (m : Result (Option Fqdn))
        → parent zone ≡ m
        → and_then (body (fuel + more)) (m, state) ≡ and_then (body fuel) (m, state)
    go ih (ok none) e = refl
    go ih (err error) e = refl
    go ih (panic text) e = refl
    go ih (ok (some above)) e =
        let l = parent-length zone above e in
        and_then-cong _ _ (λ server state'. ih above _ _ state' (omega arith))
          (new system render implementation above network state)
