-- ===== src/Container/Ownership/Removal.antt =====
-- When containers and networks are removed: the tests `run_works` and `remove_network_works` of
-- packages/dns-test/src/container.rs and container/network.rs, for every program.
use dnssec_tests.Base.{◌+◌, ℕ, ◌<◌, ◌≡◌, ◌≢◌, sym, arith, subst}
use dnssec_tests.Container.Ownership.Counts.{times}
use dnssec_tests.Container.Ownership.Live.{live, live-zero, live-ne-zero}
use dnssec_tests.Container.Ownership.{Program, Reachable}
use dnssec_tests.Container.Ownership.Owners.{IsCounted, container_owners, network_owners}
use dnssec_tests.Container.Ownership.Processes.{Reachable-AllAccounted}
use dnssec_tests.Container.Ownership.Invariant.{Reachable-IsCounted}

-- The containers of a network are all removed.
abbrev pub AllRemoved : Program → ℕ → Type 0
AllRemoved p n =
    (c : ℕ) → c < p.heap.inners.made → p.heap.network_of c ≡ n → times c p.heap.inners.drops ≡ 1

empty-removed : (p : Program) → IsCounted p → (n : ℕ) → network_owners p n ≡ 0 → AllRemoved p n
empty-removed p i n none c made at =
    let lives = live-ne-zero p.heap.inners.strong p.heap.network_of c p.heap.inners.made made in
    let in_network : live p.heap.inners.strong p.heap.network_of (p.heap.network_of c)
          p.heap.inners.made
        ≡ 0 =
      subst (λ m. live p.heap.inners.strong p.heap.network_of m p.heap.inners.made ≡ 0) (sym at)
        (omega (arith, none)) in
    ground (arith, i.containers.dropped c made, i.containers.counts c, lives, in_network)

-- In every state that a program reaches: a container that is removed has no handles, and every process
-- that was spawned in it was waited for or killed; and a network that is removed has no handles, and
-- its containers are all removed.
pub removed-unused :
    (p : Program)
    → Reachable p
    → ((c : ℕ)
        → times c p.heap.inners.drops ≢ 0
        → (p.held.containers c ≡ 0)
          × (times c p.heap.spawns ≡ times c p.heap.waits + times c p.heap.kills))
      × ((n : ℕ) → times n p.heap.networks.drops ≢ 0 → (p.held.networks n ≡ 0) × AllRemoved p n)
removed-unused p reachable =
    let i = Reachable-IsCounted p reachable in
    (
      (λ c removed.
          let account = Reachable-AllAccounted p reachable c in
          ground (arith, i.containers.kept c, removed, account)),
      (λ n removed.
          let none : network_owners p n ≡ 0 = ground (arith, i.networks.kept n, removed) in
          (omega (arith, none), empty-removed p i n none)),
    )

-- When a program that has run to this state holds no more handles, every container and every network
-- that it made has been removed, and once.
pub released-removed :
    (p : Program)
    → Reachable p
    → ((a : ℕ) → (p.held.networks a ≡ 0) × (p.held.containers a ≡ 0) × (p.held.children a ≡ 0))
    → ((c : ℕ) → c < p.heap.inners.made → times c p.heap.inners.drops ≡ 1)
      × ((n : ℕ) → n < p.heap.networks.made → times n p.heap.networks.drops ≡ 1)
released-removed p reachable none =
    let i = Reachable-IsCounted p reachable in
    let no_owner : (c : ℕ) → container_owners p c ≡ 0 = λ c. ground (arith, none c) in
    (
      (λ c made. i.containers.dropped c made (no_owner c)),
      (λ n made.
          let none_live =
            live-zero p.heap.inners.strong p.heap.network_of n p.heap.inners.made
              (λ c. ground (arith, i.containers.counts c, no_owner c)) in
          i.networks.dropped n made (ground (arith, none n, none_live))),
    )
