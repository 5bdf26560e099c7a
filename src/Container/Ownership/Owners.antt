-- ===== src/Container/Ownership/Owners.antt =====
-- Who owns the containers and networks of packages/dns-test/src/container.rs and container/network.rs.
use dnssec_tests.Base.{ℕ, ◌+◌, ◌<◌, ◌≢◌, refl, arith}
use dnssec_tests.Container.Ownership.Counts.{IsOwned}
use dnssec_tests.Container.Ownership.Live.{live, live-ne-zero}
use dnssec_tests.Container.Ownership.{Program, initial}

-- The owners of a container: handles and children.
abbrev pub container_owners : Program → ℕ → ℕ
container_owners p c = p.held.containers c + p.held.children c

-- The owners of a network: handles, and the containers that are not dropped.
abbrev pub network_owners : Program → ℕ → ℕ
network_owners p n =
    p.held.networks n + live p.heap.inners.strong p.heap.network_of n p.heap.inners.made

pub record IsCounted (p : Program) : Type 0 where
  pub containers : IsOwned (container_owners p) p.heap.inners
  pub networks : IsOwned (network_owners p) p.heap.networks

pub initial-IsCounted : IsCounted initial
initial-IsCounted = record {
  containers = record {
    counts = λ a. omega arith;
    dropped = λ a made none. absurd (omega arith);
    kept = λ a some_owner. refl;
    fresh = λ a new. (omega arith, refl);
  };
  networks = record {
    counts = λ a. omega arith;
    dropped = λ a made none. absurd (omega arith);
    kept = λ a some_owner. refl;
    fresh = λ a new. (omega arith, refl);
  };
}

-- A container with an owner was made.
pub owned-made :
    (p : Program) → IsCounted p → (c : ℕ) → container_owners p c ≢ 0 → c < p.heap.inners.made
owned-made p h c owned = ground (arith, h.containers.fresh c, owned)

-- A container with an owner owns its network.
pub owned-network :
    (p : Program)
    → IsCounted p
    → (c : ℕ) → container_owners p c ≢ 0
    → network_owners p (p.heap.network_of c) ≢ 0
owned-network p h c owned =
    let counts = h.containers.counts c in
    let lives =
      live-ne-zero p.heap.inners.strong p.heap.network_of c p.heap.inners.made
        (owned-made p h c owned) (ground (arith, counts, owned)) in
    ground (arith, lives)
