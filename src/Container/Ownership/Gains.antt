-- ===== src/Container/Ownership/Gains.antt =====
-- A container or a network of packages/dns-test/src/container.rs that is made, or gets one more owner.
use dnssec_tests.Base.{refl, ℕ, suc, ◌≡◌, ◌≢◌, arith}
use dnssec_tests.Container.Ownership.Counts.{
  set, make, clone, IsOwned-eq, make-IsOwned, clone-IsOwned,
}
use dnssec_tests.Container.Ownership.Live.{live-same}
use dnssec_tests.Container.Ownership.{
  Heap, Held, gain, new_network, clone_network, run_container, clone_container, spawn_child,
}
use dnssec_tests.Container.Ownership.Owners.{container_owners, network_owners, IsCounted}

pub network_made-IsCounted :
    (h : Heap) (k : Held)
    → IsCounted (record { heap = h; held = k })
    → IsCounted (record {
      heap = new_network h;
      held = record k { networks = gain k.networks h.networks.made };
    })
unfolding new_network
network_made-IsCounted h k i = record {
  containers = i.containers;
  networks =
      IsOwned-eq _ _ _ (λ a. ground (arith, i.networks.fresh h.networks.made))
        (make-IsOwned _ h.networks i.networks);
}

pub network_gained-IsCounted :
    (h : Heap) (k : Held) (n : ℕ)
    → network_owners (record { heap = h; held = k }) n ≢ 0
    → IsCounted (record { heap = h; held = k })
    → IsCounted
        (record { heap = clone_network n h; held = record k { networks = gain k.networks n } })
unfolding clone_network
network_gained-IsCounted h k n owned i = record {
  containers = i.containers;
  networks = IsOwned-eq _ _ _ (λ a. ground arith) (clone-IsOwned _ h.networks n owned i.networks);
}

pub container_run-IsCounted :
    (h : Heap) (k : Held) (n : ℕ)
    → k.networks n ≢ 0
    → IsCounted (record { heap = h; held = k })
    → IsCounted (record {
      heap = run_container n h;
      held = record k { containers = gain k.containers h.inners.made };
    })
unfolding run_container make
container_run-IsCounted h k n owned i = record {
  containers =
      IsOwned-eq _ _ _ (λ a. ground (arith, i.containers.fresh h.inners.made))
        (make-IsOwned _ h.inners i.containers);
  networks =
      IsOwned-eq _ _ _
        (λ a.
          let rest =
            live-same h.inners.strong (set h.inners.strong h.inners.made 1) h.network_of
              (set h.network_of h.inners.made n) a h.inners.made
              (λ c below. ground (arith, below)) in
          ground (arith, rest))
        (clone-IsOwned _ h.networks n (ground (arith, owned)) i.networks);
}

-- One more owner of a container that has one.
pub container_gained-IsCounted :
    (h : Heap) (k k' : Held) (c : ℕ)
    → container_owners (record { heap = h; held = k }) c ≢ 0
    → ((a : ℕ) → k'.networks a ≡ k.networks a)
    → ((a : ℕ)
        → set
            (container_owners (record { heap = h; held = k }))
            c
            (suc (container_owners (record { heap = h; held = k }) c))
            a
          ≡ container_owners (record { heap = h; held = k' }) a)
    → IsCounted (record { heap = h; held = k })
    → IsCounted (record { heap = clone_container c h; held = k' })
unfolding clone_container clone
container_gained-IsCounted h k k' c owned same more i = record {
  containers = IsOwned-eq _ _ _ more (clone-IsOwned _ h.inners c owned i.containers);
  networks =
      IsOwned-eq _ _ _
        (λ a.
          let rest =
            live-same h.inners.strong (set h.inners.strong c (suc (h.inners.strong c))) h.network_of
              h.network_of a h.inners.made
              (λ b below. ground (arith, i.containers.counts c, owned)) in
          ground (arith, same a, rest))
        i.networks;
}

pub child_gained-IsCounted :
    (h : Heap) (k : Held) (c : ℕ)
    → k.containers c ≢ 0
    → IsCounted (record { heap = h; held = k })
    → IsCounted
        (record { heap = spawn_child c h; held = record k { children = gain k.children c } })
unfolding spawn_child
child_gained-IsCounted h k c held i =
    let more =
      container_gained-IsCounted h k (record k { children = gain k.children c }) c
        (ground (arith, held)) (λ a. refl) (λ a. ground arith) i in
    record { containers = more.containers; networks = more.networks }
