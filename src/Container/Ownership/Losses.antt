-- ===== src/Container/Ownership/Losses.antt =====
-- A container or a network of packages/dns-test/src/container.rs that loses an owner.
use dnssec_tests.Base.{
  ℕ, ◌-◌, ◌==◌, Bool, ◌≡◌, ◌≢◌, refl, arith, if◌then◌else◌, Bool-cases, inl, inr, ==_iff,
}
use dnssec_tests.Container.Ownership.Counts.{set, release, is_last, IsOwned-eq, release-IsOwned}
use dnssec_tests.Container.Ownership.Live.{live-same, live-last}
use dnssec_tests.Container.Ownership.{Heap, Held, lose, drop_network, drop_container, drop_child}
use dnssec_tests.Container.Ownership.Owners.{container_owners, IsCounted, owned-made, owned-network}

pub network_dropped-IsCounted :
    (h : Heap) (k : Held) (n : ℕ)
    → k.networks n ≢ 0
    → IsCounted (record { heap = h; held = k })
    → IsCounted
        (record { heap = drop_network n h; held = record k { networks = lose k.networks n } })
unfolding drop_network
network_dropped-IsCounted h k n owned i = record {
  containers = i.containers;
  networks =
      IsOwned-eq _ _ _ (λ a. ground (arith, owned))
        (release-IsOwned _ h.networks n (ground (arith, owned)) i.networks);
}

-- One owner of a container less.
pub container_lost-IsCounted :
    (h : Heap) (k k' : Held) (c : ℕ)
    → container_owners (record { heap = h; held = k }) c ≢ 0
    → ((a : ℕ) → k'.networks a ≡ k.networks a)
    → ((a : ℕ)
        → set
            (container_owners (record { heap = h; held = k }))
            c
            (container_owners (record { heap = h; held = k }) c - 1)
            a
          ≡ container_owners (record { heap = h; held = k' }) a)
    → IsCounted (record { heap = h; held = k })
    → IsCounted (record { heap = drop_container c h; held = k' })
unfolding drop_container release is_last
container_lost-IsCounted h k k' c owned same less i = record {
  containers = IsOwned-eq _ _ _ less (release-IsOwned _ h.inners c owned i.containers);
  networks = elim (Bool-cases (h.inners.strong c == 1)) [
    | inl last ↦
        let one : h.inners.strong c ≡ 1 = (==_iff (h.inners.strong c) 1).0 last in
        let made = owned-made _ i c owned in
        rw (last, if◌then◌else◌)
          (IsOwned-eq _ _ _
            (λ a.
              let before = live-last h.inners.strong h.network_of a c h.inners.made made one in
              let after =
                live-same (set h.inners.strong c (h.inners.strong c - 1)) (set h.inners.strong c 0)
                  h.network_of h.network_of a h.inners.made (λ b below. ground (arith, one)) in
              ground (arith, same a, before, after))
            (release-IsOwned _ h.networks (h.network_of c) (owned-network _ i c owned) i.networks))
    | inr others ↦
        rw (others, if◌then◌else◌)
          (IsOwned-eq _ _ _
            (λ a.
              let rest =
                live-same h.inners.strong (set h.inners.strong c (h.inners.strong c - 1))
                  h.network_of h.network_of a h.inners.made
                  (λ b below. ground (arith, i.containers.counts c, owned, others)) in
              ground (arith, same a, rest))
            i.networks)
  ];
}

pub child_lost-IsCounted :
    (is_running : Bool) (h : Heap) (k : Held) (c : ℕ)
    → k.children c ≢ 0
    → IsCounted (record { heap = h; held = k })
    → IsCounted (record {
      heap = drop_child is_running c h;
      held = record k { children = lose k.children c };
    })
unfolding drop_child
child_lost-IsCounted is_running h k c held i =
    let less =
      container_lost-IsCounted h k (record k { children = lose k.children c }) c
        (ground (arith, held)) (λ a. refl) (λ a. ground (arith, held)) i in
    record { containers = less.containers; networks = less.networks }
