-- ===== src/Tests/Ownership.antt =====
-- A network with a container and a child process, from its creation to its removal:
-- packages/dns-test/src/container.rs and container/network.rs; the names of containers.
use dnssec_tests.Base.{true, ℕ, [], ◌∷◌, ◌≡◌, ◌+◌, ◌≢◌, ◌<◌, refl, arith}
use dnssec_tests.Container
use dnssec_tests.Container.Networks.{network_name}
use dnssec_tests.Container.Names.{names-eq}
use dnssec_tests.Container.Ownership.{
  Program, Step, Reachable, initial, gain, lose, new_network, run_container, spawn_child,
  drop_container, drop_network, drop_child,
}
use dnssec_tests.Container.Ownership.Counts.{times}
use dnssec_tests.Container.Ownership.Removal.{AllRemoved, removed-unused, released-removed}
use dnssec_tests.Tests.Servers.{machine}

abbrev made : Program
made = record {
  heap = new_network initial.heap;
  held = record initial.held { networks = gain initial.held.networks 0 };
}

abbrev parked : Program
parked = record {
  heap = run_container 0 made.heap;
  held = record made.held { containers = gain made.held.containers 0 };
}

-- The handle to the network is dropped first, which removes nothing.
abbrev alone : Program
alone = record {
  heap = drop_network 0 parked.heap;
  held = record parked.held { networks = lose parked.held.networks 0 };
}

abbrev busy : Program
busy = record {
  heap = spawn_child 0 alone.heap;
  held = record alone.held { children = gain alone.held.children 0 };
}

abbrev orphan : Program
orphan = record {
  heap = drop_container 0 busy.heap;
  held = record busy.held { containers = lose busy.held.containers 0 };
}

abbrev gone : Program
gone = record {
  heap = drop_child true 0 orphan.heap;
  held = record orphan.held { children = lose orphan.held.children 0 };
}

gone-Reachable : Reachable gone
unfolding new_network
gone-Reachable =
    Reachable.next
      (Reachable.next
        (Reachable.next
          (Reachable.next
            (Reachable.next
              (Reachable.next Reachable.start (Step.network_made initial.heap initial.held))
              (Step.container_run made.heap made.held 0 (omega arith)))
            (Step.network_dropped parked.heap parked.held 0 (omega arith)))
          (Step.child_spawned alone.heap alone.held 0 (omega arith)))
        (Step.container_dropped busy.heap busy.held 0 (omega arith)))
      (Step.child_dropped orphan.heap orphan.held 0 (omega arith))

-- Only the last drop removes the container, and then the network.
orphan-kept : (orphan.heap.inners.drops ≡ []) × (orphan.heap.networks.drops ≡ [])
unfolding drop_container drop_network spawn_child run_container new_network
orphan-kept = (refl, refl)

gone-removed : (gone.heap.inners.drops ≡ 0 ∷ []) × (gone.heap.networks.drops ≡ 0 ∷ [])
unfolding drop_child drop_container drop_network spawn_child run_container new_network
gone-removed = (refl, refl)

none-held :
    (a : ℕ) → (gone.held.networks a ≡ 0) × (gone.held.containers a ≡ 0) × (gone.held.children a ≡ 0)
none-held a = ground arith

removed-unused_example :
    ((c : ℕ)
      → times c gone.heap.inners.drops ≢ 0
      → (gone.held.containers c ≡ 0)
        × (times c gone.heap.spawns ≡ times c gone.heap.waits + times c gone.heap.kills))
    × ((n : ℕ)
        → times n gone.heap.networks.drops ≢ 0
        → (gone.held.networks n ≡ 0) × AllRemoved gone n)
removed-unused_example = removed-unused gone gone-Reachable

released-removed_example :
    ((c : ℕ) → c < gone.heap.inners.made → times c gone.heap.inners.drops ≡ 1)
    × ((n : ℕ) → n < gone.heap.networks.made → times n gone.heap.networks.drops ≡ 1)
released-removed_example = released-removed gone gone-Reachable none-held

names-eq_example :
    (Container.container_name machine Container.Image.Image.client 3
        ≡ Container.container_name machine Container.Image.Image.bind 4
      → ◌≡◌ {A = ℕ} 3 4)
    × (network_name machine.id 3 ≡ network_name machine.id 4 → ◌≡◌ {A = ℕ} 3 4)
names-eq_example =
    names-eq machine Container.Image.Image.client Container.Image.Image.bind 3 4 (omega arith)
      (omega arith)
