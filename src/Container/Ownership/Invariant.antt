-- ===== src/Container/Ownership/Invariant.antt =====
-- What every program keeps: the counts of owners in packages/dns-test/src/container.rs and
-- container/network.rs are those of the handles, so that nothing is removed while it is in use, and all
-- of it in the end.
use dnssec_tests.Base.{true, false, refl, arith}
use dnssec_tests.Container.Ownership.{Program, gain, lose, Step, Reachable}
use dnssec_tests.Container.Ownership.Owners.{IsCounted, initial-IsCounted, owned-network}
use dnssec_tests.Container.Ownership.Gains.{
  network_made-IsCounted, network_gained-IsCounted, container_run-IsCounted,
  container_gained-IsCounted, child_gained-IsCounted,
}
use dnssec_tests.Container.Ownership.Losses.{
  network_dropped-IsCounted, container_lost-IsCounted, child_lost-IsCounted,
}

Step-IsCounted : (p q : Program) → Step p q → IsCounted p → IsCounted q
Step-IsCounted _ _ (Step.network_made h k) i = network_made-IsCounted h k i
Step-IsCounted _ _ (Step.network_cloned h k n held) i =
    network_gained-IsCounted h k n (ground (arith, held)) i
Step-IsCounted _ _ (Step.network_of_container h k c held) i =
    network_gained-IsCounted h k (h.network_of c) (owned-network _ i c (ground (arith, held))) i
Step-IsCounted _ _ (Step.network_dropped h k n held) i = network_dropped-IsCounted h k n held i
Step-IsCounted _ _ (Step.container_run h k n held) i = container_run-IsCounted h k n held i
Step-IsCounted _ _ (Step.container_cloned h k c held) i =
    container_gained-IsCounted h k (record k { containers = gain k.containers c }) c
      (ground (arith, held)) (λ a. refl) (λ a. ground arith) i
Step-IsCounted _ _ (Step.container_dropped h k c held) i =
    container_lost-IsCounted h k (record k { containers = lose k.containers c }) c
      (ground (arith, held)) (λ a. refl) (λ a. ground (arith, held)) i
Step-IsCounted _ _ (Step.child_spawned h k c held) i = child_gained-IsCounted h k c held i
Step-IsCounted _ _ (Step.child_waited h k c held) i = child_lost-IsCounted false h k c held i
Step-IsCounted _ _ (Step.child_dropped h k c held) i = child_lost-IsCounted true h k c held i

-- In every state that a program reaches, each Arc counts its owners: the handles that the program
-- holds, for a container also its child processes, and for a network also the containers in it.
pub Reachable-IsCounted : (p : Program) → Reachable p → IsCounted p
Reachable-IsCounted _ Reachable.start = initial-IsCounted
Reachable-IsCounted _ (Reachable.next before step) =
    Step-IsCounted _ _ step (Reachable-IsCounted _ before)
