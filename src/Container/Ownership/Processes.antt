-- ===== src/Container/Ownership/Processes.antt =====
-- The child processes of packages/dns-test/src/container.rs: each one that was spawned is running, was
-- waited for or was killed.
use dnssec_tests.Base.{ℕ, ◌+◌, ◌≡◌, arith}
use dnssec_tests.Container.Ownership.Counts.{times}
use dnssec_tests.Container.Ownership.{
  Program, Step, Reachable, new_network, clone_network, drop_network, run_container,
  clone_container, spawn_child, drop_container, drop_child,
}

-- The account of the processes in each container.
abbrev pub AllAccounted : Program → Type 0
AllAccounted p =
    (c : ℕ)
    → times c p.heap.spawns ≡ times c p.heap.waits + times c p.heap.kills + p.held.children c

Step-AllAccounted : (p q : Program) → Step p q → AllAccounted p → AllAccounted q
unfolding new_network clone_network drop_network run_container clone_container spawn_child
    drop_container drop_child
Step-AllAccounted _ _ (Step.network_made h k) i = i
Step-AllAccounted _ _ (Step.network_cloned h k n held) i = i
Step-AllAccounted _ _ (Step.network_of_container h k c held) i = i
Step-AllAccounted _ _ (Step.network_dropped h k n held) i = i
Step-AllAccounted _ _ (Step.container_run h k n held) i = i
Step-AllAccounted _ _ (Step.container_cloned h k c held) i = i
Step-AllAccounted _ _ (Step.container_dropped h k c held) i = i
Step-AllAccounted _ _ (Step.child_spawned h k c held) i = λ a. ground (arith, i a)
Step-AllAccounted _ _ (Step.child_waited h k c held) i = λ a. ground (arith, i a, held)
Step-AllAccounted _ _ (Step.child_dropped h k c held) i = λ a. ground (arith, i a, held)

pub Reachable-AllAccounted : (p : Program) → Reachable p → AllAccounted p
Reachable-AllAccounted _ Reachable.start = λ c. ground arith
Reachable-AllAccounted _ (Reachable.next before step) =
    Step-AllAccounted _ _ step (Reachable-AllAccounted _ before)
