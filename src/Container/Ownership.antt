-- ===== src/Container/Ownership.antt =====
-- The handles of packages/dns-test/src/container.rs and container/network.rs as a state machine: who
-- owns networks and containers, and what is killed and removed when the owners are dropped.
pub mod Counts
pub mod Live
pub mod Owners
pub mod Processes
pub mod Gains
pub mod Losses
pub mod Invariant
pub mod Removal
use dnssec_tests.Base.{ℕ, suc, ◌-◌, Bool, true, false, List, [], ◌∷◌, ◌≢◌, if◌then◌else◌}
use dnssec_tests.Text.{Text, codes}
use dnssec_tests.Container.Networks.{Network}
use dnssec_tests.Container.Ownership.Counts.{Arcs, set, make, clone, release, is_last}

-- The values that are shared: `NetworkInner` and `Inner`, with the field `network` of each `Inner` as
-- an address, and the containers in which child processes were spawned,
-- waited for and killed, the last one first.
pub record Heap : Type 0 where
  pub networks : Arcs
  pub inners : Arcs
  pub network_of : ℕ → ℕ
  pub spawns : List ℕ
  pub waits : List ℕ
  pub kills : List ℕ

unfoldable pub new_network : Heap → Heap
unfolding make
new_network heap = record heap { networks = make heap.networks }

unfoldable pub clone_network : ℕ → Heap → Heap
unfolding clone
clone_network n heap = record heap { networks = clone n heap.networks }

-- The last owner runs `docker network rm`.
unfoldable pub drop_network : ℕ → Heap → Heap
unfolding release
drop_network n heap = record heap { networks = release n heap.networks }

-- The end of `Container::run`: the new `Inner` owns its network, too.
unfoldable pub run_container : ℕ → Heap → Heap
unfolding make clone
run_container n heap = record heap {
  networks = clone n heap.networks;
  inners = make heap.inners;
  network_of = set heap.network_of heap.inners.made n;
}

unfoldable pub clone_container : ℕ → Heap → Heap
unfolding clone
clone_container c heap = record heap { inners = clone c heap.inners }

-- The last owner runs `docker rm`, and then the field `network` is dropped.
unfoldable pub drop_container : ℕ → Heap → Heap
unfolding release is_last
drop_container c heap = record heap {
  inners = release c heap.inners;
  networks =
      if is_last c heap.inners then release (heap.network_of c) heap.networks else heap.networks;
}

-- The end of `Container::spawn`: the child owns the container, too.
unfoldable pub spawn_child : ℕ → Heap → Heap
unfolding clone_container
spawn_child c heap = let heap' = clone_container c heap in record heap' { spawns = c ∷ heap.spawns }

-- `Child::drop`: a process that was not waited for is killed, and then the container is dropped. `wait`
-- takes the process out of the child.
unfoldable pub drop_child : Bool → ℕ → Heap → Heap
unfolding drop_container
drop_child is_running c heap =
    let heap' = drop_container c heap in
    record heap' {
      waits = if is_running then heap.waits else c ∷ heap.waits;
      kills = if is_running then c ∷ heap.kills else heap.kills;
    }

-- The commands of `Inner::drop` and `NetworkInner::drop`.
abbrev pub remove_container : Text → List Text
remove_container id = codes "docker" ∷ codes "rm" ∷ codes "-f" ∷ id ∷ []

abbrev pub remove_network : Network → List Text
remove_network network =
    codes "docker" ∷ codes "network" ∷ codes "rm" ∷ codes "--force" ∷ network.name ∷ []

-- How many handles a program holds: `Network` by network, `Container` and `Child` by container.
pub record Held : Type 0 where
  pub networks : ℕ → ℕ
  pub containers : ℕ → ℕ
  pub children : ℕ → ℕ

pub record Program : Type 0 where
  pub heap : Heap
  pub held : Held

abbrev pub gain : (ℕ → ℕ) → ℕ → ℕ → ℕ
gain f a = set f a (suc (f a))

abbrev pub lose : (ℕ → ℕ) → ℕ → ℕ → ℕ
lose f a = set f a (f a - 1)

-- What a program can do with the handles that it holds.
pub data Step : Program → Program → Type 0 where
  network_made :
      (h : Heap) (k : Held)
      → Step
          (record { heap = h; held = k })
          (record {
            heap = new_network h;
            held = record k { networks = gain k.networks h.networks.made };
          })
  network_cloned :
      (h : Heap) (k : Held) (n : ℕ)
      → k.networks n ≢ 0
      → Step
          (record { heap = h; held = k })
          (record { heap = clone_network n h; held = record k { networks = gain k.networks n } })
  -- `container.network().clone()`.
  network_of_container :
      (h : Heap) (k : Held) (c : ℕ)
      → k.containers c ≢ 0
      → Step
          (record { heap = h; held = k })
          (record {
            heap = clone_network (h.network_of c) h;
            held = record k { networks = gain k.networks (h.network_of c) };
          })
  network_dropped :
      (h : Heap) (k : Held) (n : ℕ)
      → k.networks n ≢ 0
      → Step
          (record { heap = h; held = k })
          (record { heap = drop_network n h; held = record k { networks = lose k.networks n } })
  container_run :
      (h : Heap) (k : Held) (n : ℕ)
      → k.networks n ≢ 0
      → Step
          (record { heap = h; held = k })
          (record {
            heap = run_container n h;
            held = record k { containers = gain k.containers h.inners.made };
          })
  container_cloned :
      (h : Heap) (k : Held) (c : ℕ)
      → k.containers c ≢ 0
      → Step
          (record { heap = h; held = k })
          (record {
            heap = clone_container c h;
            held = record k { containers = gain k.containers c };
          })
  container_dropped :
      (h : Heap) (k : Held) (c : ℕ)
      → k.containers c ≢ 0
      → Step
          (record { heap = h; held = k })
          (record {
            heap = drop_container c h;
            held = record k { containers = lose k.containers c };
          })
  child_spawned :
      (h : Heap) (k : Held) (c : ℕ)
      → k.containers c ≢ 0
      → Step
          (record { heap = h; held = k })
          (record { heap = spawn_child c h; held = record k { children = gain k.children c } })
  -- `wait` takes the process out of the child, so that its drop kills nothing.
  child_waited :
      (h : Heap) (k : Held) (c : ℕ)
      → k.children c ≢ 0
      → Step
          (record { heap = h; held = k })
          (record { heap = drop_child false c h; held = record k { children = lose k.children c } })
  child_dropped :
      (h : Heap) (k : Held) (c : ℕ)
      → k.children c ≢ 0
      → Step
          (record { heap = h; held = k })
          (record { heap = drop_child true c h; held = record k { children = lose k.children c } })

abbrev pub none_made : Arcs
none_made = record { made = 0; strong = λ _. 0; drops = [] }

abbrev pub initial : Program
initial = record {
  heap = record {
    networks = none_made;
    inners = none_made;
    network_of = λ _. 0;
    spawns = [];
    waits = [];
    kills = [];
  };
  held = record { networks = λ _. 0; containers = λ _. 0; children = λ _. 0 };
}

-- What a program can reach, one step after another.
pub data Reachable : Program → Type 0 where
  start : Reachable initial
  next : {p q : Program} → Reachable p → Step p q → Reachable q
