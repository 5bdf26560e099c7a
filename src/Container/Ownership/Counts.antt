-- ===== src/Container/Ownership/Counts.antt =====
-- `std::sync::Arc`, as the handles of packages/dns-test/src/container.rs and container/network.rs use
-- it: values at addresses, with the number of their owners, and the runs of their `Drop::drop`.
use dnssec_tests.Base.{
  ℕ, suc, ◌-◌, ◌<◌, ◌≤◌, ◌==◌, Bool, List, [], ◌∷◌, ◌≡◌, ◌≢◌, arith, if◌then◌else◌,
}

-- A map with one value changed.
abbrev pub set : (ℕ → ℕ) → ℕ → ℕ → ℕ → ℕ
set f a v b = if b == a then v else f b

-- `made` addresses are in use, from zero on; `drops` lists the addresses whose values were dropped, the
-- last one first.
pub record Arcs : Type 0 where
  pub made : ℕ
  pub strong : ℕ → ℕ
  pub drops : List ℕ

-- `Arc::new`.
unfoldable pub make : Arcs → Arcs
make arcs = record {
  made = suc arcs.made;
  strong = set arcs.strong arcs.made 1;
  drops = arcs.drops;
}

-- `Arc::clone`.
unfoldable pub clone : ℕ → Arcs → Arcs
clone a arcs = record arcs { strong = set arcs.strong a (suc (arcs.strong a)) }

-- Whether an owner is the last one.
unfoldable pub is_last : ℕ → Arcs → Bool
is_last a arcs = arcs.strong a == 1

-- The drop of an owner; the last one drops the value.
unfoldable pub release : ℕ → Arcs → Arcs
unfolding is_last
release a arcs = record {
  made = arcs.made;
  strong = set arcs.strong a (arcs.strong a - 1);
  drops = if is_last a arcs then a ∷ arcs.drops else arcs.drops;
}

abbrev pub times : ℕ → List ℕ → ℕ
times a [] = 0
times a (b ∷ bs) = if b == a then suc (times a bs) else times a bs

-- The counts are those of the owners, and every value that was made was dropped once if it has no owner
-- left, and never otherwise.
pub record IsOwned (owners : ℕ → ℕ) (arcs : Arcs) : Type 0 where
  pub counts : (a : ℕ) → arcs.strong a ≡ owners a
  pub dropped : (a : ℕ) → a < arcs.made → owners a ≡ 0 → times a arcs.drops ≡ 1
  pub kept : (a : ℕ) → owners a ≢ 0 → times a arcs.drops ≡ 0
  pub fresh : (a : ℕ) → arcs.made ≤ a → (owners a ≡ 0) × (times a arcs.drops ≡ 0)

pub IsOwned-eq :
    (owners others : ℕ → ℕ) (arcs : Arcs)
    → ((a : ℕ) → owners a ≡ others a)
    → IsOwned owners arcs
    → IsOwned others arcs
IsOwned-eq owners others arcs e h = record {
  counts = λ a. omega (arith, e a, h.counts a);
  dropped = λ a made none. h.dropped a made (omega (arith, e a));
  kept = λ a some_owner. h.kept a λ none. some_owner (omega (arith, e a));
  fresh = λ a new. let (none, never) = h.fresh a new in (omega (arith, e a), never);
}

pub make-IsOwned :
    (owners : ℕ → ℕ) (arcs : Arcs)
    → IsOwned owners arcs
    → IsOwned (set owners arcs.made 1) (make arcs)
unfolding make
make-IsOwned owners arcs h = record {
  counts = λ a. ground (arith, h.counts a);
  dropped = λ a made none. ground (arith, h.dropped a, h.fresh a);
  kept = λ a some_owner. ground (arith, h.kept a, h.fresh a);
  fresh = λ a new. ground (arith, h.fresh a);
}

pub clone-IsOwned :
    (owners : ℕ → ℕ) (arcs : Arcs) (a : ℕ)
    → owners a ≢ 0
    → IsOwned owners arcs
    → IsOwned (set owners a (suc (owners a))) (clone a arcs)
unfolding clone
clone-IsOwned owners arcs a owned h = record {
  counts = λ b. ground (arith, h.counts b, h.counts a);
  dropped = λ b made none. ground (arith, h.dropped b);
  kept = λ b some_owner. ground (arith, h.kept b, h.kept a);
  fresh = λ b new. ground (arith, h.fresh b, h.fresh a);
}

pub release-IsOwned :
    (owners : ℕ → ℕ) (arcs : Arcs) (a : ℕ)
    → owners a ≢ 0
    → IsOwned owners arcs
    → IsOwned (set owners a (owners a - 1)) (release a arcs)
unfolding release is_last
release-IsOwned owners arcs a owned h = record {
  counts = λ b. ground (arith, h.counts b, h.counts a);
  dropped = λ b made none. ground (arith, h.dropped b, h.kept b, h.counts a, h.counts b);
  kept = λ b some_owner. ground (arith, h.kept b, h.counts a, h.counts b);
  fresh = λ b new. ground (arith, h.fresh b, h.fresh a, h.counts a);
}
