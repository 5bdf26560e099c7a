-- ===== src/Container/Ownership/Live.antt =====
-- The containers that own a network: packages/dns-test/src/container.rs.
use dnssec_tests.Base.{
  ℕ, zero, suc, ◌<◌, ◌==◌, ◌&&◌, not, Bool, ◌≡◌, ◌≢◌, refl, arith, if◌then◌else◌, Bool-cases, inl,
  inr, ap, ◌∙◌, ==_iff,
}
use dnssec_tests.Container.Ownership.Counts.{set}

-- Whether the container at an address is in the network and not dropped.
abbrev pub is_live : (ℕ → ℕ) → (ℕ → ℕ) → ℕ → ℕ → Bool
is_live strong network_of n c = not (strong c == 0) && (network_of c == n)

-- How many of the first containers are.
abbrev pub live : (ℕ → ℕ) → (ℕ → ℕ) → ℕ → ℕ → ℕ
live strong network_of n zero = 0
live strong network_of n (suc c) =
    if is_live strong network_of n c
    then suc (live strong network_of n c)
    else live strong network_of n c

pub live-same :
    (s t f g : ℕ → ℕ) (n bound : ℕ)
    → ((c : ℕ) → c < bound → is_live s f n c ≡ is_live t g n c)
    → live s f n bound ≡ live t g n bound
live-same s t f g n zero h = refl
live-same s t f g n (suc bound) h =
    let rest = live-same s t f g n bound λ c below. h c (omega arith) in
    ground (arith, h bound (omega arith), rest)

-- The last owner of a container was one of the owners of its network.
pub live-last :
    (s f : ℕ → ℕ) (n c bound : ℕ)
    → c < bound
    → s c ≡ 1
    → live s f n bound
      ≡ (if f c == n then suc (live (set s c 0) f n bound) else live (set s c 0) f n bound)
live-last s f n c zero below one = absurd (omega arith)
live-last s f n c (suc bound) below one = elim (Bool-cases (bound == c)) [
  | inl same ↦
      let at : bound ≡ c = (==_iff bound c).0 same in
      let last : s bound ≡ 1 = ap s at ∙ one in
      let network : f bound ≡ f c = ap f at in
      let rest = live-same s (set s c 0) f f n bound λ b b_below. ground (arith, b_below, at) in
      ground (arith, same, last, network, rest)
  | inr other ↦ ground (arith, other, live-last s f n c bound)
]

pub live-ne-zero : (s f : ℕ → ℕ) (c bound : ℕ) → c < bound → s c ≢ 0 → live s f (f c) bound ≢ 0
live-ne-zero s f c zero below some_owner = absurd (omega arith)
live-ne-zero s f c (suc bound) below some_owner = ground (arith, live-ne-zero s f c bound)

pub live-zero : (s f : ℕ → ℕ) (n bound : ℕ) → ((c : ℕ) → s c ≡ 0) → live s f n bound ≡ 0
live-zero s f n zero h = refl
live-zero s f n (suc bound) h = ground (arith, h bound, live-zero s f n bound h)
