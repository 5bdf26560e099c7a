-- ===== src/Conformance/Checks/AdFlag.antt =====
-- What the captured messages are like if the check of section 4.6 in
-- packages/conformance-tests/src/resolver/dnssec/rfc4035 passes.
use dnssec_tests.Base.{
  ℕ, suc, ◌+◌, not, Bool, true, false, List, [], ◌∷◌, ◌≡◌, ◌≢◌, ◌↔◌, refl, sym, ◌∙◌, ap, arith, All,
  ==_iff, if◌then◌else◌,
}
use dnssec_tests.Error.{ok, ◌>>=◌, bind-eq-ok, ok-eq}
use dnssec_tests.Ipv4.{Ipv4Addr}
use dnssec_tests.Tshark.{Message, Direction, Capture, is_ad_flag_set, same_addr}
use dnssec_tests.Tshark.Captures.{same_addr_iff}
use dnssec_tests.Conformance.Checks.{
  contains_addr, Counts, check_ad_flag, check_ad_flags, check_ad_counts, clears_ad_flag,
}

-- Whether a message is from the client, and whether it goes to another than the client.
abbrev pub from_client : Ipv4Addr → Direction → Bool
from_client client_addr (Direction.incoming source) = same_addr source client_addr
from_client client_addr (Direction.outgoing destination) = false

abbrev pub to_server : Ipv4Addr → Direction → Bool
to_server client_addr (Direction.incoming source) = false
to_server client_addr (Direction.outgoing destination) = not (same_addr destination client_addr)

abbrev pub count : (Direction → Bool) → List Capture → ℕ
count test [] = 0
count test (c ∷ cs) = if test c.direction then suc (count test cs) else count test cs

-- The client asks with the flag, and the resolver asks a known server without it.
abbrev pub IsClear : Ipv4Addr → List Ipv4Addr → Message → Direction → Type 0
IsClear client_addr ns_addrs message (Direction.incoming source) =
    source ≡ client_addr → is_ad_flag_set message ≡ ok true
IsClear client_addr ns_addrs message (Direction.outgoing destination) =
    destination ≢ client_addr
    → (contains_addr destination ns_addrs ≡ true) × (is_ad_flag_set message ≡ ok false)

abbrev tick : Bool → ℕ → ℕ
tick b n = if b then suc n else n

abbrev step : Ipv4Addr → Direction → Counts → Counts
step client_addr d counts = record {
  client = tick (from_client client_addr d) counts.client;
  ns = tick (to_server client_addr d) counts.ns;
}

check_ad_flag_iff :
    (client_addr : Ipv4Addr) (ns_addrs : List Ipv4Addr) (m : Message) (d : Direction)
    (counts counts' : Counts)
    → (check_ad_flag client_addr ns_addrs m d counts ≡ ok counts')
      ↔ (IsClear client_addr ns_addrs m d × (counts' ≡ step client_addr d counts))
unfolding check_ad_flag
check_ad_flag_iff client ns m (Direction.incoming source) counts counts' =
    ground (arith, same_addr_iff source client)
check_ad_flag_iff client ns m (Direction.outgoing destination) counts counts' =
    ground (arith, same_addr_iff destination client)

abbrev AllClear : Ipv4Addr → List Ipv4Addr → List Capture → Type 0
AllClear client_addr ns_addrs = All (λ c. IsClear client_addr ns_addrs c.message c.direction)

abbrev total : Ipv4Addr → List Capture → Counts → Counts
total client_addr captures counts = record {
  client = counts.client + count (from_client client_addr) captures;
  ns = counts.ns + count (to_server client_addr) captures;
}

total-cons :
    (client_addr : Ipv4Addr) (c : Capture) (cs : List Capture) (counts : Counts)
    → total client_addr cs (step client_addr c.direction counts) ≡ total client_addr (c ∷ cs) counts
total-cons client_addr c cs counts = ground arith

check_ad_flags_iff :
    (client_addr : Ipv4Addr) (ns_addrs : List Ipv4Addr) (captures : List Capture)
    (counts counts' : Counts)
    → (check_ad_flags client_addr ns_addrs captures counts ≡ ok counts')
      ↔ (AllClear client_addr ns_addrs captures × (counts' ≡ total client_addr captures counts))
unfolding check_ad_flags
check_ad_flags_iff client ns [] counts counts' =
    ((λ e. (tt, sym (ok-eq e) ∙ ground arith)), (λ (_, e). ap ok (ground arith)))
check_ad_flags_iff client ns (c ∷ cs) counts counts' = (
  (λ e.
      let (middle, one, rest) =
        bind-eq-ok (check_ad_flag client ns c.message c.direction counts) _ e in
      let (clear, stepped) =
        (check_ad_flag_iff client ns c.message c.direction counts middle).0 one in
      let (others, same) = (check_ad_flags_iff client ns cs middle counts').0 rest in
      ((clear, others), same ∙ ap (total client cs) stepped ∙ total-cons client c cs counts)),
  (λ ((clear, others), same).
      let middle = step client c.direction counts in
      let one = (check_ad_flag_iff client ns c.message c.direction counts middle).1 (clear, refl) in
      let rest =
        (check_ad_flags_iff client ns cs middle counts').1
          (others, same ∙ sym (total-cons client c cs counts)) in
      ap (λ r. r >>= check_ad_flags client ns cs) one ∙ rest),
)

abbrev counted : Ipv4Addr → List Capture → Counts
counted client_addr captures = record {
  client = count (from_client client_addr) captures;
  ns = count (to_server client_addr) captures;
}

total-none :
    (client_addr : Ipv4Addr) (captures : List Capture)
    → total client_addr captures (record { client = 0; ns = 0 }) ≡ counted client_addr captures
total-none client_addr captures = ground arith

check_ad_counts_iff :
    (counts : Counts) → (check_ad_counts counts ≡ ok tt) ↔ ((counts.client ≡ 1) × (counts.ns ≢ 0))
unfolding check_ad_counts
check_ad_counts_iff counts = ground (arith, ==_iff counts.client 1, ==_iff counts.ns 0)

-- The check of section 4.6 passes exactly if every captured message of the client to the resolver has
-- the AD flag set, every message that the resolver sends to another than the client goes to one of
-- the name servers and has it clear, the client sent one message, and the resolver at least one.
pub clears_ad_flag_iff :
    (client_addr : Ipv4Addr) (ns_addrs : List Ipv4Addr) (captures : List Capture)
    → (clears_ad_flag client_addr ns_addrs captures ≡ ok tt) ↔ (
        All (λ c. IsClear client_addr ns_addrs c.message c.direction) captures
        × (count (from_client client_addr) captures ≡ 1)
        × (count (to_server client_addr) captures ≢ 0))
unfolding clears_ad_flag
clears_ad_flag_iff client ns captures =
    let none : Counts = record { client = 0; ns = 0 } in
    let counts = counted client captures in
    let loop = check_ad_flags_iff client ns captures none in
    let from_none = total-none client captures in
    (
      (λ e.
          let (counts', flags, passed) = bind-eq-ok (check_ad_flags client ns captures none) _ e in
          let (clear, same) = (loop counts').0 flags in
          let (one, some_ns) =
            (check_ad_counts_iff counts).0 (ap check_ad_counts (sym (same ∙ from_none)) ∙ passed) in
          (clear, one, some_ns)),
      (λ (clear, one, some_ns).
          ap (λ r. r >>= check_ad_counts) ((loop counts).1 (clear, sym from_none))
          ∙ (check_ad_counts_iff counts).1 (one, some_ns)),
    )
