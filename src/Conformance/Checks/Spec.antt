-- ===== src/Conformance/Checks/Spec.antt =====
-- What the captured messages are like if the checks of
-- packages/conformance-tests/src/resolver/dnssec/rfc4035 pass.
use dnssec_tests.Base.{
  ℕ, ◌≤◌, Bool, true, false, some, List, [], ◌∷◌, ◌≡◌, ◌≢◌, ◌↔◌, refl, arith, All, Option-cases,
  inl, inr,
}
use dnssec_tests.Text.{Text}
use dnssec_tests.Error.{Result, ok, err, panic, ◌>>◌}
use dnssec_tests.Ipv4.{Ipv4Addr}
use dnssec_tests.Tshark.{Message, Direction, Capture, is_do_bit_set, udp_payload_size}
use dnssec_tests.Tshark.Captures.{same_addr_iff}
use dnssec_tests.Conformance.Checks.{
  assert, is_some_true, check_do_bit, check_payload_size, check_size, check_edns, check_query,
  check_queries,
}

-- A message that goes to another than the client goes to the server, and satisfies `P`.
abbrev pub IsQueryWith : (Message → Type 0) → Ipv4Addr → Ipv4Addr → Message → Direction → Type 0
IsQueryWith P client_addr ns_addr message (Direction.incoming source) = Unit
IsQueryWith P client_addr ns_addr message (Direction.outgoing destination) =
    destination ≢ client_addr → (destination ≡ ns_addr) × P message

pub assert_iff : (text : Text) (b : Bool) → (assert text b ≡ ok tt) ↔ (b ≡ true)
assert_iff text true = ground arith
assert_iff text false = ground arith

check_query_iff :
    (P : Message → Type 0) (check : Message → Result (Unit {0}))
    → ((m : Message) → (check m ≡ ok tt) ↔ P m)
    → (client_addr ns_addr : Ipv4Addr) (m : Message) (d : Direction)
    → (check_query check client_addr ns_addr m d ≡ ok tt) ↔ IsQueryWith P client_addr ns_addr m d
unfolding check_query
check_query_iff P check check_iff client ns m (Direction.incoming source) = (λ _. tt, λ _. refl)
check_query_iff P check check_iff client ns m (Direction.outgoing destination) = ground (
  arith,
  same_addr_iff destination client,
  same_addr_iff ns destination,
  same_addr_iff destination ns,
  check_iff m,
)

then_iff :
    (first second : Result (Unit {0}))
    → ((first >> second) ≡ ok tt) ↔ ((first ≡ ok tt) × (second ≡ ok tt))
then_iff (ok tt) second = (λ e. (refl, e), λ h. h.1)
then_iff (err e) second = ground arith
then_iff (panic m) second = ground arith

check_queries_iff :
    (P : Message → Type 0) (check : Message → Result (Unit {0}))
    → ((m : Message) → (check m ≡ ok tt) ↔ P m)
    → (client_addr ns_addr : Ipv4Addr) (captures : List Capture)
    → (check_queries check client_addr ns_addr captures ≡ ok tt)
      ↔ All (λ c. IsQueryWith P client_addr ns_addr c.message c.direction) captures
unfolding check_queries
check_queries_iff P check check_iff client ns [] = (λ _. tt, λ _. refl)
check_queries_iff P check check_iff client ns (c ∷ cs) =
    let first = check_query_iff P check check_iff client ns c.message c.direction in
    let rest = check_queries_iff P check check_iff client ns cs in
    let both =
      then_iff (check_query check client ns c.message c.direction)
        (check_queries check client ns cs) in
    (
      (λ e. let (one, others) = both.0 e in (first.0 one, rest.0 others)),
      (λ (one, others). both.1 (first.1 one, rest.1 others)),
    )

check_do_bit_iff : (m : Message) → (check_do_bit m ≡ ok tt) ↔ (is_do_bit_set m ≡ some true)
unfolding check_do_bit
check_do_bit_iff m = elim (Option-cases (is_do_bit_set m)) [
  | inl missing ↦ rw (missing, is_some_true) (ground arith)
  | inr (b, found) ↦ rw (found, is_some_true) (ground arith)
]

-- The payload size is there and at least what RFC 4035 asks for.
abbrev pub IsLarge : Message → Type 0
IsLarge m = (size : ℕ) × (udp_payload_size m ≡ some size) × (1220 ≤ size)

check_payload_size_iff : (m : Message) → (check_payload_size m ≡ ok tt) ↔ IsLarge m
unfolding check_payload_size
check_payload_size_iff m = elim (Option-cases (udp_payload_size m)) [
  | inl missing ↦ rw (missing, check_size) ((λ e. cc), λ h. cc)
  | inr (size, found) ↦
      rw (found, check_size)
        (
          (λ e. (size, refl, ground arith)),
          (λ (other, same, large). let s : size ≡ other = cc in ground arith),
        )
]

check_edns_iff :
    (m : Message) → (check_edns m ≡ ok tt) ↔ ((is_do_bit_set m ≡ some true) × IsLarge m)
unfolding check_edns
check_edns_iff m =
    let both = then_iff (check_do_bit m) (check_payload_size m) in
    (
      (λ e.
          let (one, other) = both.0 e in
          ((check_do_bit_iff m).0 one, (check_payload_size_iff m).0 other)),
      (λ (one, other). both.1 ((check_do_bit_iff m).1 one, (check_payload_size_iff m).1 other)),
    )

-- The checks of section 3.2 pass exactly if every captured message that the resolver sends to another
-- than the client goes to the name server and has the DO bit set; those of section 4.1 exactly if
-- it also tells a UDP payload size of at least 1220 octets.
pub queries_iff :
    (client_addr ns_addr : Ipv4Addr) (captures : List Capture)
    → ((check_queries check_do_bit client_addr ns_addr captures ≡ ok tt)
        ↔ All
            (λ c.
              IsQueryWith
                (λ m. is_do_bit_set m ≡ some true)
                client_addr
                ns_addr
                c.message
                c.direction)
            captures)
      × ((check_queries check_edns client_addr ns_addr captures ≡ ok tt)
          ↔ All
              (λ c.
                IsQueryWith
                  (λ m. (is_do_bit_set m ≡ some true) × IsLarge m)
                  client_addr
                  ns_addr
                  c.message
                  c.direction)
              captures)
queries_iff client ns captures = (
  check_queries_iff _ check_do_bit check_do_bit_iff client ns captures,
  check_queries_iff _ check_edns check_edns_iff client ns captures,
)
