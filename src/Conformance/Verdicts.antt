-- ===== src/Conformance/Verdicts.antt =====
-- Which answers the tests of packages/conformance-tests/src accept.
use dnssec_tests.Base.{
  Bool, true, false, ◌∷◌, [], List, Option, none, some, ◌≡◌, ◌↔◌, refl, ◌∙◌, ap, arith,
}
use dnssec_tests.Text.Equality.{equal_iff}
use dnssec_tests.Error.{ok}
use dnssec_tests.Ipv4.{Ipv4Addr}
use dnssec_tests.Fqdn
use dnssec_tests.Fqdn.{Fqdn}
use dnssec_tests.Record.{Record, try_into_a}
use dnssec_tests.Record.A
use dnssec_tests.Tshark.Captures.{same_addr_iff}
use dnssec_tests.Client.DigStatus
use dnssec_tests.Client.DigStatus.{is_servfail}
use dnssec_tests.Client.ExtendedDnsError.{ExtendedDnsError}
use dnssec_tests.Client.DigOutput.{DigOutput}
use dnssec_tests.Conformance.Answers.{check_a}
use dnssec_tests.Conformance.ExtendedErrors.{same_ede, has_ede, check_ede}

eq_iff : (a b : Fqdn) → (Fqdn.eq a b ≡ true) ↔ (a ≡ b)
unfolding Fqdn.eq
eq_iff a b = ground (arith, equal_iff a.inner b.inner)

-- One A record with the name and the address.
abbrev pub IsOnlyA : Fqdn → Ipv4Addr → List Record → Type 0
IsOnlyA name addr answer =
    (a : A.A) × (answer ≡ Record.a a ∷ []) × (a.fqdn ≡ name) × (a.ipv4_addr ≡ addr)

check_a_sound :
    (name : Fqdn) (addr : Ipv4Addr) (answer : List Record)
    → check_a name addr answer ≡ ok tt
    → IsOnlyA name addr answer
unfolding check_a try_into_a
check_a_sound name addr [] e = cc
check_a_sound name addr (Record.a a ∷ []) e =
    let (n, v) : (a.fqdn ≡ name) × (a.ipv4_addr ≡ addr) =
      ground (arith, eq_iff name a.fqdn, same_addr_iff addr a.ipv4_addr) in
    (a, refl, n, v)
check_a_sound name addr (_ ∷ []) e = cc
check_a_sound name addr (_ ∷ _ ∷ _) e = cc

check_a_complete :
    (name : Fqdn) (addr : Ipv4Addr) (a : A.A)
    → a.fqdn ≡ name
    → a.ipv4_addr ≡ addr
    → check_a name addr (Record.a a ∷ []) ≡ ok tt
unfolding check_a try_into_a
check_a_complete name addr a n v =
    ground (arith, eq_iff name a.fqdn, same_addr_iff addr a.ipv4_addr)

is_servfail_iff : (s : DigStatus.DigStatus) → (is_servfail s ≡ true) ↔ (s ≡ DigStatus.servfail)
unfolding is_servfail
is_servfail_iff DigStatus.servfail = ground arith
is_servfail_iff _ = ground arith

same_ede_iff : (a b : ExtendedDnsError) → (same_ede a b ≡ true) ↔ (a ≡ b)
same_ede_iff ExtendedDnsError.dnskey_missing ExtendedDnsError.dnskey_missing = ground arith
same_ede_iff _ _ = ground arith

has_ede_iff :
    (expected : ExtendedDnsError) (ede : Option ExtendedDnsError)
    → (has_ede expected ede ≡ true) ↔ (ede ≡ some expected)
unfolding has_ede
has_ede_iff expected none = ground arith
has_ede_iff expected (some ede) = ground (arith, same_ede_iff expected ede)

-- A test accepts an answer as the needle's exactly if it is one A record with its name and address.
pub check_a_iff :
    (name : Fqdn) (addr : Ipv4Addr) (answer : List Record)
    → (check_a name addr answer ≡ ok tt) ↔ IsOnlyA name addr answer
check_a_iff name addr answer = (
  check_a_sound name addr answer,
  (λ (a, e, n, v). ap (check_a name addr) e ∙ check_a_complete name addr a n v),
)

-- A test of an Extended DNS Error accepts an output exactly if its status is SERVFAIL and, if the
-- resolver supports such errors, the expected one is there.
pub check_ede_iff :
    (supports : Bool) (expected : ExtendedDnsError) (output : DigOutput)
    → (check_ede supports expected output ≡ ok tt)
      ↔ ((output.status ≡ DigStatus.servfail) × (supports ≡ true → output.ede ≡ some expected))
unfolding check_ede
check_ede_iff true expected output =
    ground (arith, is_servfail_iff output.status, has_ede_iff expected output.ede)
check_ede_iff false expected output = ground (arith, is_servfail_iff output.status)
