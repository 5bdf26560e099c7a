-- ===== src/Conformance/Answers.antt =====
-- What the tests of packages/conformance-tests/src expect of the records of an answer.
use dnssec_tests.Base.{Bool, true, false, ◌∷◌, [], List, inl, inr, ◌⊎◌}
use dnssec_tests.Text.{Text, codes}
use dnssec_tests.Error.{Result, ok, panic, ◌>>=◌, ◌>>◌}
use dnssec_tests.Ipv4.{Ipv4Addr}
use dnssec_tests.Fqdn
use dnssec_tests.Fqdn.{Fqdn}
use dnssec_tests.Record.{Record, try_into_a, try_into_ds, try_into_rrsig}
use dnssec_tests.Record.A
use dnssec_tests.Record.Ds
use dnssec_tests.Record.Rrsig
use dnssec_tests.Tshark.{same_addr}
use dnssec_tests.Conformance.Checks.{assert, not_equal}

abbrev pub fail : {A : Type 0} → Result A
fail = panic (codes "called `Result::unwrap()` on an `Err` value")

-- `<[Record; 1]>::try_from` and `<[Record; 2]>::try_from`, with `unwrap`.
abbrev pub only : List Record → Result Record
only (r ∷ []) = ok r
only _ = fail

abbrev pub pair : List Record → Result (Record × Record)
pair (r ∷ s ∷ []) = ok (r, s)
pair _ = fail

abbrev pub unwrap_left : {A B : Type 0} → A ⊎ B → Result A
unwrap_left (inl a) = ok a
unwrap_left (inr b) = fail

abbrev pub as_a : Record → Result A.A
unfolding try_into_a
as_a r = unwrap_left (try_into_a r)

abbrev pub as_ds : Record → Result Ds.Ds
unfolding try_into_ds
as_ds r = unwrap_left (try_into_ds r)

abbrev pub as_rrsig : Record → Result Rrsig.Rrsig
unfolding try_into_rrsig
as_rrsig r = unwrap_left (try_into_rrsig r)

-- `matches!`.
abbrev pub is_a : Record → Bool
is_a (Record.a _) = true
is_a _ = false

abbrev pub is_soa : Record → Bool
is_soa (Record.soa _) = true
is_soa _ = false

abbrev pub is_ns : Record → Bool
is_ns (Record.ns _) = true
is_ns _ = false

abbrev pub is_dnskey : Record → Bool
is_dnskey (Record.dnskey _) = true
is_dnskey _ = false

abbrev pub needle_fqdn : Text
needle_fqdn = codes "example.nameservers.com."

abbrev pub needle_addr : Ipv4Addr
needle_addr = record { octet0 = 1; octet1 = 2; octet2 = 3; octet3 = 4 }

-- The answer is one A record, with this name and this address.
unfoldable pub check_a : Fqdn → Ipv4Addr → List Record → Result (Unit {0})
unfolding Fqdn.eq same_addr
check_a name addr answer = do
  r ← only answer
  a ← as_a r
  assert not_equal (Fqdn.eq name a.fqdn)
  assert not_equal (same_addr addr a.ipv4_addr)
