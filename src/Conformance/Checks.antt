-- ===== src/Conformance/Checks.antt =====
-- The checks that packages/conformance-tests/src/resolver/dnssec/rfc4035 makes on the messages that
-- tshark captures next to a resolver.
pub mod AdFlag
pub mod DsQueries
pub mod Spec
pub mod Trace
use dnssec_tests.Base.{
  ℕ, suc, ◌+◌, ◌==◌, ◌||◌, not, leb, Bool, true, false, Option, none, some, List, [], ◌∷◌,
  if◌then◌else◌,
}
use dnssec_tests.Text.{Text, codes, contains}
use dnssec_tests.Error.{Result, ok, err, panic, ◌>>=◌, ◌>>◌}
use dnssec_tests.Ipv4.{Ipv4Addr}
use dnssec_tests.Tshark.{
  Fields, Message, Direction, Capture, get, as_object, and_then, is_do_bit_set, udp_payload_size,
  is_ad_flag_set, same_addr,
}

-- `assert!`, `assert_eq!` and `assert_ne!`, with the panic that they fail by.
abbrev pub assert : Text → Bool → Result (Unit {0})
assert text b = if b then ok tt else panic text

abbrev pub not_equal : Text
not_equal = codes "assertion `left == right` failed"

-- `Some(true) == value`.
abbrev pub is_some_true : Option Bool → Bool
is_some_true none = false
is_some_true (some b) = b

-- The DO bit is set.
unfoldable pub check_do_bit : Message → Result (Unit {0})
unfolding is_do_bit_set
check_do_bit message = assert not_equal (is_some_true (is_do_bit_set message))

abbrev pub check_size : Option ℕ → Result (Unit {0})
check_size none = panic (codes "called `Option::unwrap()` on a `None` value")
check_size (some size) =
    assert (codes "assertion failed: message.udp_payload_size().unwrap() >= 1220") (leb 1220 size)

unfoldable pub check_payload_size : Message → Result (Unit {0})
unfolding udp_payload_size
check_payload_size message = check_size (udp_payload_size message)

-- The two assertions of section 4.1.
unfoldable pub check_edns : Message → Result (Unit {0})
unfolding check_do_bit check_payload_size
check_edns message = check_do_bit message >> check_payload_size message

-- The body of the loop of sections 3.2 and 4.1; `check` holds its assertions on the message.
unfoldable pub check_query :
    (Message → Result (Unit {0})) → Ipv4Addr → Ipv4Addr → Message → Direction → Result (Unit {0})
unfolding same_addr
check_query check client_addr ns_addr message (Direction.incoming source) = ok tt
check_query check client_addr ns_addr message (Direction.outgoing destination) =
    if same_addr destination client_addr
    then ok tt
    else (assert not_equal (same_addr ns_addr destination)
        >> (if same_addr destination ns_addr then check message else ok tt))

unfoldable pub check_queries :
    (Message → Result (Unit {0})) → Ipv4Addr → Ipv4Addr → List Capture → Result (Unit {0})
unfolding check_query
check_queries check client_addr ns_addr [] = ok tt
check_queries check client_addr ns_addr (c ∷ cs) =
    check_query check client_addr ns_addr c.message c.direction
    >> check_queries check client_addr ns_addr cs

-- `<[Ipv4Addr]>::contains`.
unfoldable pub contains_addr : Ipv4Addr → List Ipv4Addr → Bool
unfolding same_addr
contains_addr addr [] = false
contains_addr addr (a ∷ addrs) = same_addr a addr || contains_addr addr addrs

-- The counts of the checks of section 4.6.
pub record Counts : Type 0 where
  pub client : ℕ
  pub ns : ℕ

-- The body of the loop of section 4.6.
unfoldable pub check_ad_flag :
    Ipv4Addr → List Ipv4Addr → Message → Direction → Counts → Result Counts
unfolding same_addr is_ad_flag_set contains_addr
check_ad_flag client_addr ns_addrs message (Direction.incoming source) counts =
    if same_addr source client_addr
    then (do
      flag ← is_ad_flag_set message
      assert (codes "assertion failed: message.is_ad_flag_set()") flag
      ok (record counts { client = suc counts.client }))
    else ok counts
check_ad_flag client_addr ns_addrs message (Direction.outgoing destination) counts =
    if same_addr destination client_addr then ok counts else (do
      assert (codes "assertion failed: ns_addrs.contains(&destination)")
          (contains_addr destination ns_addrs)
      flag ← is_ad_flag_set message
      assert (codes "assertion failed: !message.is_ad_flag_set()") (not flag)
      ok (record counts { ns = suc counts.ns }))

unfoldable pub check_ad_flags : Ipv4Addr → List Ipv4Addr → List Capture → Counts → Result Counts
unfolding check_ad_flag
check_ad_flags client_addr ns_addrs [] counts = ok counts
check_ad_flags client_addr ns_addrs (c ∷ cs) counts = do
  counts' ← check_ad_flag client_addr ns_addrs c.message c.direction counts
  check_ad_flags client_addr ns_addrs cs counts'

-- The assertions behind the loop.
unfoldable pub check_ad_counts : Counts → Result (Unit {0})
check_ad_counts counts = do
  assert not_equal (counts.client == 1)
  assert (codes "assertion `left != right` failed") (not (counts.ns == 0))

unfoldable pub clears_ad_flag : Ipv4Addr → List Ipv4Addr → List Capture → Result (Unit {0})
unfolding check_ad_flags check_ad_counts
clears_ad_flag client_addr ns_addrs captures =
    check_ad_flags client_addr ns_addrs captures (record { client = 0; ns = 0 }) >>= check_ad_counts

-- The loop over the queries of a message in section 3.1.4: how many of them ask for a DS record.
unfoldable pub count_ds_queries : Ipv4Addr → Ipv4Addr → Fields → ℕ → Result ℕ
unfolding contains same_addr
count_ds_queries com_addr destination Fields.empty count = ok count
count_ds_queries com_addr destination (Fields.field query value rest) count =
    let others = count_ds_queries com_addr destination rest count in
    let others' = count_ds_queries com_addr destination rest (suc count) in
    if contains (codes "type DS") query
    then (do
      assert (codes "assertion failed: query.contains(\"nameservers.com\")")
          (contains (codes "nameservers.com") query)
      assert not_equal (same_addr com_addr destination)
      others')
    else others

-- The queries of a message that the resolver sends to another than the client.
unfoldable pub outgoing_ds_queries : Ipv4Addr → Ipv4Addr → Message → Direction → ℕ → Result ℕ
unfolding count_ds_queries get same_addr
outgoing_ds_queries client_addr com_addr message (Direction.incoming source) count = ok count
outgoing_ds_queries client_addr com_addr message (Direction.outgoing destination) count =
    if same_addr destination client_addr
    then ok count
    else elim (and_then (get (codes "Queries") message.inner) as_object) [
      | none ↦ panic (codes "expected Object")
      | some queries ↦ count_ds_queries com_addr destination queries count
    ]

unfoldable pub all_ds_queries : Ipv4Addr → Ipv4Addr → List Capture → ℕ → Result ℕ
unfolding outgoing_ds_queries
all_ds_queries client_addr com_addr [] count = ok count
all_ds_queries client_addr com_addr (c ∷ cs) count = do
  count' ← outgoing_ds_queries client_addr com_addr c.message c.direction count
  all_ds_queries client_addr com_addr cs count'

-- The loop, and the assertion behind it.
unfoldable pub one_ds_query : Ipv4Addr → Ipv4Addr → List Capture → Result (Unit {0})
unfolding all_ds_queries
one_ds_query client_addr com_addr captures =
    all_ds_queries client_addr com_addr captures 0 >>= λ count. assert not_equal (count == 1)
