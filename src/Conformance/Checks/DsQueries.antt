-- ===== src/Conformance/Checks/DsQueries.antt =====
-- What the captured messages are like if the check of section 3.1.4 in
-- packages/conformance-tests/src/resolver/dnssec/rfc4035 passes.
use dnssec_tests.Base.{
  ℕ, suc, ◌+◌, true, Option, none, some, List, [], ◌∷◌, ◌++◌, ◌≡◌, ◌≢◌, ◌↔◌, refl, ◌∙◌, ap, subst,
  arith, All, length, length-append, ==_iff, if◌then◌else◌, Bool-cases, Option-cases, inl, inr,
}
use dnssec_tests.Text.{Text, codes, contains}
use dnssec_tests.Error.{ok, ◌>>=◌, bind-eq-ok}
use dnssec_tests.Ipv4.{Ipv4Addr}
use dnssec_tests.Tshark.{Fields, Message, Direction, Capture, get, as_object, and_then, same_addr}
use dnssec_tests.Tshark.Captures.{same_addr_iff}
use dnssec_tests.Conformance.Checks.{
  count_ds_queries, outgoing_ds_queries, all_ds_queries, one_ds_query,
}

-- The names of the queries that ask for a DS record.
abbrev pub ds_queries : Fields → List Text
ds_queries Fields.empty = []
ds_queries (Fields.field query value rest) =
    if contains (codes "type DS") query then query ∷ ds_queries rest else ds_queries rest

abbrev pub IsForZone : Ipv4Addr → Ipv4Addr → Text → Type 0
IsForZone com_addr destination query =
    (contains (codes "nameservers.com") query ≡ true) × (com_addr ≡ destination)

count_ds_queries_iff :
    (com_addr destination : Ipv4Addr) (queries : Fields) (count count' : ℕ)
    → (count_ds_queries com_addr destination queries count ≡ ok count') ↔ (
        All (IsForZone com_addr destination) (ds_queries queries)
        × (count' ≡ count + length (ds_queries queries)))
unfolding count_ds_queries
count_ds_queries_iff com_ns destination Fields.empty count count' = ground arith
count_ds_queries_iff com_ns destination (Fields.field query value rest) count count' =
    let next = count_ds_queries_iff com_ns destination rest (suc count) count' in
    let same = count_ds_queries_iff com_ns destination rest count count' in
    elim (Bool-cases (contains (codes "type DS") query)) [
      | inl asks ↦ rw (asks, if◌then◌else◌) (ground (arith, next, same_addr_iff com_ns destination))
      | inr other ↦ rw (other, if◌then◌else◌) same
    ]

abbrev pub queries_of : Message → Option Fields
queries_of message = and_then (get (codes "Queries") message.inner) as_object

abbrev ds_queries_of : Option Fields → List Text
ds_queries_of none = []
ds_queries_of (some queries) = ds_queries queries

-- The DS queries in a message to another than the client.
abbrev pub sent : Ipv4Addr → Message → Direction → List Text
sent client_addr message (Direction.incoming source) = []
sent client_addr message (Direction.outgoing destination) =
    if same_addr destination client_addr then [] else ds_queries_of (queries_of message)

-- All DS queries of the resolver, one message after another.
abbrev pub all_sent : Ipv4Addr → List Capture → List Text
all_sent client_addr [] = []
all_sent client_addr (c ∷ cs) = sent client_addr c.message c.direction ++ all_sent client_addr cs

-- A message to another than the client holds queries, and those for DS records name `nameservers.com`
-- and go to the server of `com.`.
abbrev pub AsksParent : Ipv4Addr → Ipv4Addr → Message → Direction → Type 0
AsksParent client_addr com_addr message (Direction.incoming source) = Unit
AsksParent client_addr com_addr message (Direction.outgoing destination) =
    destination ≢ client_addr
    → (queries : Fields) × (queries_of message ≡ some queries)
      × All (IsForZone com_addr destination) (ds_queries queries)

outgoing_ds_queries_iff :
    (client_addr com_addr : Ipv4Addr) (m : Message) (d : Direction) (count count' : ℕ)
    → (outgoing_ds_queries client_addr com_addr m d count ≡ ok count')
      ↔ (AsksParent client_addr com_addr m d × (count' ≡ count + length (sent client_addr m d)))
unfolding outgoing_ds_queries
outgoing_ds_queries_iff client com_ns m (Direction.incoming source) count count' = ground arith
outgoing_ds_queries_iff client com_ns m (Direction.outgoing destination) count count' =
    elim (Bool-cases (same_addr destination client)) [
      | inl back ↦
          let to_client = (same_addr_iff destination client).0 back in
          rw (back, if◌then◌else◌)
            (
              (λ e. ((λ other. absurd (other to_client)), ground arith)),
              (λ (_, same). ground arith),
            )
      | inr forth ↦
          let to_server : destination ≢ client =
            ground (arith, same_addr_iff destination client, forth) in
          elim (Option-cases (queries_of m)) [
            | inl missing ↦
                rw (forth, if◌then◌else◌, missing)
                  ((λ e. cc), (λ (asks, _). let (_, none_found, _) = asks to_server in cc))
            | inr (queries, found) ↦
                let counts = count_ds_queries_iff com_ns destination queries count count' in
                rw (forth, if◌then◌else◌, found, ds_queries_of)
                  (
                    (λ e. let (zone, same) = counts.0 e in ((λ _. (queries, refl, zone)), same)),
                    (λ (asks, same).
                        let (others, found_others, zone) = asks to_server in
                        let eq : others ≡ queries = cc in
                        counts.1 (
                          subst (λ q. All (IsForZone com_ns destination) (ds_queries q)) eq zone,
                          same,
                        )),
                  )
          ]
    ]

all_ds_queries_iff :
    (client_addr com_addr : Ipv4Addr) (captures : List Capture) (count count' : ℕ)
    → (all_ds_queries client_addr com_addr captures count ≡ ok count') ↔ (
        All (λ c. AsksParent client_addr com_addr c.message c.direction) captures
        × (count' ≡ count + length (all_sent client_addr captures)))
unfolding all_ds_queries
all_ds_queries_iff client com_ns [] count count' = ground arith
all_ds_queries_iff client com_ns (c ∷ cs) count count' =
    let lengths = length-append (sent client c.message c.direction) (all_sent client cs) in
    (
      (λ e.
          let (middle, one, rest) =
            bind-eq-ok (outgoing_ds_queries client com_ns c.message c.direction count) _ e in
          let (asks, first) =
            (outgoing_ds_queries_iff client com_ns c.message c.direction count middle).0 one in
          let (others, same) = (all_ds_queries_iff client com_ns cs middle count').0 rest in
          ((asks, others), omega (arith, lengths, first, same))),
      (λ ((asks, others), same).
          let middle = count + length (sent client c.message c.direction) in
          let one =
            (outgoing_ds_queries_iff client com_ns c.message c.direction count middle).1
              (asks, refl) in
          let rest =
            (all_ds_queries_iff client com_ns cs middle count').1
              (others, omega (arith, lengths, same)) in
          ap (λ r. r >>= all_ds_queries client com_ns cs) one ∙ rest),
    )

-- The check of section 3.1.4 passes exactly if every message that the resolver sends to another than
-- the client holds queries, each query for a DS record has `nameservers.com` in its text and goes to
-- the server of `com.`, and there is one of them in all messages.
pub one_ds_query_iff :
    (client_addr com_addr : Ipv4Addr) (captures : List Capture)
    → (one_ds_query client_addr com_addr captures ≡ ok tt) ↔ (
        All (λ c. AsksParent client_addr com_addr c.message c.direction) captures
        × (length (all_sent client_addr captures) ≡ 1))
unfolding one_ds_query
one_ds_query_iff client com_ns captures = (
  (λ e.
      let (count, counted, one) = bind-eq-ok (all_ds_queries client com_ns captures 0) _ e in
      let (asks, same) = (all_ds_queries_iff client com_ns captures 0 count).0 counted in
      (asks, ground (arith, ==_iff count 1, same, one))),
  (λ (asks, one).
      let sum = length (all_sent client captures) in
      let counted = (all_ds_queries_iff client com_ns captures 0 sum).1 (asks, omega arith) in
      rw (counted, ◌>>=◌) (ground (arith, one))),
)
