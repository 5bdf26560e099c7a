-- ===== src/Conformance/Checks/Trace.antt =====
-- The checks of packages/conformance-tests/src/resolver/dnssec/rfc4035 on what the `terminate` of
-- packages/dns-test/src/tshark.rs returns.
use dnssec_tests.Base.{some, true, List, [], ◌∷◌, ◌≡◌, ◌≢◌, ◌↔◌, sym, ap, ◌∙◌, subst, All}
use dnssec_tests.Text.{Text, codes}
use dnssec_tests.Error.{Result, ok}
use dnssec_tests.Ipv4.{Ipv4Addr}
use dnssec_tests.System.{System}
use dnssec_tests.System.Returns.{Returns, Returns-map}
use dnssec_tests.Container.{exec, pop_line_ends}
use dnssec_tests.Container.Printed.{Prints}
use dnssec_tests.Tshark.{Message, Layers, Direction, Capture, capture_file, is_do_bit_set}
use dnssec_tests.Tshark.Captures.{IsDirection, AreCaptures}
use dnssec_tests.Tshark.Run.{Tshark, terminate}
use dnssec_tests.Tshark.Ending.{terminate-AreCapturesOf}
use dnssec_tests.Conformance.Checks.{check_do_bit, check_edns, check_queries}
use dnssec_tests.Conformance.Checks.Spec.{IsQueryWith, IsLarge, queries_iff}

-- An entry of a trace that goes neither to the container nor to the client goes to the server, and its
-- message satisfies `P`.
abbrev pub IsAsked : (Message → Type 0) → Ipv4Addr → Ipv4Addr → Ipv4Addr → Layers → Type 0
IsAsked P own client_addr ns_addr layers =
    layers.dst ≢ own
    → layers.dst ≢ client_addr
    → (layers.dst ≡ ns_addr) × P (record { inner = layers.dns })

query-IsAsked_iff :
    (P : Message → Type 0) (own client_addr ns_addr : Ipv4Addr) (layers : Layers) (m : Message)
    (d : Direction)
    → m.inner ≡ layers.dns
    → IsDirection own layers d
    → IsQueryWith P client_addr ns_addr m d ↔ IsAsked P own client_addr ns_addr layers
query-IsAsked_iff P own client ns layers m (Direction.incoming source) e (here, _) =
    (λ _ away. absurd (away here), λ _. tt)
query-IsAsked_iff P own client ns layers m (Direction.outgoing destination) e (away, _, same) = (
  (λ h _ other.
      let (to, holds) = h (λ q. other (sym same ∙ q)) in
      (sym same ∙ to, subst P (ap (λ v. record { inner = v }) e) holds)),
  (λ h other.
      let (to, holds) = h away (λ q. other (same ∙ q)) in
      (same ∙ to, subst P (sym (ap (λ v. record { inner = v }) e)) holds)),
)

queries-IsAsked_iff :
    (P : Message → Type 0) (own client_addr ns_addr : Ipv4Addr) (entries : List Layers)
    (captures : List Capture)
    → AreCaptures own entries captures
    → All (λ c. IsQueryWith P client_addr ns_addr c.message c.direction) captures
      ↔ All (IsAsked P own client_addr ns_addr) entries
queries-IsAsked_iff P own client ns [] [] h = (λ _. tt, λ _. tt)
queries-IsAsked_iff P own client ns [] (_ ∷ _) h = absurd h
queries-IsAsked_iff P own client ns (_ ∷ _) [] h = absurd h
queries-IsAsked_iff P own client ns (layers ∷ entries) (c ∷ captures) (m, d, rest) =
    let one = query-IsAsked_iff P own client ns layers c.message c.direction m d in
    let others = queries-IsAsked_iff P own client ns entries captures rest in
    (λ (h, hs). (one.0 h, others.0 hs), λ (h, hs). (one.1 h, others.1 hs))

-- The checks of sections 3.2 and 4.1 on these captures, told by the entries of the trace.
abbrev pub AreCheckedBy : Ipv4Addr → Ipv4Addr → Ipv4Addr → List Layers → List Capture → Type 0
AreCheckedBy own client_addr ns_addr entries captures =
    ((check_queries check_do_bit client_addr ns_addr captures ≡ ok tt)
      ↔ All (IsAsked (λ m. is_do_bit_set m ≡ some true) own client_addr ns_addr) entries)
    × ((check_queries check_edns client_addr ns_addr captures ≡ ok tt)
        ↔ All (IsAsked (λ m. (is_do_bit_set m ≡ some true) × IsLarge m) own client_addr ns_addr)
            entries)

AreCaptures-AreCheckedBy :
    (own client_addr ns_addr : Ipv4Addr) (entries : List Layers) (captures : List Capture)
    → AreCaptures own entries captures
    → AreCheckedBy own client_addr ns_addr entries captures
AreCaptures-AreCheckedBy own client ns entries captures h =
    let (bit, edns) = queries_iff client ns captures in
    let bits = queries-IsAsked_iff _ own client ns entries captures h in
    let all = queries-IsAsked_iff _ own client ns entries captures h in
    ((λ e. bits.0 (bit.0 e), λ k. bit.1 (bits.1 k)), (λ e. all.0 (edns.0 e), λ k. edns.1 (all.1 k)))

-- If the capture file of a resolver holds `text`, which `cat` prints whenever it runs, then whatever
-- terminate returns passes the checks of sections 3.2 and 4.1 exactly if, in the entries that the
-- text decodes to, every message that goes neither to the resolver nor to the client goes to the
-- name server with the DO bit set, for section 4.1 also with a payload size of at least 1220.
pub terminate-checked :
    {World : Type 0} (system : System World) (decode : Text → Result (List Layers))
    (tshark : Tshark) (text : Text) (client_addr ns_addr : Ipv4Addr)
    → Prints system (exec tshark.container (codes "cat" ∷ capture_file tshark.id ∷ [])) text
    → Returns
        (λ captures.
          (entries : List Layers) × (decode (pop_line_ends text) ≡ ok entries)
          × AreCheckedBy tshark.container.ipv4_addr client_addr ns_addr entries captures)
        (terminate system decode tshark)
terminate-checked system decode tshark text client ns prints =
    Returns-map
      (λ captures ((entries, decoded, h), _).
        (entries, decoded, AreCaptures-AreCheckedBy _ client ns entries captures h))
      (terminate-AreCapturesOf system decode tshark text prints)
