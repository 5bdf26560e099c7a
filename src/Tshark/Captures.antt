-- ===== src/Tshark/Captures.antt =====
-- The directions of captured messages in packages/dns-test/src/tshark.rs.
use dnssec_tests.Base.{true, List, [], ◌∷◌, ◌≡◌, ◌≢◌, ◌↔◌, sym, ap, ◌∙◌, arith}
use dnssec_tests.Error.{Result, ok, ◌>>=◌, bind-eq-ok}
use dnssec_tests.Ipv4.{Ipv4Addr}
use dnssec_tests.Tshark.{Value, Layers, Direction, Capture, direction, captures, same_addr}

-- The direction of a message, seen from a server.
abbrev pub IsDirection : Ipv4Addr → Layers → Direction → Type 0
IsDirection own layers (Direction.incoming source) = (layers.dst ≡ own) × (source ≡ layers.src)
IsDirection own layers (Direction.outgoing destination) =
    (layers.dst ≢ own) × (layers.src ≡ own) × (destination ≡ layers.dst)

-- The captures are the messages of the entries, in order, with their directions.
abbrev pub AreCaptures : Ipv4Addr → List Layers → List Capture → Type 0
AreCaptures own [] [] = Unit
AreCaptures own [] (_ ∷ _) = ⊥
AreCaptures own (_ ∷ _) [] = ⊥
AreCaptures own (layers ∷ rest) (capture ∷ captures) =
    (capture.message.inner ≡ layers.dns)
    × IsDirection own layers capture.direction
    × AreCaptures own rest captures

pub same_addr_iff : (a b : Ipv4Addr) → (same_addr a b ≡ true) ↔ (a ≡ b)
unfolding same_addr
same_addr_iff a b = ground arith

direction_iff :
    (own : Ipv4Addr) (layers : Layers) (d : Direction)
    → (direction own layers ≡ ok d) ↔ IsDirection own layers d
unfolding direction
direction_iff own layers (Direction.incoming source) =
    ground (arith, same_addr_iff layers.dst own, same_addr_iff layers.src own)
direction_iff own layers (Direction.outgoing destination) =
    ground (arith, same_addr_iff layers.dst own, same_addr_iff layers.src own)

cons-eq :
    (dns : Value) (d : Direction) (others : List Capture) (c : Capture) (cs : List Capture)
    → ◌≡◌ {A = Result (List Capture)}
        (ok (record { message = record { inner = dns }; direction = d } ∷ others))
        (ok (c ∷ cs))
    → (c.message.inner ≡ dns) × (d ≡ c.direction) × (others ≡ cs)
cons-eq dns d others c cs e = ground arith

-- Reading a trace succeeds with these captures exactly when they are the messages of its entries, in
-- order: incoming if the entry's destination is the server, outgoing if only its source is.
pub captures_iff :
    (own : Ipv4Addr) (entries : List Layers) (cs : List Capture)
    → (captures own entries ≡ ok cs) ↔ AreCaptures own entries cs
unfolding captures
captures_iff own [] [] = ground arith
captures_iff own [] (c ∷ cs) = ground arith
captures_iff own (layers ∷ rest) [] = (
  (λ e.
      let (d, ed, e') = bind-eq-ok (direction own layers) _ e in
      let (others, eo, e'') = bind-eq-ok (captures own rest) _ e' in ground (arith, e'')),
  (λ h. absurd h),
)
captures_iff own (layers ∷ rest) (c ∷ cs) = (
  (λ e.
      let (d, ed, e') = bind-eq-ok (direction own layers) _ e in
      let (others, eo, e'') = bind-eq-ok (captures own rest) _ e' in
      let (m, k, q) = cons-eq layers.dns d others c cs e'' in
      (
        m,
        (direction_iff own layers c.direction).0 (ed ∙ ap ok k),
        (captures_iff own rest cs).0 (eo ∙ ap ok q),
      )),
  (λ (m, d, r).
      rw ((direction_iff own layers c.direction).1 d, ◌>>=◌, (captures_iff own rest cs).1 r)
        (ap (λ inner. ok (record c { message = record { inner = inner } } ∷ cs)) (sym m))),
)
