-- ===== src/Tshark.antt =====
-- packages/dns-test/src/tshark.rs: the messages that tshark captures.
pub mod Captures
pub mod Ending
pub mod Log
pub mod Run
use dnssec_tests.Base.{
  ◌⊎◌, inl, inr, ℕ, ◌==◌, ◌&&◌, Bool, true, false, Option, none, some, List, [], ◌∷◌, ◌++◌,
  if◌then◌else◌,
}
use dnssec_tests.Text.{Text, codes, equal, strip_prefix, format}
use dnssec_tests.Error.{message, Result, ok, err, panic, ◌>>=◌}
use dnssec_tests.Uint.{u16_max, parse_uint, uint_to_string}
use dnssec_tests.Ipv4
use dnssec_tests.Ipv4.{Ipv4Addr}

-- `serde_json::Value`: null, a Boolean, a number by its text, a string, an array or an object, whose
-- keys stand in the order of its iteration, each of them once.
mutual
  pub data Value : Type 0 where
    null : Value
    bool : Bool → Value
    number : Text → Value
    string : Text → Value
    array : Values → Value
    object : Fields → Value

  pub data Values : Type 0 where
    nil : Values
    cons : Value → Values → Values

  pub data Fields : Type 0 where
    empty : Fields
    field : Text → Value → Fields → Fields

-- `Map::get`.
unfoldable pub get_field : Text → Fields → Option Value
unfolding equal
get_field key Fields.empty = none
get_field key (Fields.field name value rest) =
    if equal name key then some value else get_field key rest

-- `Value::get`, `as_str` and `as_object`.
unfoldable pub get : Text → Value → Option Value
unfolding get_field
get key (Value.object fields) = get_field key fields
get key _ = none

abbrev pub as_str : Value → Option Text
as_str (Value.string s) = some s
as_str _ = none

abbrev pub as_object : Value → Option Fields
as_object (Value.object fields) = some fields
as_object _ = none

-- The operator `?` on an `Option`.
abbrev pub and_then : {A B : Type 0} → Option A → (A → Option B) → Option B
and_then none next = none
and_then (some a) next = next a

-- `str::ends_with` for a text.
unfoldable pub ends_with_text : Text → Text → Bool
unfolding equal
ends_with_text suffix [] = equal [] suffix
ends_with_text suffix (c ∷ s) = if equal (c ∷ s) suffix then true else ends_with_text suffix s

pub record Message : Type 0 where
  pub inner : Value

-- The loop over the additional records.
unfoldable pub find_opt : Fields → Option Value
unfolding ends_with_text
find_opt Fields.empty = none
find_opt (Fields.field key value rest) =
    if ends_with_text (codes ": type OPT") key then some value else find_opt rest

unfoldable pub opt_record : Message → Option Value
unfolding get find_opt
opt_record m =
    and_then (get (codes "Additional records") m.inner)
      λ additional. and_then (as_object additional) find_opt

-- The match on the text of the DO bit.
unfoldable pub do_bit : Text → Option Bool
unfolding equal
do_bit s =
    if equal s (codes "1") then some true else if equal s (codes "0") then some false else none

unfoldable pub is_do_bit_set : Message → Option Bool
unfolding opt_record get do_bit
is_do_bit_set m = and_then (opt_record m) λ opt.
    and_then (get (codes "dns.resp.z_tree") opt)
      λ tree. and_then (get (codes "dns.resp.z.do") tree) λ value. and_then (as_str value) do_bit

-- `Result::ok`; no panic comes from `parse`.
abbrev pub ok_of : {A : Type 0} → Result A → Option A
ok_of (ok a) = some a
ok_of (err _) = none
ok_of (panic _) = none

unfoldable pub udp_payload_size : Message → Option ℕ
unfolding opt_record get parse_uint
udp_payload_size m = and_then (opt_record m) λ opt.
    and_then (get (codes "dns.rr.udp_payload_size") opt)
      λ value. and_then (as_str value) λ s. ok_of (parse_uint u16_max s)

-- The flag in the tree: missing, or the text `1`; anything else panics.
unfoldable pub authenticated : Option Value → Result Bool
unfolding equal
authenticated none = ok false
authenticated (some (Value.string s)) =
    if equal s (codes "1") then ok true else panic (codes "assertion `left == right` failed")
authenticated (some _) = panic (codes "called `Option::unwrap()` on a `None` value")

-- `self.inner["dns.flags_tree"]`, which is null where `get` finds nothing; null is no object.
abbrev flags_tree : Value → Option Value
flags_tree inner = get (codes "dns.flags_tree") inner

unfoldable pub is_ad_flag_set : Message → Result Bool
unfolding get get_field authenticated
is_ad_flag_set m = elim (and_then (flags_tree m.inner) as_object) [
  | none ↦ panic (codes "called `Option::unwrap()` on a `None` value")
  | some fields ↦ authenticated (get_field (codes "dns.flags.authenticated") fields)
]

pub data Direction : Type 0 where
  incoming : Ipv4Addr → Direction
  outgoing : Ipv4Addr → Direction

-- The address, or the direction itself as the error.
unfoldable pub try_into_incoming : Direction → Ipv4Addr ⊎ Direction
try_into_incoming (Direction.incoming source) = inl source
try_into_incoming (Direction.outgoing destination) = inr (Direction.outgoing destination)

unfoldable pub try_into_outgoing : Direction → Ipv4Addr ⊎ Direction
try_into_outgoing (Direction.incoming source) = inr (Direction.incoming source)
try_into_outgoing (Direction.outgoing destination) = inl destination

pub record Capture : Type 0 where
  pub message : Message
  pub direction : Direction

-- An entry of the trace: its IP and DNS layers.
pub record Layers : Type 0 where
  pub src : Ipv4Addr
  pub dst : Ipv4Addr
  pub dns : Value

-- `PartialEq` of `Ipv4Addr`.
unfoldable pub same_addr : Ipv4Addr → Ipv4Addr → Bool
same_addr a b =
    (a.octet0 == b.octet0)
    && (a.octet1 == b.octet1)
    && (a.octet2 == b.octet2)
    && (a.octet3 == b.octet3)

-- `Debug` of the derived `Ip`.
abbrev debug_ip : Layers → Text
debug_ip layers = format (
    codes "Ip { src: "
    ∷ Ipv4.to_string layers.src
    ∷ codes ", dst: "
    ∷ Ipv4.to_string layers.dst
    ∷ codes " }"
    ∷ [])

unfoldable pub direction : Ipv4Addr → Layers → Result Direction
unfolding same_addr
direction own_addr layers =
    if same_addr layers.dst own_addr
    then ok (Direction.incoming layers.src)
    else if same_addr layers.src own_addr
    then ok (Direction.outgoing layers.dst)
    else err (
        message
          (format (codes "unexpected IP packet found in wireshark trace: " ∷ debug_ip layers ∷ [])))

-- The loop over the entries.
unfoldable pub captures : Ipv4Addr → List Layers → Result (List Capture)
unfolding direction
captures own_addr [] = ok []
captures own_addr (layers ∷ rest) = direction own_addr layers >>= λ d.
    captures own_addr rest >>= λ others.
    ok (record { message = record { inner = layers.dns }; direction = d } ∷ others)

unfoldable pub pid_file : ℕ → Text
pid_file id = format (codes "/tmp/tshark" ∷ uint_to_string id ∷ codes ".pid" ∷ [])

unfoldable pub capture_file : ℕ → Text
capture_file id = format (codes "/tmp/tshark" ∷ uint_to_string id ∷ codes ".json" ∷ [])
