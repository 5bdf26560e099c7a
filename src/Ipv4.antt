-- ===== src/Ipv4.antt =====
-- `std::net::Ipv4Addr` of Rust's standard library with its `FromStr` and `Display`, which the
-- sources use for addresses in records, root hints and captures.
use dnssec_tests.Base.{
  ℕ, Bool, true, false, ◌||◌, ◌≤◌, List, [], ◌∷◌, append-nil, ◌≡◌, ◌≢◌, refl, ap, arith, All,
  All-append, All-map, ltb, ◌==◌, ==_iff, if◌then◌else◌, length, all_below, all_below_sound,
}
use dnssec_tests.Text.{Text, codes, split, format, is_whitespace}
use dnssec_tests.Text.Columns.{IsWord, IsWord-append}
use dnssec_tests.Text.Splits.{Lacks, split-cons, split-Lacks}
use dnssec_tests.Error.{addr_parse, Result, ok, err, panic, ◌>>=◌, bind-eq-ok, Ensures}
use dnssec_tests.Uint.{u8_max, scan, uint_to_string}
use dnssec_tests.Uint.RoundTrip.{
  IsDigit, uint_to_string-IsDigit, uint_to_string-IsWord, scan_bounds,
}

pub record Ipv4Addr : Type 0 where
  pub octet0 : ℕ
  pub octet1 : ℕ
  pub octet2 : ℕ
  pub octet3 : ℕ

-- A zero stands in front of no other digit.
has_leading_zero : Text → Bool
has_leading_zero [] = false
has_leading_zero (c ∷ []) = false
has_leading_zero (c ∷ d ∷ s) = c == b'0'

-- Every error of an address is the same `AddrParseError`.
abbrev to_addr_parse : Result ℕ → Result ℕ
to_addr_parse (ok n) = ok n
to_addr_parse _ = err addr_parse

-- One to three digits with no leading zero, at most 255.
pub parse_octet : Text → Result ℕ
unfolding scan has_leading_zero
parse_octet [] = err addr_parse
parse_octet (c ∷ s) =
    if ltb 3 (length (c ∷ s)) || has_leading_zero (c ∷ s)
    then err addr_parse
    else to_addr_parse (scan u8_max 0 (c ∷ s))

pub from_parts : List Text → Result Ipv4Addr
from_parts (a ∷ b ∷ c ∷ d ∷ []) = do
  octet0 ← parse_octet a
  octet1 ← parse_octet b
  octet2 ← parse_octet c
  octet3 ← parse_octet d
  ok (record { octet0 = octet0; octet1 = octet1; octet2 = octet2; octet3 = octet3 })
from_parts _ = err addr_parse

unfoldable pub from_str : Text → Result Ipv4Addr
unfolding parse_octet from_parts split
from_str s = from_parts (split b'.' s)

unfoldable pub to_string : Ipv4Addr → Text
unfolding uint_to_string
to_string addr = format (
    uint_to_string addr.octet0
    ∷ codes "."
    ∷ uint_to_string addr.octet1
    ∷ codes "."
    ∷ uint_to_string addr.octet2
    ∷ codes "."
    ∷ uint_to_string addr.octet3
    ∷ [])

-- Each octet is a byte.
pub record IsValid (addr : Ipv4Addr) : Type 0 where
  pub bound0 : addr.octet0 ≤ u8_max
  pub bound1 : addr.octet1 ≤ u8_max
  pub bound2 : addr.octet2 ≤ u8_max
  pub bound3 : addr.octet3 ≤ u8_max

abbrev is_ok_of : Result ℕ → ℕ → Bool
is_ok_of (ok n) m = n == m
is_ok_of _ m = false

octet_table : all_below 256 (λ n. is_ok_of (parse_octet (uint_to_string n)) n) ≡ true
unfolding all_below parse_octet uint_to_string
octet_table = refl

is_ok_of-eq : (r : Result ℕ) (n : ℕ) → is_ok_of r n ≡ true → r ≡ ok n
is_ok_of-eq (ok m) n h = ap ok ((==_iff m n).0 h)
is_ok_of-eq (err e) n h = cc
is_ok_of-eq (panic m) n h = cc

parse_octet-uint : (n : ℕ) → n ≤ u8_max → parse_octet (uint_to_string n) ≡ ok n
parse_octet-uint n h = is_ok_of-eq _ n (
    all_below_sound 256 (λ m. is_ok_of (parse_octet (uint_to_string m)) m) n octet_table
      (omega arith))

digit-ne-dot : (c : ℕ) → IsDigit c → c ≢ b'.'
digit-ne-dot c h = omega arith

octet-Lacks : (n : ℕ) → Lacks b'.' (uint_to_string n)
octet-Lacks n = All-map _ _ digit-ne-dot (uint_to_string n) (uint_to_string-IsDigit n)

split-to_string :
    (addr : Ipv4Addr)
    → split b'.' (to_string addr)
      ≡ uint_to_string addr.octet0
        ∷ uint_to_string addr.octet1
        ∷ uint_to_string addr.octet2
        ∷ uint_to_string addr.octet3
        ∷ []
unfolding to_string
split-to_string addr = rw (
  append-nil,
  split-cons b'.' (uint_to_string addr.octet0) _ (octet-Lacks addr.octet0),
  split-cons b'.' (uint_to_string addr.octet1) _ (octet-Lacks addr.octet1),
  split-cons b'.' (uint_to_string addr.octet2) _ (octet-Lacks addr.octet2),
  split-Lacks b'.' (uint_to_string addr.octet3) (octet-Lacks addr.octet3),
)

-- An address is read back from its print.
pub from_str-to_string : (addr : Ipv4Addr) → IsValid addr → from_str (to_string addr) ≡ ok addr
unfolding from_str from_parts
from_str-to_string addr v = rw (
  split-to_string addr,
  from_parts,
  parse_octet-uint addr.octet0 v.bound0,
  parse_octet-uint addr.octet1 v.bound1,
  parse_octet-uint addr.octet2 v.bound2,
  parse_octet-uint addr.octet3 v.bound3,
)

octet-solid : (n : ℕ) → All (λ c. is_whitespace c ≡ false) (uint_to_string n)
octet-solid n = (uint_to_string-IsWord n).solid

-- A printed address is one column.
pub to_string-IsWord : (addr : Ipv4Addr) → IsWord (to_string addr)
unfolding to_string is_whitespace
to_string-IsWord addr =
    let s : (s : Text)
        → All (λ c. is_whitespace c ≡ false) s
        → All (λ c. is_whitespace c ≡ false) (b'.' ∷ s) =
      λ s h. (refl, h) in
    IsWord-append (uint_to_string addr.octet0) _ (uint_to_string-IsWord addr.octet0) (
      s _ (
        All-append _ (uint_to_string addr.octet1) _ (octet-solid addr.octet1) (
          s _ (
            All-append _ (uint_to_string addr.octet2) _ (octet-solid addr.octet2)
              (s _ (All-append _ (uint_to_string addr.octet3) [] (octet-solid addr.octet3) tt))))))

parse_octet_bounds : (s : Text) {n : ℕ} → parse_octet s ≡ ok n → n ≤ u8_max
unfolding parse_octet
parse_octet_bounds [] e = cc
parse_octet_bounds (c ∷ s) {n} e = ground (arith, scan_bounds u8_max 0 (c ∷ s) n)

from_parts-IsValid :
    (parts : List Text) {addr : Ipv4Addr} → from_parts parts ≡ ok addr → IsValid addr
unfolding from_parts
from_parts-IsValid (a ∷ b ∷ c ∷ d ∷ []) {addr} e =
    let (o0, e0, r0) = bind-eq-ok (parse_octet a) _ e in
    let (o1, e1, r1) = bind-eq-ok (parse_octet b) _ r0 in
    let (o2, e2, r2) = bind-eq-ok (parse_octet c) _ r1 in
    let (o3, e3, r3) = bind-eq-ok (parse_octet d) _ r2 in
    ground (
      arith,
      parse_octet_bounds a {n = o0} e0,
      parse_octet_bounds b {n = o1} e1,
      parse_octet_bounds c {n = o2} e2,
      parse_octet_bounds d {n = o3} e3,
      r3,
    )
from_parts-IsValid _ e = cc

-- What is read as an address has four bytes.
pub from_str-IsValid : (s : Text) {addr : Ipv4Addr} → from_str s ≡ ok addr → IsValid addr
unfolding from_str
from_str-IsValid s e = from_parts-IsValid (split b'.' s) e

pub from_str-Ensures : (s : Text) → Ensures IsValid (from_str s)
from_str-Ensures s = record { holds = λ addr e. from_str-IsValid s e }
