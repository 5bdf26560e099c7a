-- ===== src/Uint.antt =====
-- `FromStr` and `Display` of Rust's unsigned integers, for every largest value.
pub mod RoundTrip
use dnssec_tests.Base.{
  ℕ, zero, suc, ◌+◌, ◌-◌, ◌*◌, ◌/◌, ◌%◌, ◌^◌, Bool, true, false, ◌&&◌, List, [], ◌∷◌, leb, ltb,
  ◌==◌, if◌then◌else◌,
}
use dnssec_tests.Text.{Text}
use dnssec_tests.Error.{Error, parse_int, empty, invalid_digit, pos_overflow, Result, ok, err}

abbrev pub u8_max : ℕ
u8_max = 2 ^ 8 - 1

abbrev pub u16_max : ℕ
u16_max = 2 ^ 16 - 1

abbrev pub u32_max : ℕ
u32_max = 2 ^ 32 - 1

abbrev pub u64_max : ℕ
u64_max = 2 ^ 64 - 1

abbrev pub is_digit : ℕ → Bool
is_digit c = leb b'0' c && leb c b'9'

-- The loop over the digits; `mul` and `add` are checked.
unfoldable pub scan : ℕ → ℕ → Text → Result ℕ
scan max n [] = ok n
scan max n (c ∷ s) =
    let d = c - b'0' in
    if is_digit c
    then (if ltb max (n * 10 + d) then err (parse_int pos_overflow) else scan max (n * 10 + d) s)
    else err (parse_int invalid_digit)

-- One sign `+` is allowed in front of at least one digit.
unfoldable pub parse_uint : ℕ → Text → Result ℕ
unfolding scan
parse_uint max [] = err (parse_int empty)
parse_uint max (c ∷ []) = scan max 0 (c ∷ [])
parse_uint max (c ∷ d ∷ s) = if c == b'+' then scan max 0 (d ∷ s) else scan max 0 (c ∷ d ∷ s)

-- The digits of `n` in front of those behind it; the fuel `n + 1` is more than the rounds needed.
unfoldable pub digits_onto : ℕ → ℕ → Text → Text
digits_onto zero n rest = rest
digits_onto (suc fuel) n rest = elim (ltb n 10) [
  | true ↦ (b'0' + n) ∷ rest
  | false ↦ digits_onto fuel (n / 10) ((b'0' + n % 10) ∷ rest)
]

unfoldable pub uint_to_string : ℕ → Text
unfolding digits_onto
uint_to_string n = digits_onto (suc n) n []
