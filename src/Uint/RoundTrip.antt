-- ===== src/Uint/RoundTrip.antt =====
-- Integers through their printer and parser.
use dnssec_tests.Base.{
  ℕ, zero, suc, ◌+◌, ◌-◌, ◌*◌, ◌/◌, ◌%◌, ◌≤◌, ◌<◌, false, [], ◌∷◌, ◌≡◌, ◌≢◌, refl, ◌∙◌, arith, All,
  All-map, ltb, ◌==◌, if◌then◌else◌, Bool-cases, inl, inr,
}
use dnssec_tests.Text.{Text, is_whitespace}
use dnssec_tests.Text.Columns.{IsWord}
use dnssec_tests.Text.Splits.{Lacks}
use dnssec_tests.Error.{ok, Ensures}
use dnssec_tests.Uint.{scan, parse_uint, digits_onto, uint_to_string}

abbrev pub IsDigit : ℕ → Type 0
IsDigit c = (b'0' ≤ c) × (c ≤ b'9')

digits_onto-IsDigit :
    (fuel n : ℕ) (rest : Text) → All IsDigit rest → All IsDigit (digits_onto fuel n rest)
unfolding digits_onto
digits_onto-IsDigit zero n rest h = h
digits_onto-IsDigit (suc fuel) n rest h = elim (Bool-cases (ltb n 10)) [
  | inl small ↦ rw (small, digits_onto) (ground arith, h)
  | inr large ↦
      rw (large, digits_onto)
        (digits_onto-IsDigit fuel (n / 10) ((b'0' + n % 10) ∷ rest) (omega arith, h))
]

digits_onto-ne-nil : (fuel n : ℕ) (rest : Text) → rest ≢ [] → digits_onto fuel n rest ≢ []
unfolding digits_onto
digits_onto-ne-nil zero n rest h = h
digits_onto-ne-nil (suc fuel) n rest h = elim (Bool-cases (ltb n 10)) [
  | inl small ↦ rw (small, digits_onto) (cc)
  | inr large ↦
      rw (large, digits_onto) (digits_onto-ne-nil fuel (n / 10) ((b'0' + n % 10) ∷ rest) (cc))
]

-- Reading the last digit of `n` behind the digits before it gives `n`.
scan_last :
    (max n : ℕ) (rest : Text)
    → n ≤ max
    → scan max (n / 10) ((b'0' + n % 10) ∷ rest) ≡ scan max n rest
unfolding scan
scan_last max n rest h = ground arith

scan-digits_onto :
    (max fuel n : ℕ) (rest : Text)
    → n < fuel
    → n ≤ max
    → scan max 0 (digits_onto fuel n rest) ≡ scan max n rest
unfolding digits_onto
scan-digits_onto max zero n rest lt h = absurd (omega arith)
scan-digits_onto max (suc fuel) n rest lt h = elim (Bool-cases (ltb n 10)) [
  | inl small ↦ rw (small, digits_onto) (unfold scan in ground arith)
  | inr large ↦
      rw (large, digits_onto)
        (scan-digits_onto max fuel (n / 10) ((b'0' + n % 10) ∷ rest) (ground arith) (omega arith)
          ∙ scan_last max n rest h)
]

parse_uint-scan : (max : ℕ) (s : Text) → All IsDigit s → s ≢ [] → parse_uint max s ≡ scan max 0 s
unfolding parse_uint
parse_uint-scan max [] h ne = absurd (ne refl)
parse_uint-scan max (c ∷ []) h ne = refl
parse_uint-scan max (c ∷ d ∷ s) h ne =
    let e : (c == b'+') ≡ false = ground arith in rw (e, if◌then◌else◌)

pub uint_to_string-IsDigit : (n : ℕ) → All IsDigit (uint_to_string n)
unfolding uint_to_string
uint_to_string-IsDigit n = digits_onto-IsDigit (suc n) n [] tt

pub uint_to_string-ne-nil : (n : ℕ) → uint_to_string n ≢ []
unfolding uint_to_string
uint_to_string-ne-nil n = elim (Bool-cases (ltb n 10)) [
  | inl small ↦ rw (small, digits_onto) (cc)
  | inr large ↦ rw (large, digits_onto) (digits_onto-ne-nil n (n / 10) ((b'0' + n % 10) ∷ []) (cc))
]

digit-solid : (c : ℕ) → IsDigit c → is_whitespace c ≡ false
unfolding is_whitespace
digit-solid c h = ground arith

-- A printed integer is one column.
pub uint_to_string-IsWord : (n : ℕ) → IsWord (uint_to_string n)
uint_to_string-IsWord n = record {
  ne_nil = uint_to_string-ne-nil n;
  solid = All-map _ _ digit-solid (uint_to_string n) (uint_to_string-IsDigit n);
}

-- An integer in range is read back from its decimal print.
pub parse_uint-to_string : (max n : ℕ) → n ≤ max → parse_uint max (uint_to_string n) ≡ ok n
parse_uint-to_string max n h =
    parse_uint-scan max _ (uint_to_string-IsDigit n) (uint_to_string-ne-nil n)
    ∙ (unfold uint_to_string scan in scan-digits_onto max (suc n) n [] (omega arith) h)

pub scan_bounds : (max n : ℕ) (s : Text) (r : ℕ) → n ≤ max → scan max n s ≡ ok r → r ≤ max
unfolding scan
scan_bounds max n [] r h e = ground arith
scan_bounds max n (c ∷ s) r h e = ground (arith, scan_bounds max (n * 10 + (c - b'0')) s r)

-- An accepted integer is in range: nothing wraps around.
pub parse_uint_bounds : (max : ℕ) (s : Text) {r : ℕ} → parse_uint max s ≡ ok r → r ≤ max
unfolding parse_uint
parse_uint_bounds max [] e = cc
parse_uint_bounds max (c ∷ []) {r} e = scan_bounds max 0 (c ∷ []) r (omega arith) e
parse_uint_bounds max (c ∷ d ∷ s) {r} e = elim (Bool-cases (c == b'+')) [
  | inl plus ↦ scan_bounds max 0 (d ∷ s) r (omega arith) (rw (plus, if◌then◌else◌) at e)
  | inr digit ↦ scan_bounds max 0 (c ∷ d ∷ s) r (omega arith) (rw (digit, if◌then◌else◌) at e)
]

pub parse_uint-Ensures : (max : ℕ) (s : Text) → Ensures (λ n. n ≤ max) (parse_uint max s)
parse_uint-Ensures max s = record { holds = λ n e. parse_uint_bounds max s e }

IsDigit-Lacks : (d : ℕ) (s : Text) → d < b'0' → All IsDigit s → Lacks d s
IsDigit-Lacks d [] h digits = tt
IsDigit-Lacks d (c ∷ s) h digits = (ground (arith, digits.0), IsDigit-Lacks d s h digits.1)

-- A sign or a space is no digit.
pub uint_to_string-Lacks : (d n : ℕ) → d < b'0' → Lacks d (uint_to_string n)
uint_to_string-Lacks d n h = IsDigit-Lacks d (uint_to_string n) h (uint_to_string-IsDigit n)
