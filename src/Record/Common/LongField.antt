-- ===== src/Record/Common/LongField.antt =====
-- The chunks in which packages/dns-test/src/record.rs prints a long field.
use dnssec_tests.Base.{
  ℕ, suc, ◌+◌, ◌%◌, ◌≤◌, true, false, List, [], ◌∷◌, ◌++◌, append-nil, append_assoc, ◌≡◌, ◌≢◌, refl,
  sym, ap, ◌∙◌, arith, All, All-append, length, ◌==◌, Bool-cases, inl, inr,
}
use dnssec_tests.Text.{Text, format, is_whitespace}
use dnssec_tests.Text.Columns.{IsWord, Tail, done, more}
use dnssec_tests.Record.Common.{split_long_from, write_split_long_string, push_columns}

-- A field with no white space.
abbrev pub IsSolid : Text → Type 0
IsSolid = All (λ c. is_whitespace c ≡ false)

pub push_columns-format :
    (field : Text) (columns : List Text) → push_columns field columns ≡ field ++ format columns
unfolding push_columns
push_columns-format field [] = sym (append-nil field)
push_columns-format field (c ∷ cs) =
    push_columns-format (field ++ c) cs ∙ append_assoc field c (format cs)

-- The output from index `i` on: what is left of a chunk, and chunks of at most 56 characters.
record Chunked (i : ℕ) (s : Text) : Type 0 where
  first : Text
  text : Text
  chunks : List Text
  output : split_long_from i s ≡ first ++ text
  first_solid : IsSolid first
  first_fits : length first + i % 56 ≤ 56
  at_start : i % 56 ≡ 0 → first ≡ []
  tail : Tail text chunks
  short : All (λ w. length w ≤ 56) chunks
  joined : first ++ format chunks ≡ s

Chunked-start :
    (i c : ℕ) (s : Text)
    → i % 56 ≡ 0
    → is_whitespace c ≡ false
    → Chunked (suc i) s
    → Chunked i (c ∷ s)
unfolding split_long_from
Chunked-start i c s z h r =
    let e : (i % 56 == 0) ≡ true = ground arith in
    record {
      first = [];
      text = 32 ∷ ([] ++ ((c ∷ r.first) ++ r.text));
      chunks = (c ∷ r.first) ∷ r.chunks;
      output = rw e (rw r.output);
      first_solid = tt;
      first_fits = omega arith;
      at_start = λ _. refl;
      tail =
          more 32 [] (c ∷ r.first) (inr refl) tt
            (record { ne_nil = cc; solid = (h, r.first_solid) }) r.tail;
      short = (omega (arith, r.first_fits), r.short);
      joined = ap (λ t. c ∷ t) r.joined;
    }

first_fits_inside :
    (i n : ℕ) → i % 56 ≢ 0 → n + suc i % 56 ≤ 56 → (suc i % 56 ≡ 0 → n ≡ 0) → suc n + i % 56 ≤ 56
first_fits_inside i n z h k = elim (Bool-cases (suc i % 56 == 0)) [
  | inl e ↦ let q : n ≡ 0 = k (ground arith) in omega arith
  | inr e ↦ let q : suc i % 56 ≢ 0 = ground arith in omega arith
]

Chunked-inside :
    (i c : ℕ) (s : Text)
    → i % 56 ≢ 0
    → is_whitespace c ≡ false
    → Chunked (suc i) s
    → Chunked i (c ∷ s)
unfolding split_long_from
Chunked-inside i c s z h r =
    let e : (i % 56 == 0) ≡ false = ground arith in
    record {
      first = c ∷ r.first;
      text = r.text;
      chunks = r.chunks;
      output = rw e (rw r.output);
      first_solid = (h, r.first_solid);
      first_fits =
          first_fits_inside i (length r.first) z r.first_fits (λ e. ap length (r.at_start e));
      at_start = λ e. absurd (z e);
      tail = r.tail;
      short = r.short;
      joined = ap (λ t. c ∷ t) r.joined;
    }

IsSolid-Chunked : (i : ℕ) (s : Text) → IsSolid s → Chunked i s
unfolding split_long_from
IsSolid-Chunked i [] h = record {
  first = [];
  text = [];
  chunks = [];
  output = refl;
  first_solid = tt;
  first_fits = omega arith;
  at_start = λ _. refl;
  tail = done;
  short = tt;
  joined = refl;
}
IsSolid-Chunked i (c ∷ s) h = elim (Bool-cases (i % 56 == 0)) [
  | inl z ↦ Chunked-start i c s (ground arith) h.0 (IsSolid-Chunked (suc i) s h.1)
  | inr z ↦ Chunked-inside i c s (ground arith) h.0 (IsSolid-Chunked (suc i) s h.1)
]

-- The chunks of a long field.
pub record Chunks (field : Text) : Type 0 where
  pub columns : List Text
  pub tail : Tail (write_split_long_string field) columns
  pub short : All (λ w. length w ≤ 56) columns
  pub pushed : push_columns [] columns ≡ field

-- A field with no white space is printed as chunks of at most 56 characters, and pushing the
-- chunks one after another gives it back.
pub long_field : (field : Text) → IsSolid field → Chunks field
unfolding write_split_long_string
long_field field h =
    let c = IsSolid-Chunked 0 field h in
    let e = c.at_start refl in
    let o : split_long_from 0 field ≡ c.text = c.output ∙ rw e in
    record {
      columns = c.chunks;
      tail = rw o c.tail;
      short = c.short;
      pushed = push_columns-format [] c.chunks ∙ (rw e at c.joined);
    }

-- Columns are words, so a field that is put together from columns has no white space.
pub push_columns-IsSolid :
    (field : Text) (columns : List Text)
    → IsSolid field
    → All IsWord columns
    → IsSolid (push_columns field columns)
unfolding push_columns
push_columns-IsSolid field [] h hs = h
push_columns-IsSolid field (c ∷ cs) h hs =
    push_columns-IsSolid (field ++ c) cs (All-append _ field c h hs.0.solid) hs.1
