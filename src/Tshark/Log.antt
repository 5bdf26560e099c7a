-- ===== src/Tshark/Log.antt =====
-- The log of tshark, which wait_for_capture reads, in packages/dns-test/src/tshark.rs.
use dnssec_tests.Base.{
  ℕ, true, false, Bool-cases, inl, inr, List, [], ◌∷◌, ◌++◌, ◌≡◌, append_assoc, ◌↔◌, refl, sym, ◌∙◌,
  ap, arith, map, All, ◌≤◌, if◌then◌else◌,
}
use dnssec_tests.Text.{Text, codes, contains}
use dnssec_tests.Text.Search.{rsplit_once-append, contains-append}
use dnssec_tests.Uint.RoundTrip.{parse_uint-to_string, uint_to_string-Lacks}
use dnssec_tests.Error.{Result, ok, err, panic}
use dnssec_tests.Uint.{u64_max, parse_uint, uint_to_string}
use dnssec_tests.Tshark.Run.{Tshark, packet_count, read_count, wait_for_capture}

abbrev pub new_packets : Text
new_packets = codes ": new packets "

-- The log begins with lines that do not tell of new packets, then one that does.
pub record IsLog (log : List (Result Text)) (line : Text) (rest : List (Result Text)) : Type 0 where
  pub before : List Text
  pub split : log ≡ map ok before ++ ok line ∷ rest
  pub silent : All (λ l. contains new_packets l ≡ false) before
  pub told : contains new_packets line ≡ true

read_count-IsLog :
    (log : List (Result Text)) (n : ℕ) (rest : List (Result Text))
    → read_count log ≡ (ok n, rest)
    → (line : Text) × IsLog log line rest × (packet_count line ≡ ok n)
unfolding read_count
read_count-IsLog [] n rest e = cc
read_count-IsLog (err error ∷ log) n rest e = cc
read_count-IsLog (panic text ∷ log) n rest e = cc
read_count-IsLog (ok line ∷ log) n rest e = elim (Bool-cases (contains new_packets line)) [
  | inl told ↦
      let h : (packet_count line, log) ≡ (ok n, rest) = rw (told, if◌then◌else◌) at e in
      (
        line,
        record { before = []; split = ap (λ p. ok line ∷ p.1) h; silent = tt; told = told },
        ap (λ p. p.0) h,
      )
  | inr silent ↦
      let h : read_count log ≡ (ok n, rest) = rw (silent, if◌then◌else◌) at e in
      let (last, is_log, count) = read_count-IsLog log n rest h in
      (
        last,
        record {
          before = line ∷ is_log.before;
          split = ap (λ l. ok line ∷ l) is_log.split;
          silent = (silent, is_log.silent);
          told = is_log.told;
        },
        count,
      )
]

read_count-skips :
    (before : List Text) (line : Text) (rest : List (Result Text))
    → All (λ l. contains new_packets l ≡ false) before
    → contains new_packets line ≡ true
    → read_count (map ok before ++ ok line ∷ rest) ≡ (packet_count line, rest)
unfolding read_count
read_count-skips [] line rest silent told = rw (told, if◌then◌else◌)
read_count-skips (l ∷ before) line rest silent told =
    rw (silent.0, if◌then◌else◌) (read_count-skips before line rest silent.1 told)

IsLog-read_count :
    (log : List (Result Text)) (line : Text) (rest : List (Result Text)) (n : ℕ)
    → IsLog log line rest
    → packet_count line ≡ ok n
    → read_count log ≡ (ok n, rest)
IsLog-read_count log line rest n h count =
    ap read_count h.split
    ∙ read_count-skips h.before line rest h.silent h.told
    ∙ ap (λ c. (c, rest)) count

-- wait_for_capture returns a count exactly when the log begins with readable lines that do not hold
-- `: new packets ` and then a line that does, whose text behind its last space is that count; the
-- lines behind it are left for the next call, and nothing else of the capture changes.
pub wait_for_capture_iff :
    (tshark tshark' : Tshark) (n : ℕ)
    → (wait_for_capture tshark ≡ (ok n, tshark')) ↔ (
        (line : Text) × IsLog tshark.stdout line tshark'.stdout
        × (packet_count line ≡ ok n)
        × (tshark' ≡ record tshark { stdout = tshark'.stdout }))
unfolding wait_for_capture
wait_for_capture_iff tshark tshark' n = (
  (λ e.
      let same : tshark' ≡ record tshark { stdout = (read_count tshark.stdout).1 } =
        sym (ap (λ p. p.1) e) in
      let rest : (read_count tshark.stdout).1 ≡ tshark'.stdout = ap (λ p. p.1.stdout) e in
      let (line, h, count) =
        read_count-IsLog tshark.stdout n tshark'.stdout (ap (λ p. (p.0, p.1.stdout)) e) in
      (line, h, count, same ∙ ap (λ r. record tshark { stdout = r }) rest)),
  (λ (line, h, count, same).
      let e = IsLog-read_count tshark.stdout line tshark'.stdout n h count in
      ap (λ p. (p.0, record tshark { stdout = p.1 })) e ∙ ap (λ t. (ok n, t)) (sym same)),
)

packet_count-append :
    (before : Text) (n : ℕ) → n ≤ u64_max → packet_count (before ++ b' ' ∷ uint_to_string n) ≡ ok n
unfolding packet_count parse_uint
packet_count-append before n h =
    rw
      (rsplit_once-append b' ' before (uint_to_string n)
        (uint_to_string-Lacks b' ' n (omega arith)))
      (parse_uint-to_string u64_max n h)

-- The number that tshark prints behind `: new packets ` is the count that is read.
packet_count-told :
    (origin : Text) (n : ℕ)
    → n ≤ u64_max
    → packet_count (origin ++ (new_packets ++ uint_to_string n)) ≡ ok n
unfolding packet_count parse_uint
packet_count-told origin n h =
    ap (λ s. packet_count s)
      (sym (append_assoc origin (codes ": new packets") (b' ' ∷ uint_to_string n)))
    ∙ packet_count-append (origin ++ codes ": new packets") n h

-- Behind any lines that do not tell of packets, wait_for_capture reads the number that tshark prints
-- behind `: new packets ` in the next line, whatever stands in front, up to the largest usize.
pub wait_for_capture-told :
    (tshark : Tshark) (before : List Text) (origin : Text) (n : ℕ) (rest : List (Result Text))
    → All (λ l. contains new_packets l ≡ false) before
    → n ≤ u64_max
    → wait_for_capture (record tshark {
      stdout = map ok before ++ ok (origin ++ (new_packets ++ uint_to_string n)) ∷ rest;
    })
      ≡ (ok n, record tshark { stdout = rest })
wait_for_capture-told tshark before origin n rest silent h =
    (wait_for_capture_iff _ (record tshark { stdout = rest }) n).1 (
      origin ++ (new_packets ++ uint_to_string n),
      record {
        before = before;
        split = refl;
        silent = silent;
        told = contains-append origin new_packets (uint_to_string n);
      },
      packet_count-told origin n h,
      refl,
    )
