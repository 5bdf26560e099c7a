-- ===== src/ZoneFile/RoundTrip.antt =====
-- Zone files through the printer and the parser of packages/dns-test/src/zone_file/mod.rs.
use dnssec_tests.Base.{
  false, Option, none, some, List, [], ◌∷◌, ◌++◌, append_assoc, append-nil, ◌≡◌, refl, ap, ◌∙◌, sym,
  All, arith,
}
use dnssec_tests.Text.{Text, newline, is_empty, lines}
use dnssec_tests.Text.Columns.{Row, row}
use dnssec_tests.Text.Lines.{lines-inline, trim-Row, Row-IsInline}
use dnssec_tests.Error.{ok, ◌>>=◌}
use dnssec_tests.Record
use dnssec_tests.Record.{Record, is_soa}
use dnssec_tests.Record.Soa.{Soa}
use dnssec_tests.Record.Columns.{HasPlainKey, printed}
use dnssec_tests.Record.RoundTrip
use dnssec_tests.ZoneFile.{ZoneFile, to_string, write_records, place, read_lines, from_str}

-- A record that a zone file can hold beside its SOA record.
pub record IsEntry (r : Record) : Type 0 where
  pub valid : Record.Columns.IsValid r
  pub plain : HasPlainKey r
  pub not_soa : is_soa r ≡ false

pub record IsValid (z : ZoneFile) : Type 0 where
  pub origin : z.origin ≡ z.soa.zone
  pub soa : Record.Soa.IsValid z.soa
  pub records : All IsEntry z.records

is_empty-Row : {s : Text} {ws : List Text} → Row s ws → is_empty s ≡ false
is_empty-Row (row [] h t) = absurd (h.ne_nil refl)
is_empty-Row (row (c ∷ w) h t) = refl

-- One printed record is one line that is read as that record.
read_lines-record :
    (r : Record) (rest : Text) (records : List Record) (maybe_soa : Option Soa)
    → Record.Columns.IsValid r
    → HasPlainKey r
    → read_lines records maybe_soa (lines ((Record.to_string r ++ newline ∷ []) ++ rest)) ≡ (
        place records maybe_soa r >>= λ (records', maybe_soa').
        read_lines records' maybe_soa' (lines rest))
unfolding read_lines
read_lines-record r rest records maybe_soa h k =
    let p = printed r h in
    rw (
      append_assoc,
      lines-inline (Record.to_string r) rest (Row-IsInline p.row),
      read_lines,
      trim-Row p.row,
      is_empty-Row p.row,
      trim-Row p.row,
      Record.RoundTrip.from_str-to_string r h k,
    )

place-IsEntry :
    (r : Record) (records : List Record) (maybe_soa : Option Soa)
    → is_soa r ≡ false
    → place records maybe_soa r ≡ ok (records ++ r ∷ [], maybe_soa)
unfolding place is_soa
place-IsEntry (Record.soa s) records maybe_soa h = cc
place-IsEntry (Record.a _) records maybe_soa h = ground arith
place-IsEntry _ records maybe_soa h = ground arith

read_lines-records :
    (rs records : List Record) (soa : Soa)
    → All IsEntry rs
    → read_lines records (some soa) (lines (write_records rs)) ≡ ok (records ++ rs, some soa)
unfolding write_records
read_lines-records [] records soa h = unfold read_lines lines in rw append-nil
read_lines-records (r ∷ rs) records soa h =
    read_lines-record r (write_records rs) records (some soa) h.0.valid h.0.plain
    ∙ rw (place-IsEntry r records (some soa) h.0.not_soa)
        (read_lines-records rs (records ++ r ∷ []) soa h.1 ∙ rw append_assoc)

-- The first line of a printed zone file.
soa_line :
    (z : ZoneFile)
    → IsValid z
    → read_lines [] none
        (lines ((Record.Soa.to_string z.soa ++ newline ∷ []) ++ write_records z.records))
      ≡ (place [] none (Record.soa z.soa) >>= λ (records', maybe_soa').
          read_lines records' maybe_soa' (lines (write_records z.records)))
soa_line z v =
    unfold Record.to_string in
    read_lines-record (Record.soa z.soa) (write_records z.records) [] none v.soa tt

-- A valid zone file is read back from its print: the same origin, SOA record and records, in order.
pub from_str-to_string-IsValid : (z : ZoneFile) → IsValid z → from_str (to_string z) ≡ ok z
unfolding from_str to_string
from_str-to_string-IsValid z v =
    rw (soa_line z v, place, read_lines-records z.records [] z.soa v.records)
      (ap (λ o. ok (record { origin = o; soa = z.soa; records = z.records })) (sym v.origin))
