-- ===== src/ZoneFile/Lines.antt =====
-- What the parser of zone files makes of a file whose lines are blank or records.
use dnssec_tests.Base.{
  true, false, Option, none, some, List, [], ◌∷◌, ◌++◌, append_assoc, append-nil, ◌≡◌, refl, sym,
  ◌∙◌, arith, Bool-cases, inl, inr,
}
use dnssec_tests.Text.{Text, codes, is_empty, lines, trim}
use dnssec_tests.Error.{message, Result, ok, err, ◌>>=◌, bind-eq-ok}
use dnssec_tests.Record
use dnssec_tests.Record.{Record}
use dnssec_tests.Record.Soa.{Soa}
use dnssec_tests.ZoneFile.{ZoneFile, place, read_lines, finish, from_str}

-- Every line is blank or, trimmed, a record.
pub data Reads : List Text → List Record → Type 0 where
  done : Reads [] []
  blank :
      {rest : List Text} {rs : List Record} (text : Text)
      → is_empty (trim text) ≡ true
      → Reads rest rs
      → Reads (text ∷ rest) rs
  line :
      {rest : List Text} {rs : List Record} (text : Text) (r : Record)
      → is_empty (trim text) ≡ false
      → Record.from_str (trim text) ≡ ok r
      → Reads rest rs
      → Reads (text ∷ rest) (r ∷ rs)

abbrev pub soas : List Record → List Soa
soas [] = []
soas (Record.soa s ∷ rs) = s ∷ soas rs
soas (_ ∷ rs) = soas rs

abbrev pub others : List Record → List Record
others [] = []
others (Record.soa s ∷ rs) = others rs
others (r ∷ rs) = r ∷ others rs

-- A zone file has exactly one SOA record, anywhere among the others.
abbrev pub assemble : List Soa → List Record → Result ZoneFile
assemble [] records = err (message (codes "no SOA record found in zone file"))
assemble (soa ∷ []) records = ok (record { origin = soa.zone; soa = soa; records = records })
assemble (_ ∷ _ ∷ _) records = err (message (codes "found more than one SOA record"))

abbrev outcome : List Record → List Soa → Result (List Record × Option Soa)
outcome records [] = ok (records, none)
outcome records (soa ∷ []) = ok (records, some soa)
outcome records (_ ∷ _ ∷ _) = err (message (codes "found more than one SOA record"))

abbrev to_list : Option Soa → List Soa
to_list none = []
to_list (some soa) = soa ∷ []

-- One record is placed, and the lines behind it are read.
outcome-place :
    (acc : List Record) (m : Option Soa) (r : Record) (rs : List Record) (rest : List Text)
    → ((acc' : List Record) (m' : Option Soa)
        → read_lines acc' m' rest ≡ outcome (acc' ++ others rs) (to_list m' ++ soas rs))
    → (place acc m r >>= λ (acc', m'). read_lines acc' m' rest)
      ≡ outcome (acc ++ others (r ∷ rs)) (to_list m ++ soas (r ∷ rs))
unfolding place
outcome-place acc none (Record.soa s) rs rest ih = ih acc (some s)
outcome-place acc (some t) (Record.soa s) rs rest ih = refl
outcome-place acc none (Record.a v) rs rest ih = ih (acc ++ Record.a v ∷ []) none ∙ rw append_assoc
outcome-place acc none r rs rest ih = ih (acc ++ r ∷ []) none ∙ rw append_assoc
outcome-place acc (some t) r rs rest ih = ih (acc ++ r ∷ []) (some t) ∙ rw append_assoc

outcome-read_lines :
    {ls : List Text} {rs : List Record}
    → Reads ls rs
    → (acc : List Record) (m : Option Soa)
    → read_lines acc m ls ≡ outcome (acc ++ others rs) (to_list m ++ soas rs)
unfolding read_lines
outcome-read_lines done acc none = rw append-nil
outcome-read_lines done acc (some s) = rw append-nil
outcome-read_lines (blank text e h) acc m = rw (e, read_lines) (outcome-read_lines h acc m)
outcome-read_lines (line {rest} {rs} text r e f h) acc m =
    rw (e, read_lines, f) (outcome-place acc m r rs rest (outcome-read_lines h))

outcome-finish :
    (records : List Record) (ss : List Soa) → (outcome records ss >>= finish) ≡ assemble ss records
outcome-finish records [] = refl
outcome-finish records (s ∷ []) = refl
outcome-finish records (s ∷ t ∷ ss) = refl

-- If every line is blank or a record, the result depends on the records alone: the SOA record may
-- stand anywhere, the others keep their order, and no or a second SOA record is an error.
pub from_str-Reads :
    (input : Text) {rs : List Record}
    → Reads (lines input) rs
    → from_str input ≡ assemble (soas rs) (others rs)
unfolding from_str
from_str-Reads input {rs} h =
    rw (outcome-read_lines h [] none) (outcome-finish (others rs) (soas rs))

-- Reading succeeds only if every line is blank or a record.
read_lines-Reads :
    (ls : List Text) (acc : List Record) (m : Option Soa) (p : List Record × Option Soa)
    → read_lines acc m ls ≡ ok p
    → (rs : List Record) × Reads ls rs
unfolding read_lines
read_lines-Reads [] acc m p e = ([], done)
read_lines-Reads (l ∷ ls) acc m p e = elim (Bool-cases (is_empty (trim l))) [
  | inl b ↦ let (rs, h) = read_lines-Reads ls acc m p (rw (b, read_lines) at e) in (rs, blank l b h)
  | inr b ↦
      let (r, er, e') = bind-eq-ok (Record.from_str (trim l)) _ (rw (b, read_lines) at e) in
      let (q, eq, e'') = bind-eq-ok (place acc m r) _ e' in
      let (rs, h) = read_lines-Reads ls q.0 q.1 p e'' in (r ∷ rs, line l r b er h)
]

-- A zone file that is read stands on lines that are blank or records, with exactly one SOA record;
-- its records are all the others, in order, and its origin is the zone of the SOA record.
pub Reads-from_str :
    (input : Text) {z : ZoneFile}
    → from_str input ≡ ok z
    → (rs : List Record) × Reads (lines input) rs
      × (soas rs ≡ z.soa ∷ [])
      × (others rs ≡ z.records)
      × (z.origin ≡ z.soa.zone)
unfolding from_str
Reads-from_str input {z} e =
    let (p, ep, _) = bind-eq-ok (read_lines [] none (lines input)) finish e in
    let (rs, h) = read_lines-Reads (lines input) [] none p ep in
    let a : assemble (soas rs) (others rs) ≡ ok z = sym (from_str-Reads input h) ∙ e in
    let (x, y, w) = shape (soas rs) (others rs) a in (rs, h, x, y, w)
  where
    shape :
        (ss : List Soa) (os : List Record)
        → assemble ss os ≡ ok z
        → (ss ≡ z.soa ∷ []) × (os ≡ z.records) × (z.origin ≡ z.soa.zone)
    shape [] os a = cc
    shape (s ∷ []) os a = ground arith
    shape (s ∷ t ∷ ss) os a = cc
