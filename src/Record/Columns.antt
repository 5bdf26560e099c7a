-- ===== src/Record/Columns.antt =====
-- The columns of records of every type in packages/dns-test/src/record.rs.
use dnssec_tests.Base.{List, some, ◌≡◌, refl, get_elem?, ap, ◌∙◌}
use dnssec_tests.Text.{Text, codes, split_whitespace}
use dnssec_tests.Text.Columns.{Row, split_whitespace-Row}
use dnssec_tests.Text.Splits.{Lacks}
use dnssec_tests.Record
use dnssec_tests.Record.{Record, to_string}

-- What the parser guarantees of its results.
abbrev pub IsValid : Record → Type 0
IsValid (Record.a v) = Record.A.IsValid v
IsValid (Record.dnskey v) = Record.Dnskey.IsValid v
IsValid (Record.ds v) = Record.Ds.IsValid v
IsValid (Record.ns v) = Record.Ns.IsValid v
IsValid (Record.nsec3 v) = Record.Nsec3.IsValid v
IsValid (Record.nsec3param v) = Record.Nsec3param.IsValid v
IsValid (Record.rrsig v) = Record.Rrsig.IsValid v
IsValid (Record.soa v) = Record.Soa.IsValid v

-- A semicolon in the key of a DNSKEY record may begin a comment.
abbrev pub HasPlainKey : Record → Type 0
HasPlainKey (Record.dnskey v) = Lacks b';' v.public_key
HasPlainKey _ = Unit

abbrev pub type_column : Record → Text
type_column (Record.a _) = codes "A"
type_column (Record.dnskey _) = codes "DNSKEY"
type_column (Record.ds _) = codes "DS"
type_column (Record.ns _) = codes "NS"
type_column (Record.nsec3 _) = codes "NSEC3"
type_column (Record.nsec3param _) = codes "NSEC3PARAM"
type_column (Record.rrsig _) = codes "RRSIG"
type_column (Record.soa _) = codes "SOA"

pub record Printed (r : Record) : Type 0 where
  pub columns : List Text
  pub row : Row (to_string r) columns
  pub fourth : get_elem? columns 3 ≡ some (type_column r)

pub printed : (r : Record) → IsValid r → Printed r
unfolding to_string
printed (Record.a v) h = record { columns = _; row = Record.A.to_string-Row v h; fourth = refl }
printed (Record.dnskey v) h = record {
  columns = _;
  row = Record.Dnskey.to_string-Row v h;
  fourth = refl;
}
printed (Record.ds v) h = record { columns = _; row = Record.Ds.to_string-Row v h; fourth = refl }
printed (Record.ns v) h = record { columns = _; row = Record.Ns.to_string-Row v h; fourth = refl }
printed (Record.nsec3 v) h = record {
  columns = _;
  row = Record.Nsec3.to_string-Row v h;
  fourth = refl;
}
printed (Record.nsec3param v) h = record {
  columns = _;
  row = Record.Nsec3param.to_string-Row v h;
  fourth = refl;
}
printed (Record.rrsig v) h = record {
  columns = _;
  row = Record.Rrsig.to_string-Row v h;
  fourth = refl;
}
printed (Record.soa v) h = record { columns = _; row = Record.Soa.to_string-Row v h; fourth = refl }

-- The fourth column of a printed record is its type.
pub fourth_column :
    (r : Record) → IsValid r → get_elem? (split_whitespace (to_string r)) 3 ≡ some (type_column r)
fourth_column r h =
    let p = printed r h in ap (λ cs. get_elem? cs 3) (split_whitespace-Row p.row) ∙ p.fourth
