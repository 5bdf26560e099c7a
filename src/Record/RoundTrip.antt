-- ===== src/Record/RoundTrip.antt =====
-- Records of every type through the printer and the parser of packages/dns-test/src/record.rs.
use dnssec_tests.Base.{Bool, true, false, ◌≡◌, if◌then◌else◌, get_elem?, ◌∙◌, sym}
use dnssec_tests.Text.{Text, codes, equal, split_whitespace}
use dnssec_tests.Error.{
  Result, ok, ok_or, Ensures, Ensures-bind, Ensures-ok, Ensures-err, Ensures-any,
}
use dnssec_tests.Record
use dnssec_tests.Record.{Record, from_str, to_string, parse_as}
use dnssec_tests.Record.Columns.{IsValid, HasPlainKey, fourth_column, type_column}

parse_as-to_string :
    (r : Record) → IsValid r → HasPlainKey r → parse_as (type_column r) (to_string r) ≡ ok r
unfolding parse_as to_string
parse_as-to_string (Record.a v) h k = rw (Record.A.from_str-to_string v h)
parse_as-to_string (Record.dnskey v) h k = rw (Record.Dnskey.RoundTrip.from_str-to_string v h k)
parse_as-to_string (Record.ds v) h k = rw (Record.Ds.from_str-to_string v h)
parse_as-to_string (Record.ns v) h k = rw (Record.Ns.from_str-to_string v h)
parse_as-to_string (Record.nsec3 v) h k = rw (Record.Nsec3.from_str-to_string v h)
parse_as-to_string (Record.nsec3param v) h k = rw (Record.Nsec3param.from_str-to_string v h)
parse_as-to_string (Record.rrsig v) h k = rw (Record.Rrsig.from_str-to_string v h)
parse_as-to_string (Record.soa v) h k = rw (Record.Soa.from_str-to_string v h)

-- A valid record of any type is read back from its print, if its key, for a DNSKEY record, holds no
-- semicolon.
pub from_str-to_string : (r : Record) → IsValid r → HasPlainKey r → from_str (to_string r) ≡ ok r
unfolding from_str
from_str-to_string r h k = rw (fourth_column r h, ok_or) (parse_as-to_string r h k)

choose :
    {m n : Result Record} (b : Bool)
    → Ensures IsValid m
    → Ensures IsValid n
    → Ensures IsValid (if b then m else n)
choose true h k = h
choose false h k = k

parse_as-Ensures : (record_type input : Text) → Ensures IsValid (parse_as record_type input)
unfolding parse_as
parse_as-Ensures t input =
    choose (equal t (codes "A"))
      (Ensures-bind (Record.A.from_str-Ensures input) λ v h. Ensures-ok (Record.a v) h)
      (choose (equal t (codes "DNSKEY"))
        (Ensures-bind (Record.Dnskey.from_str-Ensures input) λ v h. Ensures-ok (Record.dnskey v) h)
        (choose (equal t (codes "DS"))
          (Ensures-bind (Record.Ds.from_str-Ensures input) λ v h. Ensures-ok (Record.ds v) h)
          (choose (equal t (codes "NS"))
            (Ensures-bind (Record.Ns.from_str-Ensures input) λ v h. Ensures-ok (Record.ns v) h)
            (choose (equal t (codes "NSEC3"))
              (Ensures-bind (Record.Nsec3.from_str-Ensures input)
                λ v h. Ensures-ok (Record.nsec3 v) h)
              (choose (equal t (codes "NSEC3PARAM"))
                (Ensures-bind (Record.Nsec3param.from_str-Ensures input)
                  λ v h. Ensures-ok (Record.nsec3param v) h)
                (choose (equal t (codes "RRSIG"))
                  (Ensures-bind (Record.Rrsig.from_str-Ensures input)
                    λ v h. Ensures-ok (Record.rrsig v) h)
                  (choose (equal t (codes "SOA"))
                    (Ensures-bind (Record.Soa.from_str-Ensures input)
                      λ v h. Ensures-ok (Record.soa v) h)
                    (Ensures-err _))))))))

-- What is read as a record is valid.
pub from_str-Ensures : (s : Text) → Ensures IsValid (from_str s)
unfolding from_str
from_str-Ensures s =
    Ensures-bind (Ensures-any (ok_or _ (get_elem? (split_whitespace s) 3)))
      λ t _. parse_as-Ensures t s

-- Printing what was read and reading it again gives the same record, whatever the layout of the
-- text that it was read from, if its key, for a DNSKEY record, holds no semicolon.
pub from_str-to_string-from_str :
    (s : Text) {r : Record}
    → from_str s ≡ ok r
    → HasPlainKey r
    → from_str (to_string r) ≡ from_str s
from_str-to_string-from_str s {r} e k =
    from_str-to_string r ((from_str-Ensures s).holds r e) k ∙ sym e

-- Whatever text a record is read from, every integer in it fits the width of its field, and every name
-- in it is accepted by FQDN.
pub from_str_bounds : (s : Text) {r : Record} → from_str s ≡ ok r → IsValid r
from_str_bounds s {r} e = (from_str-Ensures s).holds r e
