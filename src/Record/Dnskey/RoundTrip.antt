-- ===== src/Record/Dnskey/RoundTrip.antt =====
-- DNSKEY records of packages/dns-test/src/record.rs through the printer and the parser, with or
-- without a comment behind them.
use dnssec_tests.Base.{ℕ, none, List, [], ◌∷◌, ◌++◌, ◌≡◌, ◌∙◌, ap, sym, subst, arith, All, All-map}
use dnssec_tests.Text.{Text, codes, format, split_whitespace, rsplit_once}
use dnssec_tests.Text.Columns.{split_whitespace-Row}
use dnssec_tests.Text.Lines.{trim_end-Row}
use dnssec_tests.Text.Splits.{Lacks}
use dnssec_tests.Text.Comments.{mark, rsplit_once-Row, rsplit_once-append}
use dnssec_tests.Error.{ok}
use dnssec_tests.Uint.{uint_to_string}
use dnssec_tests.Uint.RoundTrip.{IsDigit, uint_to_string-IsDigit}
use dnssec_tests.Record.Common.LongField.{long_field, push_columns-format}
use dnssec_tests.Record.Dnskey.{
  Dnskey, IsValid, from_str, from_columns, from_columns-columns, to_string, to_string-Row,
  strip_comment,
}

Lacks-columns : (ws : List Text) → Lacks b';' (format ws) → All (Lacks b';') ws
Lacks-columns [] h = tt
Lacks-columns (w ∷ ws) h = (front w h, Lacks-columns ws (back w h))
  where
    front : (w : Text) → Lacks b';' (w ++ format ws) → Lacks b';' w
    front [] h = tt
    front (c ∷ w) h = (h.0, front w h.1)

    back : (w : Text) → Lacks b';' (w ++ format ws) → Lacks b';' (format ws)
    back [] h = h
    back (c ∷ w) h = back w h.1

uint-Lacks : (n : ℕ) → Lacks b';' (uint_to_string n)
uint-Lacks n =
    All-map _ _ (λ c (h : IsDigit c). omega arith) (uint_to_string n) (uint_to_string-IsDigit n)

-- No column behind the zone holds a semicolon, if the key holds none.
columns-Lacks :
    (key : Dnskey) (v : IsValid key)
    → Lacks b';' key.public_key
    → rsplit_once mark (to_string key) ≡ none
columns-Lacks key v h =
    let chunks = long_field key.public_key v.public_key in
    let joined : format chunks.columns ≡ key.public_key =
      sym (push_columns-format [] chunks.columns) ∙ chunks.pushed in
    rsplit_once-Row (to_string-Row key v) (
      uint-Lacks key.ttl,
      (
        omega arith,
        (
          omega arith,
          (
            uint-Lacks key.flags,
            (
              uint-Lacks key.protocol,
              (
                uint-Lacks key.algorithm,
                Lacks-columns chunks.columns (subst (Lacks b';') (sym joined) h),
              ),
            ),
          ),
        ),
      ),
    )

from_columns-to_string :
    (key : Dnskey) → IsValid key → from_columns (split_whitespace (to_string key)) ≡ ok key
from_columns-to_string key v =
    let chunks = long_field key.public_key v.public_key in
    ap from_columns (split_whitespace-Row (to_string-Row key v))
    ∙ from_columns-columns key chunks.columns v chunks.pushed

-- A valid record whose key holds no semicolon is read back from its print.
pub from_str-to_string :
    (key : Dnskey) → IsValid key → Lacks b';' key.public_key → from_str (to_string key) ≡ ok key
unfolding from_str strip_comment
from_str-to_string key v h =
    rw (columns-Lacks key v h, strip_comment) (from_columns-to_string key v)

-- A comment behind a record is ignored, whatever the record's key holds, if the comment holds no
-- second mark.
pub from_str-comment :
    (key : Dnskey) (comment : Text)
    → IsValid key
    → rsplit_once (codes " ;") comment ≡ none
    → from_str (to_string key ++ (codes " ;" ++ comment)) ≡ ok key
unfolding from_str strip_comment
from_str-comment key comment v h =
    rw
      (
        rsplit_once-append (to_string key) comment h,
        strip_comment,
        trim_end-Row (to_string-Row key v),
      )
      (from_columns-to_string key v)
