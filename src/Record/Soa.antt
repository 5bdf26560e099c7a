-- ===== src/Record/Soa.antt =====
-- The SOA records of packages/dns-test/src/record.rs, and their way through the printer and the
-- parser.
use dnssec_tests.Base.{
  ℕ, ◌≤◌, List, [], ◌∷◌, ◌++◌, append-nil, append_assoc, ◌≡◌, refl, ◌∙◌, ap, All,
}
use dnssec_tests.Text.{Text, codes, format, split_whitespace, is_whitespace}
use dnssec_tests.Text.Columns.{
  IsWord, Tail, Row, row, tab, space, last_word, is_word, is_word-IsWord, split_whitespace-Row,
  split_whitespace-IsWord,
}
use dnssec_tests.Error.{
  message, Result, ok, err, ◌>>=◌, ◌>>◌, Ensures, Ensures-bind, Ensures-ok, Ensures-check,
  Ensures-err,
}
use dnssec_tests.Uint.{u32_max, parse_uint, uint_to_string}
use dnssec_tests.Uint.RoundTrip.{uint_to_string-IsWord, parse_uint-to_string, parse_uint-Ensures}
use dnssec_tests.Fqdn
use dnssec_tests.Fqdn.{Fqdn}
use dnssec_tests.Fqdn.Names
use dnssec_tests.Fqdn.Names.{IsName, from_str-inner}
use dnssec_tests.Record.Common.{class, check_class, check_record_type, unqualified_type_name}

pub record SoaSettings : Type 0 where
  pub serial : ℕ
  pub refresh : ℕ
  pub retry : ℕ
  pub expire : ℕ
  pub minimum : ℕ

-- `SoaSettings::default`.
abbrev pub default_settings : SoaSettings
default_settings = record {
  serial = 2024010101;
  refresh = 1800;
  retry = 900;
  expire = 604800;
  minimum = 86400;
}

unfoldable pub settings_to_string : SoaSettings → Text
settings_to_string settings = format (
    uint_to_string settings.serial
    ∷ codes " "
    ∷ uint_to_string settings.refresh
    ∷ codes " "
    ∷ uint_to_string settings.retry
    ∷ codes " "
    ∷ uint_to_string settings.expire
    ∷ codes " "
    ∷ uint_to_string settings.minimum
    ∷ [])

pub record Soa : Type 0 where
  pub zone : Fqdn
  pub ttl : ℕ
  pub nameserver : Fqdn
  pub admin : Fqdn
  pub settings : SoaSettings

abbrev type_name : Text
type_name = codes "dns_test::record::SOA"

unfoldable pub from_columns : List Text → Result Soa
unfolding check_class check_record_type
from_columns
      (zone ∷ ttl ∷ class ∷ record_type ∷ nameserver ∷ admin ∷ serial ∷ refresh ∷ retry ∷ expire
        ∷ minimum ∷ []) =
    do
      check_record_type type_name record_type
      check_class class
      zone ← Fqdn.from_str zone
      ttl ← parse_uint u32_max ttl
      nameserver ← Fqdn.from_str nameserver
      admin ← Fqdn.from_str admin
      serial ← parse_uint u32_max serial
      refresh ← parse_uint u32_max refresh
      retry ← parse_uint u32_max retry
      expire ← parse_uint u32_max expire
      minimum ← parse_uint u32_max minimum
      ok (record {
        zone = zone;
        ttl = ttl;
        nameserver = nameserver;
        admin = admin;
        settings = record {
          serial = serial;
          refresh = refresh;
          retry = retry;
          expire = expire;
          minimum = minimum;
        };
      })
from_columns _ = err (message (codes "expected 11 columns"))

unfoldable pub from_str : Text → Result Soa
unfolding from_columns split_whitespace
from_str input = from_columns (split_whitespace input)

unfoldable pub to_string : Soa → Text
to_string soa = format (
    soa.zone.inner
    ∷ codes "\t"
    ∷ uint_to_string soa.ttl
    ∷ codes "\t"
    ∷ class
    ∷ codes "\t"
    ∷ unqualified_type_name type_name
    ∷ codes "\t"
    ∷ soa.nameserver.inner
    ∷ codes " "
    ∷ soa.admin.inner
    ∷ codes " "
    ∷ settings_to_string soa.settings
    ∷ [])

pub record AreValid (settings : SoaSettings) : Type 0 where
  pub serial : settings.serial ≤ u32_max
  pub refresh : settings.refresh ≤ u32_max
  pub retry : settings.retry ≤ u32_max
  pub expire : settings.expire ≤ u32_max
  pub minimum : settings.minimum ≤ u32_max

pub record IsValid (soa : Soa) : Type 0 where
  pub zone : IsName soa.zone
  pub ttl : soa.ttl ≤ u32_max
  pub nameserver : IsName soa.nameserver
  pub admin : IsName soa.admin
  pub settings : AreValid soa.settings

abbrev settings_columns : SoaSettings → List Text
settings_columns settings =
    uint_to_string settings.serial
    ∷ uint_to_string settings.refresh
    ∷ uint_to_string settings.retry
    ∷ uint_to_string settings.expire
    ∷ uint_to_string settings.minimum
    ∷ []

abbrev pub columns : Soa → List Text
columns soa =
    soa.zone.inner
    ∷ uint_to_string soa.ttl
    ∷ class
    ∷ codes "SOA"
    ∷ soa.nameserver.inner
    ∷ soa.admin.inner
    ∷ settings_columns soa.settings

settings_Tail :
    (settings : SoaSettings) (w : Text)
    → IsWord w
    → Tail (32 ∷ (w ++ (32 ∷ (settings_to_string settings ++ [])))) (w ∷ settings_columns settings)
unfolding settings_to_string
settings_Tail settings w h =
    simp (append_assoc, append-nil)
      (space w h (
        space _ (uint_to_string-IsWord settings.serial) (
          space _ (uint_to_string-IsWord settings.refresh) (
            space _ (uint_to_string-IsWord settings.retry) (
              space _ (uint_to_string-IsWord settings.expire) (
                last_word (uint_to_string settings.minimum)
                  (uint_to_string-IsWord settings.minimum)))))))

pub to_string-Row : (soa : Soa) → IsValid soa → Row (to_string soa) (columns soa)
unfolding to_string unqualified_type_name is_word is_whitespace settings_to_string
to_string-Row soa v = row _ v.zone.word (
    tab _ (uint_to_string-IsWord soa.ttl) (
      tab class (is_word-IsWord _ refl) (
        tab (codes "SOA") (is_word-IsWord _ refl)
          (tab _ v.nameserver.word (settings_Tail soa.settings soa.admin.inner v.admin.word)))))

from_columns-columns : (soa : Soa) → IsValid soa → from_columns (columns soa) ≡ ok soa
unfolding from_columns
from_columns-columns soa v = rw (
  from_str-inner soa.zone v.zone,
  parse_uint-to_string u32_max soa.ttl v.ttl,
  from_str-inner soa.nameserver v.nameserver,
  from_str-inner soa.admin v.admin,
  parse_uint-to_string u32_max soa.settings.serial v.settings.serial,
  parse_uint-to_string u32_max soa.settings.refresh v.settings.refresh,
  parse_uint-to_string u32_max soa.settings.retry v.settings.retry,
  parse_uint-to_string u32_max soa.settings.expire v.settings.expire,
  parse_uint-to_string u32_max soa.settings.minimum v.settings.minimum,
)

-- A valid record is read back from its print.
pub from_str-to_string : (soa : Soa) → IsValid soa → from_str (to_string soa) ≡ ok soa
unfolding from_str
from_str-to_string soa v =
    ap from_columns (split_whitespace-Row (to_string-Row soa v)) ∙ from_columns-columns soa v

from_columns-Ensures : (cs : List Text) → All IsWord cs → Ensures IsValid (from_columns cs)
unfolding from_columns
from_columns-Ensures
      (zone ∷ ttl ∷ c ∷ record_type ∷ nameserver ∷ admin ∷ serial ∷ refresh ∷ retry ∷ expire
        ∷ minimum ∷ [])
      h =
    Ensures-check (check_record_type type_name record_type) (
      Ensures-check (check_class c) (
        Ensures-bind (Names.from_str-Ensures h.0) λ x0 h0.
          Ensures-bind (parse_uint-Ensures u32_max ttl) λ x1 h1.
            Ensures-bind (Names.from_str-Ensures h.1.1.1.1.0) λ x2 h2.
              Ensures-bind (Names.from_str-Ensures h.1.1.1.1.1.0) λ x3 h3.
                Ensures-bind (parse_uint-Ensures u32_max serial) λ y0 k0.
                  Ensures-bind (parse_uint-Ensures u32_max refresh) λ y1 k1.
                    Ensures-bind (parse_uint-Ensures u32_max retry) λ y2 k2.
                      Ensures-bind (parse_uint-Ensures u32_max expire) λ y3 k3.
                        Ensures-bind (parse_uint-Ensures u32_max minimum) λ y4 k4.
                          Ensures-ok _ (record {
                            zone = h0;
                            ttl = h1;
                            nameserver = h2;
                            admin = h3;
                            settings = record {
                              serial = k0;
                              refresh = k1;
                              retry = k2;
                              expire = k3;
                              minimum = k4;
                            };
                          })))
from_columns-Ensures _ h = Ensures-err _

-- What is read as a record is valid.
pub from_str-Ensures : (s : Text) → Ensures IsValid (from_str s)
unfolding from_str
from_str-Ensures s = from_columns-Ensures (split_whitespace s) (split_whitespace-IsWord s)
