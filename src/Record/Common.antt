-- ===== src/Record/Common.antt =====
-- What the record types of packages/dns-test/src/record.rs share: the class, the checks of the
-- class and type columns, long fields, and DEFAULT_TTL of packages/dns-test/src/lib.rs.
pub mod LongField
use dnssec_tests.Base.{
  ℕ, zero, suc, ◌+◌, ◌*◌, ◌%◌, Bool, Option, none, some, List, [], ◌∷◌, ◌++◌, ◌==◌, if◌then◌else◌,
}
use dnssec_tests.Text.{Text, codes, equal, rsplit_once, format}
use dnssec_tests.Error.{Error, message, Result, ok, err}

abbrev pub default_ttl : ℕ
default_ttl = 24 * 60 * 60

abbrev pub class : Text
class = codes "IN"

unfoldable pub check_class : Text → Result (Unit {0})
unfolding equal
check_class name =
    if equal name class then ok tt else err (message (format (codes "unknown class: " ∷ name ∷ [])))

-- The argument is `any::type_name::<T>()`.
unfoldable pub unqualified_type_name : Text → Text
unfolding rsplit_once
unqualified_type_name name = elim (rsplit_once (codes ":") name) [
  | some (_, component) ↦ component
  | none ↦ name
]

-- `check_record_type::<T>`, with the type's name for `T`.
unfoldable pub check_record_type : Text → Text → Result (Unit {0})
unfolding unqualified_type_name equal
check_record_type type_name record_type =
    let expected = unqualified_type_name type_name in
    if equal record_type expected
    then ok tt
    else err (
        message (
          format (
            codes "tried to parse `"
            ∷ record_type
            ∷ codes "` record as an "
            ∷ expected
            ∷ codes " record"
            ∷ [])))

-- The loop over the characters, from index `index`.
pub split_long_from : ℕ → Text → Text
split_long_from index [] = []
split_long_from index (c ∷ s) =
    (if index % 56 == 0 then codes " " else []) ++ c ∷ split_long_from (suc index) s

unfoldable pub write_split_long_string : Text → Text
unfolding split_long_from
write_split_long_string = split_long_from 0

-- `for column in columns { field.push_str(column) }`.
unfoldable pub push_columns : Text → List Text → Text
push_columns field [] = field
push_columns field (column ∷ columns) = push_columns (field ++ column) columns
