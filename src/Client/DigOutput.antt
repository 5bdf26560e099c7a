-- ===== src/Client/DigOutput.antt =====
-- `DigOutput` of packages/dns-test/src/client.rs: the parser of the text that dig prints.
pub mod Document
pub mod Steps
pub mod Sound
pub mod Complete
use dnssec_tests.Base.{Bool, true, false, Option, none, some, List, [], ◌∷◌, ◌++◌, if◌then◌else◌}
use dnssec_tests.Text.{Text, codes, format, is_empty, lines, split_once, starts_with, strip_prefix}
use dnssec_tests.Error.{Error, message, Result, ok, err, ◌>>=◌, ok_or}
use dnssec_tests.Record
use dnssec_tests.Record.{Record}
use dnssec_tests.Client.DigFlags
use dnssec_tests.Client.DigFlags.{DigFlags}
use dnssec_tests.Client.DigStatus
use dnssec_tests.Client.DigStatus.{DigStatus}
use dnssec_tests.Client.ExtendedDnsError
use dnssec_tests.Client.ExtendedDnsError.{ExtendedDnsError}

pub record DigOutput : Type 0 where
  pub ede : Option ExtendedDnsError
  pub flags : DigFlags
  pub status : DigStatus
  pub answer : List Record
  pub authority : List Record

abbrev pub flags_prefix : Text
flags_prefix = codes ";; flags: "

abbrev pub status_prefix : Text
status_prefix = codes ";; ->>HEADER<<- opcode: QUERY, status: "

abbrev pub ede_prefix : Text
ede_prefix = codes "; EDE: "

abbrev pub answer_header : Text
answer_header = codes ";; ANSWER SECTION:"

abbrev pub authority_header : Text
authority_header = codes ";; AUTHORITY SECTION:"

abbrev pub not_found : Text → Error
not_found prefix = message (format (codes "`" ∷ prefix ∷ codes "` line was not found" ∷ []))

abbrev pub more_than_once : Text → Error
more_than_once prefix =
    message (format (codes "`" ∷ prefix ∷ codes "` line was found more than once" ∷ []))

abbrev pub missing : Text → Text → Error
missing prefix delimiter =
    message (format (codes "`" ∷ prefix ∷ codes "` line is missing a " ∷ delimiter ∷ []))

-- The local variables of `DigOutput::from_str`.
pub record Found : Type 0 where
  pub flags : Option DigFlags
  pub status : Option DigStatus
  pub answer : Option (List Record)
  pub authority : Option (List Record)
  pub ede : Option ExtendedDnsError

abbrev pub nothing : Found
nothing = record { flags = none; status = none; answer = none; authority = none; ede = none }

-- `if variable.is_some() { return Err(more_than_once(prefix)) }`.
abbrev pub once {ℓ κ} : {A : Type ℓ} {B : Type κ} → Option A → Text → Result B → Result B
once none prefix next = next
once (some _) prefix next = err (more_than_once prefix)

unfoldable pub flags_line : Found → Text → Result Found
flags_line found unprefixed =
    ok_or (missing flags_prefix (codes "semicolon (;)")) (split_once b';' unprefixed)
    >>= λ (flags_text, _).
        once found.flags flags_prefix
          (do flags ← DigFlags.from_str flags_text; ok (record found { flags = some flags }))

unfoldable pub status_line : Found → Text → Result Found
status_line found unprefixed =
    ok_or (missing status_prefix (codes "comma (,)")) (split_once b',' unprefixed)
    >>= λ (status_text, _).
        once found.status status_prefix
          (do status ← DigStatus.from_str status_text; ok (record found { status = some status }))

-- The code ends at the first space, or with the line.
abbrev pub code_of : Text → Text
code_of unprefixed = elim (split_once b' ' unprefixed) [ some (code, _) ↦ code | none ↦ unprefixed ]

unfoldable pub ede_line : Found → Text → Result Found
ede_line found unprefixed =
    once found.ede ede_prefix (do
      ede ← ExtendedDnsError.from_str (code_of unprefixed)
      ok (record found { ede = some ede }))

-- The branches of the loop's body, by the tests of its `if` and `else if`.
pub data Branch : Type 0 where
  at_flags at_status at_ede : Text → Branch
  at_answer at_authority at_other : Branch

branch_headers : Text → Branch
unfolding starts_with
branch_headers line =
    if starts_with answer_header line
    then Branch.at_answer
    else if starts_with authority_header line
    then Branch.at_authority
    else Branch.at_other

branch_ede : Text → Branch
unfolding branch_headers
branch_ede line = elim (strip_prefix ede_prefix line) [
  | some unprefixed ↦ Branch.at_ede unprefixed
  | none ↦ branch_headers line
]

branch_status : Text → Branch
unfolding branch_ede
branch_status line = elim (strip_prefix status_prefix line) [
  | some unprefixed ↦ Branch.at_status unprefixed
  | none ↦ branch_ede line
]

unfoldable pub branch : Text → Branch
unfolding branch_status strip_prefix
branch line = elim (strip_prefix flags_prefix line) [
  | some unprefixed ↦ Branch.at_flags unprefixed
  | none ↦ branch_status line
]

-- The `while let` loop over the lines, and the two `for` loops over `lines.by_ref()`, which end at
-- an empty line or with the text.
unfoldable mutual
  pub read : Found → List Text → Result Found
  read found [] = ok found
  read found (line ∷ rest) = elim (branch line) [
    | Branch.at_flags unprefixed ↦ flags_line found unprefixed >>= λ found'. read found' rest
    | Branch.at_status unprefixed ↦ status_line found unprefixed >>= λ found'. read found' rest
    | Branch.at_ede unprefixed ↦ ede_line found unprefixed >>= λ found'. read found' rest
    | Branch.at_answer ↦ once found.answer answer_header (read_answer found [] rest)
    | Branch.at_authority ↦ once found.authority authority_header (read_authority found [] rest)
    | Branch.at_other ↦ read found rest
  ]

  pub read_answer : Found → List Record → List Text → Result Found
  read_answer found records [] = ok (record found { answer = some records })
  read_answer found records (line ∷ rest) = elim (is_empty line) [
    | true ↦ read (record found { answer = some records }) rest
    | false ↦ Record.from_str line >>= λ r. read_answer found (records ++ r ∷ []) rest
  ]

  pub read_authority : Found → List Record → List Text → Result Found
  read_authority found records [] = ok (record found { authority = some records })
  read_authority found records (line ∷ rest) = elim (is_empty line) [
    | true ↦ read (record found { authority = some records }) rest
    | false ↦ Record.from_str line >>= λ r. read_authority found (records ++ r ∷ []) rest
  ]

-- `Option::unwrap_or_default` of a list.
abbrev pub unwrap_or_default {ℓ} : {A : Type ℓ} → Option (List A) → List A
unwrap_or_default none = []
unwrap_or_default (some xs) = xs

abbrev pub finish : Found → Result DigOutput
finish found = do
  flags ← ok_or (not_found flags_prefix) found.flags
  status ← ok_or (not_found status_prefix) found.status
  ok (record {
    ede = found.ede;
    flags = flags;
    status = status;
    answer = unwrap_or_default found.answer;
    authority = unwrap_or_default found.authority;
  })

unfoldable pub from_str : Text → Result DigOutput
unfolding read branch flags_line status_line ede_line lines
from_str input = read nothing (lines input) >>= finish
