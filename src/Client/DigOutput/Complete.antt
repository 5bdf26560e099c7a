-- ===== src/Client/DigOutput/Complete.antt =====
-- From a document to the result of `DigOutput::from_str` in packages/dns-test/src/client.rs.
use dnssec_tests.Base.{
  Option, none, some, List, [], ◌∷◌, ◌++◌, append-nil, append_assoc, ◌≡◌, refl, sym, ◌∙◌, subst,
  arith,
}
use dnssec_tests.Text.{Text, lines, split_once}
use dnssec_tests.Error.{Result, ok}
use dnssec_tests.Record.{Record}
use dnssec_tests.Client.DigFlags
use dnssec_tests.Client.DigStatus
use dnssec_tests.Client.ExtendedDnsError
use dnssec_tests.Client.DigOutput.{
  DigOutput, Found, nothing, once, code_of, flags_line, status_line, ede_line, read, read_answer,
  read_authority, from_str, unwrap_or_default,
}
use dnssec_tests.Client.DigOutput.Document.{
  Item, Section, eof, stop, entry, Shows, done, noise, flags, status, ede, answer, authority,
  flags_of, status_of, ede_of, answers_of, authorities_of, to_list, Gathers, IsSection, Describes,
}

-- Where another item still comes, there is none yet.
first_item {ℓ} :
    {A : Type ℓ} (o o' : Option A) (v : A) (vs : List A)
    → to_list o ++ v ∷ vs ≡ to_list o'
    → (o ≡ none) × (v ∷ vs ≡ to_list o')
first_item none o' v vs e = (refl, e)
first_item (some w) none v vs e = cc
first_item (some w) (some w') v vs e = cc

same_option {ℓ} : {A : Type ℓ} (o o' : Option A) → to_list o ++ [] ≡ to_list o' → o ≡ o'
same_option none none e = refl
same_option none (some w) e = cc
same_option (some v) none e = cc
same_option (some v) (some w) e = cc

once-none {ℓ κ} :
    {A : Type ℓ} {B : Type κ} (o : Option A) (prefix : Text) (next : Result B)
    → o ≡ none
    → once o prefix next ≡ next
once-none o prefix next e = subst (λ o'. once o' prefix next ≡ next) (sym e) refl

flags_line_lem :
    (found : Found) (u text after : Text) (v : DigFlags.DigFlags)
    → found.flags ≡ none
    → split_once b';' u ≡ some (text, after)
    → DigFlags.from_str text ≡ ok v
    → flags_line found u ≡ ok (record found { flags = some v })
unfolding flags_line
flags_line_lem found u text after v n c e = rw (c, n, e)

status_line_lem :
    (found : Found) (u text after : Text) (v : DigStatus.DigStatus)
    → found.status ≡ none
    → split_once b',' u ≡ some (text, after)
    → DigStatus.from_str text ≡ ok v
    → status_line found u ≡ ok (record found { status = some v })
unfolding status_line
status_line_lem found u text after v n c e = rw (c, n, e)

ede_line_lem :
    (found : Found) (u : Text) (v : ExtendedDnsError.ExtendedDnsError)
    → found.ede ≡ none
    → ExtendedDnsError.from_str (code_of u) ≡ ok v
    → ede_line found u ≡ ok (record found { ede = some v })
unfolding ede_line
ede_line_lem found u v n e = rw (n, e)

read_answer-Section :
    {ls rest : List Text} {rs : List Record} (found : Found) (records : List Record)
    → Section ls rs rest
    → read_answer found records ls ≡ read (record found { answer = some (records ++ rs) }) rest
unfolding read
read_answer-Section found records eof = rw append-nil
read_answer-Section found records (stop l e) = rw (e, append-nil, read_answer)
read_answer-Section found records (entry l r e f s) =
    rw (e, read_answer, f) (read_answer-Section found (records ++ r ∷ []) s ∙ rw append_assoc)

read_authority-Section :
    {ls rest : List Text} {rs : List Record} (found : Found) (records : List Record)
    → Section ls rs rest
    → read_authority found records ls
      ≡ read (record found { authority = some (records ++ rs) }) rest
unfolding read
read_authority-Section found records eof = rw append-nil
read_authority-Section found records (stop l e) = rw (e, append-nil, read_authority)
read_authority-Section found records (entry l r e f s) =
    rw (e, read_authority, f) (read_authority-Section found (records ++ r ∷ []) s ∙ rw append_assoc)

read-Shows :
    {ls : List Text} {items : List Item} {after : Found} (found : Found)
    → Shows ls items
    → Gathers found items after
    → read found ls ≡ ok after
unfolding read
read-Shows {after} found done g = ground (
  arith,
  same_option found.flags after.flags g.flags,
  same_option found.status after.status g.status,
  same_option found.ede after.ede g.ede,
  same_option found.answer after.answer g.answer,
  same_option found.authority after.authority g.authority,
)
read-Shows found (noise l b s) g = rw (b, read) (read-Shows found s g)
read-Shows {after} found (flags {items} l u text rest v b c e s) g =
    let (n, t) = first_item found.flags after.flags v (flags_of items) g.flags in
    rw (b, read, flags_line_lem found u text rest v n c e)
      (read-Shows (record found { flags = some v }) s
        (record {
          flags = t;
          status = g.status;
          ede = g.ede;
          answer = g.answer;
          authority = g.authority;
        }))
read-Shows {after} found (status {items} l u text rest v b c e s) g =
    let (n, t) = first_item found.status after.status v (status_of items) g.status in
    rw (b, read, status_line_lem found u text rest v n c e)
      (read-Shows (record found { status = some v }) s
        (record {
          flags = g.flags;
          status = t;
          ede = g.ede;
          answer = g.answer;
          authority = g.authority;
        }))
read-Shows {after} found (ede {items} l u v b e s) g =
    let (n, t) = first_item found.ede after.ede v (ede_of items) g.ede in
    rw (b, read, ede_line_lem found u v n e)
      (read-Shows (record found { ede = some v }) s
        (record {
          flags = g.flags;
          status = g.status;
          ede = t;
          answer = g.answer;
          authority = g.authority;
        }))
read-Shows {after} found (answer {rs} {items} l b c s) g =
    let (n, t) = first_item found.answer after.answer rs (answers_of items) g.answer in
    rw (b, read)
      (once-none found.answer _ _ n
        ∙ read_answer-Section found [] c
        ∙ read-Shows (record found { answer = some rs }) s
            (record {
              flags = g.flags;
              status = g.status;
              ede = g.ede;
              answer = t;
              authority = g.authority;
            }))
read-Shows {after} found (authority {rs} {items} l b c s) g =
    let (n, t) = first_item found.authority after.authority rs (authorities_of items) g.authority in
    rw (b, read)
      (once-none found.authority _ _ n
        ∙ read_authority-Section found [] c
        ∙ read-Shows (record found { authority = some rs }) s
            (record {
              flags = g.flags;
              status = g.status;
              ede = g.ede;
              answer = g.answer;
              authority = t;
            }))

-- The variables at the end of the loop, for a given result.
abbrev section_of : (sections : List (List Record)) → Option (List Record)
section_of [] = none
section_of (rs ∷ _) = some rs

abbrev final : List Item → DigOutput → Found
final items output = record {
  flags = some output.flags;
  status = some output.status;
  answer = section_of (answers_of items);
  authority = section_of (authorities_of items);
  ede = output.ede;
}

section_lem :
    (sections : List (List Record)) (records : List Record)
    → IsSection sections records
    → (sections ≡ to_list (section_of sections))
      × (unwrap_or_default (section_of sections) ≡ records)
section_lem [] records h = ground arith
section_lem (rs ∷ []) records h = ground arith
section_lem (rs ∷ qs ∷ more) records h = ground arith

-- A text that shows each part once, in any order and with any other lines between them, is read as
-- the output that it describes.
pub from_str-Describes :
    (input : Text) (items : List Item) (output : DigOutput)
    → Shows (lines input) items
    → Describes items output
    → from_str input ≡ ok output
unfolding from_str
from_str-Describes input items output s d =
    let (a, a') = section_lem (answers_of items) output.answer d.answer in
    let (b, b') = section_lem (authorities_of items) output.authority d.authority in
    let r : read nothing (lines input) ≡ ok (final items output) =
      read-Shows nothing s
        (record { flags = d.flags; status = d.status; ede = d.ede; answer = a; authority = b }) in
    rw (r, a', b')
