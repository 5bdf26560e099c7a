-- ===== src/Client/DigOutput/Document.antt =====
-- The texts that the parser of dig's output accepts, as items in the order of their lines.
use dnssec_tests.Base.{true, false, Option, none, some, List, [], ◌∷◌, ◌++◌, ◌≡◌, ◌⊎◌}
use dnssec_tests.Text.{Text, is_empty, split_once}
use dnssec_tests.Error.{ok}
use dnssec_tests.Record
use dnssec_tests.Record.{Record}
use dnssec_tests.Client.DigFlags
use dnssec_tests.Client.DigFlags.{DigFlags}
use dnssec_tests.Client.DigStatus
use dnssec_tests.Client.DigStatus.{DigStatus}
use dnssec_tests.Client.ExtendedDnsError
use dnssec_tests.Client.ExtendedDnsError.{ExtendedDnsError}
use dnssec_tests.Client.DigOutput.{DigOutput, Found, Branch, branch, code_of}

pub data Item : Type 0 where
  flags_item : DigFlags → Item
  status_item : DigStatus → Item
  ede_item : ExtendedDnsError → Item
  answer_item : List Record → Item
  authority_item : List Record → Item

-- A section's lines are records, up to an empty line or the end of the text.
pub data Section : List Text → List Record → List Text → Type 0 where
  eof : Section [] [] []
  stop : {rest : List Text} (l : Text) → is_empty l ≡ true → Section (l ∷ rest) [] rest
  entry :
      {ls rest : List Text} {rs : List Record} (l : Text) (r : Record)
      → is_empty l ≡ false
      → Record.from_str l ≡ ok r
      → Section ls rs rest
      → Section (l ∷ ls) (r ∷ rs) rest

-- The lines show the items, with lines of other kinds between them.
pub data Shows : List Text → List Item → Type 0 where
  done : Shows [] []
  noise :
      {ls : List Text} {items : List Item} (l : Text)
      → branch l ≡ Branch.at_other
      → Shows ls items
      → Shows (l ∷ ls) items
  flags :
      {ls : List Text} {items : List Item} (l u text after : Text) (v : DigFlags)
      → branch l ≡ Branch.at_flags u
      → split_once b';' u ≡ some (text, after)
      → DigFlags.from_str text ≡ ok v
      → Shows ls items
      → Shows (l ∷ ls) (flags_item v ∷ items)
  status :
      {ls : List Text} {items : List Item} (l u text after : Text) (v : DigStatus)
      → branch l ≡ Branch.at_status u
      → split_once b',' u ≡ some (text, after)
      → DigStatus.from_str text ≡ ok v
      → Shows ls items
      → Shows (l ∷ ls) (status_item v ∷ items)
  ede :
      {ls : List Text} {items : List Item} (l u : Text) (v : ExtendedDnsError)
      → branch l ≡ Branch.at_ede u
      → ExtendedDnsError.from_str (code_of u) ≡ ok v
      → Shows ls items
      → Shows (l ∷ ls) (ede_item v ∷ items)
  answer :
      {ls rest : List Text} {rs : List Record} {items : List Item} (l : Text)
      → branch l ≡ Branch.at_answer
      → Section ls rs rest
      → Shows rest items
      → Shows (l ∷ ls) (answer_item rs ∷ items)
  authority :
      {ls rest : List Text} {rs : List Record} {items : List Item} (l : Text)
      → branch l ≡ Branch.at_authority
      → Section ls rs rest
      → Shows rest items
      → Shows (l ∷ ls) (authority_item rs ∷ items)

abbrev pub flags_of : List Item → List DigFlags
flags_of [] = []
flags_of (flags_item v ∷ items) = v ∷ flags_of items
flags_of (_ ∷ items) = flags_of items

abbrev pub status_of : List Item → List DigStatus
status_of [] = []
status_of (status_item v ∷ items) = v ∷ status_of items
status_of (_ ∷ items) = status_of items

abbrev pub ede_of : List Item → List ExtendedDnsError
ede_of [] = []
ede_of (ede_item v ∷ items) = v ∷ ede_of items
ede_of (_ ∷ items) = ede_of items

abbrev pub answers_of : List Item → List (List Record)
answers_of [] = []
answers_of (answer_item rs ∷ items) = rs ∷ answers_of items
answers_of (_ ∷ items) = answers_of items

abbrev pub authorities_of : List Item → List (List Record)
authorities_of [] = []
authorities_of (authority_item rs ∷ items) = rs ∷ authorities_of items
authorities_of (_ ∷ items) = authorities_of items

abbrev pub to_list {ℓ} : {A : Type ℓ} → Option A → List A
to_list none = []
to_list (some a) = a ∷ []

-- `after` is `before` with the items put in, none of them twice.
pub record Gathers (before : Found) (items : List Item) (after : Found) : Type 0 where
  pub flags : to_list before.flags ++ flags_of items ≡ to_list after.flags
  pub status : to_list before.status ++ status_of items ≡ to_list after.status
  pub ede : to_list before.ede ++ ede_of items ≡ to_list after.ede
  pub answer : to_list before.answer ++ answers_of items ≡ to_list after.answer
  pub authority : to_list before.authority ++ authorities_of items ≡ to_list after.authority

-- A section stands at most once, and is empty if it is missing.
abbrev pub IsSection : List (List Record) → List Record → Type 0
IsSection sections records = ((sections ≡ []) × (records ≡ [])) ⊎ (sections ≡ records ∷ [])

-- One line of flags, one of the status, at most one extended error, and at most one of each section.
pub record Describes (items : List Item) (output : DigOutput) : Type 0 where
  pub flags : flags_of items ≡ output.flags ∷ []
  pub status : status_of items ≡ output.status ∷ []
  pub ede : ede_of items ≡ to_list output.ede
  pub answer : IsSection (answers_of items) output.answer
  pub authority : IsSection (authorities_of items) output.authority
