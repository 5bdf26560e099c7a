-- ===== src/Client/DigOutput/Steps.antt =====
-- One line of dig's output in `DigOutput::from_str` of packages/dns-test/src/client.rs.
use dnssec_tests.Base.{
  Option, none, some, List, [], ◌∷◌, ◌++◌, append-nil, ◌≡◌, inl, inr, refl, sym, subst, arith,
  Option-cases,
}
use dnssec_tests.Text.{Text, split_once}
use dnssec_tests.Error.{Result, ok, bind-eq-ok}
use dnssec_tests.Record.{Record}
use dnssec_tests.Client.DigFlags
use dnssec_tests.Client.DigStatus
use dnssec_tests.Client.ExtendedDnsError
use dnssec_tests.Client.DigOutput.{
  Found, once, Branch, branch, code_of, flags_line, status_line, ede_line, read, read_answer,
  read_authority, flags_prefix, status_prefix, answer_header, authority_header,
}
use dnssec_tests.Client.DigOutput.Document.{
  Item, flags_item, status_item, ede_item, answer_item, authority_item, Section, Shows, noise,
  flags, status, ede, answer, authority, flags_of, status_of, ede_of, answers_of, authorities_of,
  to_list, Gathers,
}

once-eq-ok {ℓ κ} :
    {A : Type ℓ} {B : Type κ} (o : Option A) (prefix : Text) (next : Result B) {b : B}
    → once o prefix next ≡ ok b
    → (o ≡ none) × (next ≡ ok b)
once-eq-ok none prefix next e = (refl, e)
once-eq-ok (some a) prefix next e = cc

flags_line-eq-ok :
    (found : Found) (u : Text) (after : Found)
    → flags_line found u ≡ ok after
    → (text : Text) × (rest : Text) × (v : DigFlags.DigFlags) × (found.flags ≡ none)
      × (split_once b';' u ≡ some (text, rest))
      × (DigFlags.from_str text ≡ ok v)
      × (record found { flags = some v } ≡ after)
unfolding flags_line
flags_line-eq-ok found u after e = elim (Option-cases (split_once b';' u)) [
  | inl n ↦ absurd (ground (arith, n))
  | inr ((text, rest), c) ↦
      let (n, e') = once-eq-ok found.flags flags_prefix _ (rw c at e) in
      let (v, ev, e'') = bind-eq-ok (DigFlags.from_str text) _ e' in
      (text, rest, v, n, c, ev, ground arith)
]

status_line-eq-ok :
    (found : Found) (u : Text) (after : Found)
    → status_line found u ≡ ok after
    → (text : Text) × (rest : Text) × (v : DigStatus.DigStatus) × (found.status ≡ none)
      × (split_once b',' u ≡ some (text, rest))
      × (DigStatus.from_str text ≡ ok v)
      × (record found { status = some v } ≡ after)
unfolding status_line
status_line-eq-ok found u after e = elim (Option-cases (split_once b',' u)) [
  | inl n ↦ absurd (ground (arith, n))
  | inr ((text, rest), c) ↦
      let (n, e') = once-eq-ok found.status status_prefix _ (rw c at e) in
      let (v, ev, e'') = bind-eq-ok (DigStatus.from_str text) _ e' in
      (text, rest, v, n, c, ev, ground arith)
]

ede_line-eq-ok :
    (found : Found) (u : Text) (after : Found)
    → ede_line found u ≡ ok after
    → (v : ExtendedDnsError.ExtendedDnsError) × (found.ede ≡ none)
      × (ExtendedDnsError.from_str (code_of u) ≡ ok v)
      × (record found { ede = some v } ≡ after)
unfolding ede_line
ede_line-eq-ok found u after e =
    let (n, e') = once-eq-ok found.ede _ _ e in
    let (v, ev, e'') = bind-eq-ok (ExtendedDnsError.from_str (code_of u)) _ e' in
    (v, n, ev, ground arith)

-- What a successful read of lines shows.
abbrev pub Shown : Found → List Text → Found → Type 0
Shown found ls after = (items : List Item) × Shows ls items × Gathers found items after

pub record SectionShown (ls : List Text) (records : List Record) (before : List Record → Found)
    (after : Found) : Type 0 where
  pub rs : List Record
  pub rest : List Text
  pub section : Section ls rs rest
  pub shown : Shown (before (records ++ rs)) rest after

abbrev pub AnswerShown : List Text → List Record → Found → Found → Type 0
AnswerShown ls records found = SectionShown ls records (λ rs. record found { answer = some rs })

abbrev pub AuthorityShown : List Text → List Record → Found → Found → Type 0
AuthorityShown ls records found =
    SectionShown ls records (λ rs. record found { authority = some rs })

-- An item in front, where there was none yet.
front {ℓ} :
    {A : Type ℓ} (o o' : Option A) (v : A) (vs : List A)
    → o ≡ none
    → v ∷ vs ≡ to_list o'
    → to_list o ++ v ∷ vs ≡ to_list o'
front o o' v vs n e = subst (λ p. to_list p ++ v ∷ vs ≡ to_list o') (sym n) e

-- The cases of one line, given what the lines behind it show.
pub line-Shown :
    (l : Text) (ls : List Text) (found after : Found) (b : Branch)
    → branch l ≡ b
    → ((f : Found) → read f ls ≡ ok after → Shown f ls after)
    → ((f : Found) → read_answer f [] ls ≡ ok after → AnswerShown ls [] f after)
    → ((f : Found) → read_authority f [] ls ≡ ok after → AuthorityShown ls [] f after)
    → read found (l ∷ ls) ≡ ok after
    → Shown found (l ∷ ls) after
unfolding read
line-Shown l ls found after (Branch.at_flags u) b ih _ _ e =
    let (f, ef, e') = bind-eq-ok (flags_line found u) (λ f. read f ls) (rw (b, read) at e) in
    let (text, rest, v, n, c, ev, ew) = flags_line-eq-ok found u f ef in
    let (items, s, g) =
      ih (record found { flags = some v }) (subst (λ f'. read f' ls ≡ ok after) (sym ew) e') in
    (
      flags_item v ∷ items,
      flags l u text rest v b c ev s,
      record {
        flags = front found.flags after.flags v (flags_of items) n g.flags;
        status = g.status;
        ede = g.ede;
        answer = g.answer;
        authority = g.authority;
      },
    )
line-Shown l ls found after (Branch.at_status u) b ih _ _ e =
    let (f, ef, e') = bind-eq-ok (status_line found u) (λ f. read f ls) (rw (b, read) at e) in
    let (text, rest, v, n, c, ev, ew) = status_line-eq-ok found u f ef in
    let (items, s, g) =
      ih (record found { status = some v }) (subst (λ f'. read f' ls ≡ ok after) (sym ew) e') in
    (
      status_item v ∷ items,
      status l u text rest v b c ev s,
      record {
        flags = g.flags;
        status = front found.status after.status v (status_of items) n g.status;
        ede = g.ede;
        answer = g.answer;
        authority = g.authority;
      },
    )
line-Shown l ls found after (Branch.at_ede u) b ih _ _ e =
    let (f, ef, e') = bind-eq-ok (ede_line found u) (λ f. read f ls) (rw (b, read) at e) in
    let (v, n, ev, ew) = ede_line-eq-ok found u f ef in
    let (items, s, g) =
      ih (record found { ede = some v }) (subst (λ f'. read f' ls ≡ ok after) (sym ew) e') in
    (
      ede_item v ∷ items,
      ede l u v b ev s,
      record {
        flags = g.flags;
        status = g.status;
        ede = front found.ede after.ede v (ede_of items) n g.ede;
        answer = g.answer;
        authority = g.authority;
      },
    )
line-Shown l ls found after Branch.at_answer b _ ih _ e =
    let (n, e') =
      once-eq-ok found.answer answer_header (read_answer found [] ls) (rw (b, read) at e) in
    let r = ih found e' in
    let (items, s, g) = r.shown in
    (
      answer_item r.rs ∷ items,
      answer l b r.section s,
      record {
        flags = g.flags;
        status = g.status;
        ede = g.ede;
        answer = front found.answer after.answer r.rs (answers_of items) n g.answer;
        authority = g.authority;
      },
    )
line-Shown l ls found after Branch.at_authority b _ _ ih e =
    let (n, e') =
      once-eq-ok found.authority authority_header (read_authority found [] ls)
        (rw (b, read) at e) in
    let r = ih found e' in
    let (items, s, g) = r.shown in
    (
      authority_item r.rs ∷ items,
      authority l b r.section s,
      record {
        flags = g.flags;
        status = g.status;
        ede = g.ede;
        answer = g.answer;
        authority = front found.authority after.authority r.rs (authorities_of items) n g.authority;
      },
    )
line-Shown l ls found after Branch.at_other b ih _ _ e =
    let (items, s, g) = ih found (rw (b, read) at e) in
    (
      items,
      noise l b s,
      record {
        flags = g.flags;
        status = g.status;
        ede = g.ede;
        answer = g.answer;
        authority = g.authority;
      },
    )

pub Gathers-nil : (found after : Found) → found ≡ after → Gathers found [] after
Gathers-nil found after e =
    subst (λ f. Gathers found [] f) e
      (record {
        flags = append-nil _;
        status = append-nil _;
        ede = append-nil _;
        answer = append-nil _;
        authority = append-nil _;
      })
