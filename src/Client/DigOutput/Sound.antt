-- ===== src/Client/DigOutput/Sound.antt =====
-- From a text that `DigOutput::from_str` in packages/dns-test/src/client.rs accepts to its document.
use dnssec_tests.Base.{
  Option, none, some, List, [], ◌∷◌, ◌++◌, append-nil, append_assoc, ◌≡◌, inl, inr, refl, ◌∙◌,
  subst, arith, Bool-cases,
}
use dnssec_tests.Text.{Text, is_empty, lines}
use dnssec_tests.Error.{ok, ok_or, bind-eq-ok}
use dnssec_tests.Record
use dnssec_tests.Record.{Record}
use dnssec_tests.Client.DigOutput.{
  DigOutput, Found, nothing, branch, read, read_answer, read_authority, finish, from_str,
  unwrap_or_default,
}
use dnssec_tests.Client.DigOutput.Document.{
  Item, eof, stop, entry, Shows, done, answers_of, authorities_of, to_list, IsSection, Describes,
}
use dnssec_tests.Client.DigOutput.Steps.{
  Shown, AnswerShown, AuthorityShown, Gathers-nil, line-Shown,
}

mutual
  unfolding read

  read-Shown :
      (ls : List Text) (found after : Found) → read found ls ≡ ok after → Shown found ls after
  read-Shown [] found after e = ([], done, Gathers-nil found after (cc))
  read-Shown (l ∷ ls) found after e =
      line-Shown l ls found after (branch l) refl (λ f. read-Shown ls f after)
        (λ f. read_answer-Shown ls [] f after) (λ f. read_authority-Shown ls [] f after) e

  read_answer-Shown :
      (ls : List Text) (records : List Record) (found after : Found)
      → read_answer found records ls ≡ ok after
      → AnswerShown ls records found after
  read_answer-Shown [] records found after e = record {
    rs = [];
    rest = [];
    section = eof;
    shown = ([], done, Gathers-nil _ after (rw append-nil (cc)));
  }
  read_answer-Shown (l ∷ ls) records found after e = elim (Bool-cases (is_empty l)) [
    | inl b ↦ record {
      rs = [];
      rest = ls;
      section = stop l b;
      shown =
          rw append-nil (
            read-Shown ls (record found { answer = some records }) after
              (rw (b, read_answer) at e));
    }
    | inr b ↦
        let (r, er, e') = bind-eq-ok (Record.from_str l) _ (rw (b, read_answer) at e) in
        let q = read_answer-Shown ls (records ++ r ∷ []) found after e' in
        record {
          rs = r ∷ q.rs;
          rest = q.rest;
          section = entry l r b er q.section;
          shown = rw append_assoc at q.shown;
        }
  ]

  read_authority-Shown :
      (ls : List Text) (records : List Record) (found after : Found)
      → read_authority found records ls ≡ ok after
      → AuthorityShown ls records found after
  read_authority-Shown [] records found after e = record {
    rs = [];
    rest = [];
    section = eof;
    shown = ([], done, Gathers-nil _ after (rw append-nil (cc)));
  }
  read_authority-Shown (l ∷ ls) records found after e = elim (Bool-cases (is_empty l)) [
    | inl b ↦ record {
      rs = [];
      rest = ls;
      section = stop l b;
      shown = rw append-nil (
          read-Shown ls (record found { authority = some records }) after
            (rw (b, read_authority) at e));
    }
    | inr b ↦
        let (r, er, e') = bind-eq-ok (Record.from_str l) _ (rw (b, read_authority) at e) in
        let q = read_authority-Shown ls (records ++ r ∷ []) found after e' in
        record {
          rs = r ∷ q.rs;
          rest = q.rest;
          section = entry l r b er q.section;
          shown = rw append_assoc at q.shown;
        }
  ]

IsSection-shown :
    (o : Option (List Record)) (sections : List (List Record))
    → [] ++ sections ≡ to_list o
    → IsSection sections (unwrap_or_default o)
IsSection-shown none sections e = inl (e, refl)
IsSection-shown (some rs) sections e = inr e

-- A text that is read as an output shows each of the output's parts once, with lines of other kinds
-- between them.
pub Describes-from_str :
    (input : Text) (output : DigOutput)
    → from_str input ≡ ok output
    → (items : List Item) × Shows (lines input) items × Describes items output
unfolding from_str
Describes-from_str input output e =
    let (after, ea, ef) = bind-eq-ok (read nothing (lines input)) finish e in
    let (items, s, g) = read-Shown (lines input) nothing after ea in
    let (fl, efl, ef') = bind-eq-ok (ok_or _ after.flags) _ ef in
    let (st, est, ef'') = bind-eq-ok (ok_or _ after.status) _ ef' in
    let fs : after.flags ≡ some fl = ground arith in
    let ss : after.status ≡ some st = ground arith in
    let found : DigOutput = record {
      ede = after.ede;
      flags = fl;
      status = st;
      answer = unwrap_or_default after.answer;
      authority = unwrap_or_default after.authority;
    } in
    let same : found ≡ output = cc in
    (
      items,
      s,
      subst (λ o. Describes items o) same
          (record {
            flags = g.flags ∙ rw fs;
            status = g.status ∙ rw ss;
            ede = g.ede;
            answer = IsSection-shown after.answer (answers_of items) g.answer;
            authority = IsSection-shown after.authority (authorities_of items) g.authority;
          }),
    )
