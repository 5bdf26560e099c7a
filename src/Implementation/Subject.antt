-- ===== src/Implementation/Subject.antt =====
-- `parse_subject` and `parse_peer` of packages/dns-test/src/lib.rs, as functions of the value of the
-- environment variable that they read, and of the two tests that `Repository` makes.
use dnssec_tests.Base.{
  Bool, true, Option, none, some, [], ◌∷◌, ◌++◌, ◌≡◌, ◌↔◌, ◌⊎◌, inl, inr, refl, ap, sym, subst,
  arith, if◌then◌else◌, ◌==◌, ==_iff, Bool-cases,
}
use dnssec_tests.Text.{Text, codes, equal, format, starts_with, strip_prefix}
use dnssec_tests.Text.Equality.{equal_iff}
use dnssec_tests.Error.{Result, ok, panic, ◌>>=◌, bind-eq-ok}
use dnssec_tests.Implementation.{Implementation, Repository, default, new_repository}

module _ (path_exists is_url : Text → Bool) where
  unfoldable pub hickory_subject : Option Text → Result Implementation
  unfolding new_repository
  hickory_subject none = panic (
      codes
        "the syntax of DNS_TEST_SUBJECT is 'hickory $URL', e.g. 'hickory /tmp/hickory' or 'hickory https://github.com/owner/repo'")
  hickory_subject (some url) = do
    repository ← new_repository path_exists is_url url
    ok (Implementation.hickory repository)

  unfoldable pub parse_subject : Option Text → Result Implementation
  unfolding equal starts_with strip_prefix hickory_subject
  parse_subject none = ok default
  parse_subject (some subject) =
      if equal subject (codes "unbound")
      then ok Implementation.unbound
      else if equal subject (codes "bind")
      then ok Implementation.bind
      else if starts_with (codes "hickory") subject
      then hickory_subject (strip_prefix (codes "hickory ") subject)
      else panic (format (codes "unknown implementation: " ∷ subject ∷ []))

unfoldable pub parse_peer : Option Text → Result Implementation
unfolding equal
parse_peer none = ok default
parse_peer (some peer) =
    if equal peer (codes "unbound")
    then ok Implementation.unbound
    else if equal peer (codes "bind")
    then ok Implementation.bind
    else panic
        (format (codes "`" ∷ peer ∷ codes "` is not supported as a test peer implementation" ∷ []))

strip_prefix_sound : (p s t : Text) → strip_prefix p s ≡ some t → s ≡ p ++ t
unfolding strip_prefix
strip_prefix_sound [] s t e = cc
strip_prefix_sound (c ∷ p) [] t e = cc
strip_prefix_sound (c ∷ p) (d ∷ s) t e = elim (Bool-cases (c == d)) [
  | inl h ↦
      let r = strip_prefix_sound p s t (rw (h, strip_prefix) at e) in let q = (==_iff c d).0 h in cc
  | inr h ↦ absurd (cc (rw (h, strip_prefix) at e))
]

module _ (path_exists is_url : Text → Bool) where
  -- What the variable may hold for each result.
  abbrev pub Names : Option Text → Implementation → Type 0
  Names variable Implementation.unbound = (variable ≡ none) ⊎ (variable ≡ some (codes "unbound"))
  Names variable Implementation.bind = variable ≡ some (codes "bind")
  Names variable (Implementation.hickory r) =
      (variable ≡ some (codes "hickory " ++ r.inner))
      × ((path_exists r.inner ≡ true) ⊎ (is_url r.inner ≡ true))

  repository-eq-ok :
      (url : Text) (r : Repository)
      → new_repository path_exists is_url url ≡ ok r
      → (url ≡ r.inner) × ((path_exists r.inner ≡ true) ⊎ (is_url r.inner ≡ true))
  unfolding new_repository
  repository-eq-ok url r e = ground arith

  hickory_subject-eq-ok :
      (o : Option Text) (i : Implementation)
      → hickory_subject path_exists is_url o ≡ ok i
      → (r : Repository) × (o ≡ some r.inner)
        × (i ≡ Implementation.hickory r)
        × ((path_exists r.inner ≡ true) ⊎ (is_url r.inner ≡ true))
  unfolding hickory_subject
  hickory_subject-eq-ok none i e = cc
  hickory_subject-eq-ok (some url) i e =
      let (r, er, e') = bind-eq-ok (new_repository path_exists is_url url) _ e in
      let (u, ok_url) = repository-eq-ok url r er in (r, cc, cc, ok_url)

  Names-hickory :
      (subject : Text) (i : Implementation)
      → hickory_subject path_exists is_url (strip_prefix (codes "hickory ") subject) ≡ ok i
      → Names (some subject) i
  Names-hickory subject i e =
      let (r, er, ei, h) = hickory_subject-eq-ok (strip_prefix (codes "hickory ") subject) i e in
      let s = strip_prefix_sound (codes "hickory ") subject r.inner er in
      subst (λ j. Names (some subject) j) (sym ei) (ap some s, h)

  parse_subject-Names :
      (variable : Option Text) (i : Implementation)
      → parse_subject path_exists is_url variable ≡ ok i
      → Names variable i
  unfolding parse_subject
  parse_subject-Names none i e =
      let q : Implementation.unbound ≡ i = cc in subst (λ j. Names none j) q (inl refl)
  parse_subject-Names (some subject) i e = elim (Bool-cases (equal subject (codes "unbound"))) [
    | inl h ↦
        let u = (equal_iff subject (codes "unbound")).0 h in
        let q : Implementation.unbound ≡ i = ground arith in
        subst (λ j. Names (some subject) j) q (inr (ap some u))
    | inr h ↦ elim (Bool-cases (equal subject (codes "bind"))) [
      | inl h' ↦
          let b = (equal_iff subject (codes "bind")).0 h' in
          let q : Implementation.bind ≡ i = ground arith in
          subst (λ j. Names (some subject) j) q (ap some b)
      | inr h' ↦ elim (Bool-cases (starts_with (codes "hickory") subject)) [
        | inl k ↦ Names-hickory subject i (rw (h, h', k, if◌then◌else◌) at e)
        | inr k ↦ absurd (ground arith)
      ]
    ]
  ]

  new_repository-ok :
      (r : Repository)
      → (path_exists r.inner ≡ true) ⊎ (is_url r.inner ≡ true)
      → new_repository path_exists is_url r.inner ≡ ok r
  unfolding new_repository
  new_repository-ok r h = ground arith

  Names-parse_subject :
      (variable : Option Text) (i : Implementation)
      → Names variable i
      → parse_subject path_exists is_url variable ≡ ok i
  unfolding parse_subject
  Names-parse_subject variable Implementation.unbound (inl unset) = rw (unset) refl
  Names-parse_subject variable Implementation.unbound (inr set) = rw (set) refl
  Names-parse_subject variable Implementation.bind set = rw (set) refl
  Names-parse_subject variable (Implementation.hickory r) (set, found) =
      rw (set) (ap (λ q. q >>= λ s. ok (Implementation.hickory s)) (new_repository-ok r found))

  -- The variable gives a subject exactly if it names it: unset or `unbound` unbound, `bind` BIND, and
  -- `hickory ` with a repository that exists or is a URL that repository; nothing else gives one.
  pub parse_subject_iff :
      (variable : Option Text) (i : Implementation)
      → (parse_subject path_exists is_url variable ≡ ok i) ↔ Names variable i
  parse_subject_iff variable i = (parse_subject-Names variable i, Names-parse_subject variable i)
