-- ===== src/NameServer/Names.antt =====
-- The names that packages/dns-test/src/name_server.rs gives to servers and their administrators.
use dnssec_tests.Base.{
  ℕ, Bool, ◌==◌, true, false, [], ◌∷◌, ◌++◌, append-nil, ◌≡◌, ◌≢◌, refl, ◌∙◌, arith, All,
  if◌then◌else◌,
}
use dnssec_tests.Text.{Text, codes, format, equal, starts_with, ends_with, is_whitespace}
use dnssec_tests.Text.Columns.{IsWord, IsWord-append, is_word, is_word-IsWord}
use dnssec_tests.Text.Splits.{ends_with-append}
use dnssec_tests.Error.{ok}
use dnssec_tests.Uint.{uint_to_string}
use dnssec_tests.Uint.RoundTrip.{uint_to_string-IsWord}
use dnssec_tests.Fqdn
use dnssec_tests.Fqdn.{Fqdn, fqdn, root, unwrap, num_labels}
use dnssec_tests.Fqdn.Names.{IsName}
use dnssec_tests.Fqdn.Parent.{fqdn-eq-ok}
use dnssec_tests.NameServer.{expand_zone, primary_ns, admin_ns}

-- A text that can stand behind the first label of a name.
record IsTail (s : Text) : Type 0 where
  ends : ends_with b'.' s ≡ true
  word : IsWord s

IsTail-append : (p s : Text) → All (λ c. is_whitespace c ≡ false) p → IsTail s → IsTail (p ++ s)
IsTail-append p s h t = record {
  ends = ends_with-append b'.' p s t.word.ne_nil ∙ t.ends;
  word = word p h;
}
  where
    word : (p : Text) → All (λ c. is_whitespace c ≡ false) p → IsWord (p ++ s)
    word [] h = t.word
    word (c ∷ p) h = IsWord-append (c ∷ p) s (record { ne_nil = cc; solid = h }) t.word.solid

choose : {s t : Text} (b : Bool) → IsTail s → IsTail t → IsTail (if b then s else t)
choose true h k = h
choose false h k = k

name-IsTail : (name : Fqdn) → IsName name → IsTail name.inner
name-IsTail name h =
    let (i, e, shape) = fqdn-eq-ok name.inner name h.accepted in record { ends = e; word = h.word }

nameservers-IsTail : IsTail (codes "nameservers.com.")
unfolding ends_with is_word is_whitespace
nameservers-IsTail = record { ends = refl; word = is_word-IsWord _ refl }

nameservers_label-IsWord : IsWord (codes "nameservers.")
unfolding is_word is_whitespace
nameservers_label-IsWord = is_word-IsWord _ refl

expand_zone-IsTail : (zone : Fqdn) → IsName zone → IsTail (expand_zone zone)
unfolding expand_zone
expand_zone-IsTail zone h =
    let t = name-IsTail zone h in
    choose (Fqdn.eq zone root) nameservers-IsTail (
      choose (num_labels zone == 1)
        (rw append-nil
          (IsTail-append (codes "nameservers.") zone.inner nameservers_label-IsWord.solid t))
        t)

-- A name that is a word behind a label's first character.
fqdn-IsName :
    (c : ℕ) (p s : Text)
    → c ≢ b'.'
    → IsWord (c ∷ p)
    → IsTail s
    → (name : Fqdn) × (unwrap (fqdn ((c ∷ p) ++ s)) ≡ ok name)
      × IsName name
      × (name.inner ≡ (c ∷ p) ++ s)
unfolding fqdn starts_with equal
fqdn-IsName c p s h w t =
    let whole = IsTail-append (c ∷ p) s w.solid t in
    let e = whole.ends in
    let f : (c == b'.') ≡ false = ground arith in
    let g : (b'.' == c) ≡ false = ground arith in
    let accepted : fqdn ((c ∷ p) ++ s) ≡ ok (record { inner = (c ∷ p) ++ s }) =
      ground (arith, e, f, g) in
    (
      record { inner = (c ∷ p) ++ s },
      rw accepted refl,
      record { accepted = accepted; word = whole.word },
      refl,
    )

dot-IsWord : IsWord (codes ".")
unfolding is_word is_whitespace
dot-IsWord = is_word-IsWord _ refl

-- A count, a dot and an expanded zone.
counted-IsTail :
    (ns_count : ℕ) (zone : Fqdn)
    → IsName zone
    → IsTail (format (uint_to_string ns_count ∷ codes "." ∷ expand_zone zone ∷ []))
counted-IsTail ns_count zone h =
    let t = expand_zone-IsTail zone h in
    rw append-nil (
      IsTail-append (uint_to_string ns_count) _ (uint_to_string-IsWord ns_count).solid
        (IsTail-append (codes ".") (expand_zone zone) dot-IsWord.solid t))

primary-IsWord : IsWord (codes "primary")
unfolding is_word is_whitespace
primary-IsWord = is_word-IsWord _ refl

admin-IsWord : IsWord (codes "admin")
unfolding is_word is_whitespace
admin-IsWord = is_word-IsWord _ refl

-- For every zone that is a name with no white space, a server has a name, and it is such a name too:
-- the `unwrap` does not panic.
pub primary_ns-IsName :
    (ns_count : ℕ) (zone : Fqdn)
    → IsName zone
    → (name : Fqdn) × (primary_ns ns_count zone ≡ ok name) × IsName name
unfolding primary_ns
primary_ns-IsName ns_count zone h =
    let (name, e, n, i) =
      fqdn-IsName b'p' (codes "rimary") _ (omega arith) primary-IsWord
        (counted-IsTail ns_count zone h) in
    (name, e, n)

-- The same of the administrator's name.
pub admin_ns-IsName :
    (ns_count : ℕ) (zone : Fqdn)
    → IsName zone
    → (name : Fqdn) × (admin_ns ns_count zone ≡ ok name) × IsName name
unfolding admin_ns
admin_ns-IsName ns_count zone h =
    let (name, e, n, i) =
      fqdn-IsName b'a' (codes "dmin") _ (omega arith) admin-IsWord
        (counted-IsTail ns_count zone h) in
    (name, e, n)
