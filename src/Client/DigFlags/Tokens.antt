-- ===== src/Client/DigFlags/Tokens.antt =====
-- The flags of packages/dns-test/src/client.rs as tokens of a text.
use dnssec_tests.Base.{
  Bool, false, ◌||◌, List, [], ◌∷◌, ◌≡◌, ◌↔◌, ◌⊎◌, inl, inr, sym, ap, ◌∙◌, All, arith,
}
use dnssec_tests.Text.{Text, codes, equal, split_whitespace}
use dnssec_tests.Text.Equality.{equal_iff}
use dnssec_tests.Error.{ok, bind-eq-ok}
use dnssec_tests.Client.DigFlags.{DigFlags, default, set_flag, set_flags, from_str}

-- The tokens of the flags.
abbrev pub IsFlag : Text → Type 0
IsFlag t =
    (t ≡ codes "qr")
    ⊎ (t ≡ codes "rd")
    ⊎ (t ≡ codes "ra")
    ⊎ (t ≡ codes "aa")
    ⊎ (t ≡ codes "ad")
    ⊎ (t ≡ codes "cd")

-- Whether a token is among the tokens.
pub has : Text → List Text → Bool
has token [] = false
has token (t ∷ ts) = equal t token || has token ts

-- The flags of a list of tokens, on top of those that are set.
abbrev pub with_tokens : DigFlags → List Text → DigFlags
with_tokens flags ts = record {
  authenticated_data = flags.authenticated_data || has (codes "ad") ts;
  authoritative_answer = flags.authoritative_answer || has (codes "aa") ts;
  checking_disabled = flags.checking_disabled || has (codes "cd") ts;
  qr = flags.qr || has (codes "qr") ts;
  recursion_available = flags.recursion_available || has (codes "ra") ts;
  recursion_desired = flags.recursion_desired || has (codes "rd") ts;
}

set_flag-IsFlag :
    (flags : DigFlags) (t : Text) → IsFlag t → set_flag flags t ≡ ok (with_tokens flags (t ∷ []))
unfolding set_flag has
set_flag-IsFlag flags t (inl e) = rw e (ground arith)
set_flag-IsFlag flags t (inr (inl e)) = rw e (ground arith)
set_flag-IsFlag flags t (inr (inr (inl e))) = rw e (ground arith)
set_flag-IsFlag flags t (inr (inr (inr (inl e)))) = rw e (ground arith)
set_flag-IsFlag flags t (inr (inr (inr (inr (inl e))))) = rw e (ground arith)
set_flag-IsFlag flags t (inr (inr (inr (inr (inr e))))) = rw e (ground arith)

set_flag-eq-ok :
    (flags : DigFlags) (t : Text) (after : DigFlags) → set_flag flags t ≡ ok after → IsFlag t
set_flag-eq-ok flags t after e =
    unfold set_flag in
    ground (
      arith,
      equal_iff t (codes "qr"),
      equal_iff t (codes "rd"),
      equal_iff t (codes "ra"),
      equal_iff t (codes "aa"),
      equal_iff t (codes "ad"),
      equal_iff t (codes "cd"),
    )

or_assoc : (a b c : Bool) → ((a || (b || false)) || c) ≡ (a || (b || c))
or_assoc a b c = ground arith

or_false : (a : Bool) → (a || false) ≡ a
or_false a = ground arith

set_flags-IsFlag :
    (flags : DigFlags) (ts : List Text)
    → All IsFlag ts
    → set_flags flags ts ≡ ok (with_tokens flags ts)
unfolding set_flags has
set_flags-IsFlag flags [] h = simp or_false
set_flags-IsFlag flags (t ∷ ts) h =
    rw (set_flag-IsFlag flags t h.0)
      (set_flags-IsFlag (with_tokens flags (t ∷ [])) ts h.1 ∙ simp or_assoc)

set_flags-eq-ok :
    (flags : DigFlags) (ts : List Text) (after : DigFlags)
    → set_flags flags ts ≡ ok after
    → All IsFlag ts
unfolding set_flags
set_flags-eq-ok flags [] after e = tt
set_flags-eq-ok flags (t ∷ ts) after e =
    let (f, ef, e') = bind-eq-ok (set_flag flags t) _ e in
    (set_flag-eq-ok flags t f ef, set_flags-eq-ok f ts after e')

ok-injective : (a b : DigFlags) → ok a ≡ ok b → a ≡ b
ok-injective a b e = cc

-- A text is read as flags exactly when all its columns are flag tokens, and then each flag is set
-- exactly when its token is among the columns, however often and in whatever order.
pub from_str-with_tokens :
    (input : Text) (flags : DigFlags)
    → (from_str input ≡ ok flags) ↔ (
        All IsFlag (split_whitespace input)
        × (flags ≡ with_tokens default (split_whitespace input)))
unfolding from_str
from_str-with_tokens input flags = (
  (λ e.
      let all = set_flags-eq-ok default (split_whitespace input) flags e in
      (all, ok-injective _ _ (sym e ∙ set_flags-IsFlag default (split_whitespace input) all))),
  (λ h. set_flags-IsFlag default (split_whitespace input) h.0 ∙ ap ok (sym h.1)),
)
