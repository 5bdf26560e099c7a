-- ===== src/Container/Trim.antt =====
-- The text that `Output::try_from` of packages/dns-test/src/container.rs makes of a stream.
use dnssec_tests.Base.{
  ℕ, Bool, true, false, [], ◌∷◌, ◌++◌, ◌≡◌, refl, ap, ◌∙◌, All, Bool-cases, inl, inr,
}
use dnssec_tests.Text.{Text}
use dnssec_tests.Container.{is_line_end, keep, pop_line_ends}

abbrev pub ends_in_line_end : Text → Bool
ends_in_line_end [] = false
ends_in_line_end (c ∷ []) = is_line_end c
ends_in_line_end (c ∷ d ∷ s) = ends_in_line_end (d ∷ s)

keep_lem :
    (c : ℕ) (t ends : Text)
    → All (λ d. is_line_end d ≡ true) ends
    → ends_in_line_end t ≡ false
    → (ends' : Text) × (c ∷ (t ++ ends) ≡ keep c t ++ ends')
      × All (λ d. is_line_end d ≡ true) ends'
      × (ends_in_line_end (keep c t) ≡ false)
keep_lem c [] ends h k = elim (Bool-cases (is_line_end c)) [
  | inl e ↦ (c ∷ ends, rw e refl, (e, h), rw e refl)
  | inr e ↦ (ends, rw e refl, h, rw e (rw e refl))
]
keep_lem c (d ∷ t) ends h k = (ends, refl, h, k)

-- What is left of a text ends in no line end, and only line ends are taken away behind it.
pub pop_line_ends_lem :
    (s : Text)
    → (ends : Text) × (s ≡ pop_line_ends s ++ ends)
      × All (λ c. is_line_end c ≡ true) ends
      × (ends_in_line_end (pop_line_ends s) ≡ false)
unfolding pop_line_ends
pop_line_ends_lem [] = ([], refl, tt, refl)
pop_line_ends_lem (c ∷ s) =
    let (ends, e, h, k) = pop_line_ends_lem s in
    let (ends', e', h', k') = keep_lem c (pop_line_ends s) ends h k in
    (ends', ap (λ t. c ∷ t) e ∙ e', h', k')
