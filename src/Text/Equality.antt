-- ===== src/Text/Equality.antt =====
-- The equality of texts and its test.
use dnssec_tests.Base.{true, [], ◌∷◌, ◌≡◌, ◌↔◌, arith}
use dnssec_tests.Text.{Text, equal}

pub equal_iff : (a b : Text) → (equal a b ≡ true) ↔ (a ≡ b)
unfolding equal
equal_iff [] [] = ground arith
equal_iff [] (y ∷ b) = ground arith
equal_iff (x ∷ a) [] = ground arith
equal_iff (x ∷ a) (y ∷ b) = ground (arith, equal_iff a b)
