-- ===== src/Client/DigFlags.antt =====
-- `DigFlags` of packages/dns-test/src/client.rs.
pub mod Tokens
use dnssec_tests.Base.{Bool, true, false, List, [], ◌∷◌, if◌then◌else◌}
use dnssec_tests.Text.{Text, codes, equal, format, split_whitespace}
use dnssec_tests.Error.{message, Result, ok, err, ◌>>=◌}

pub record DigFlags : Type 0 where
  pub authenticated_data : Bool
  pub authoritative_answer : Bool
  pub checking_disabled : Bool
  pub qr : Bool
  pub recursion_available : Bool
  pub recursion_desired : Bool

abbrev pub default : DigFlags
default = record {
  authenticated_data = false;
  authoritative_answer = false;
  checking_disabled = false;
  qr = false;
  recursion_available = false;
  recursion_desired = false;
}

-- One round of the loop.
unfoldable pub set_flag : DigFlags → Text → Result DigFlags
unfolding equal
set_flag flags flag =
    if equal flag (codes "qr")
    then ok (record flags { qr = true })
    else if equal flag (codes "rd")
    then ok (record flags { recursion_desired = true })
    else if equal flag (codes "ra")
    then ok (record flags { recursion_available = true })
    else if equal flag (codes "aa")
    then ok (record flags { authoritative_answer = true })
    else if equal flag (codes "ad")
    then ok (record flags { authenticated_data = true })
    else if equal flag (codes "cd")
    then ok (record flags { checking_disabled = true })
    else err (message (format (codes "unknown flag: " ∷ flag ∷ [])))

unfoldable pub set_flags : DigFlags → List Text → Result DigFlags
unfolding set_flag
set_flags flags [] = ok flags
set_flags flags (flag ∷ rest) = set_flag flags flag >>= λ flags'. set_flags flags' rest

unfoldable pub from_str : Text → Result DigFlags
unfolding set_flags split_whitespace
from_str input = set_flags default (split_whitespace input)
