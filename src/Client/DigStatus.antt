-- ===== src/Client/DigStatus.antt =====
-- `DigStatus` of packages/dns-test/src/client.rs.
use dnssec_tests.Base.{Bool, true, false, if◌then◌else◌, ◌≡◌, ◌↔◌, refl, [], ◌∷◌, arith}
use dnssec_tests.Text.{Text, codes, equal, format}
use dnssec_tests.Text.Equality.{equal_iff}
use dnssec_tests.Error.{message, Result, ok, err}

pub data DigStatus : Type 0 where
  noerror nxdomain refused servfail : DigStatus

unfoldable pub is_noerror : DigStatus → Bool
is_noerror noerror = true
is_noerror _ = false

unfoldable pub is_nxdomain : DigStatus → Bool
is_nxdomain nxdomain = true
is_nxdomain _ = false

unfoldable pub is_servfail : DigStatus → Bool
is_servfail servfail = true
is_servfail _ = false

unfoldable pub from_str : Text → Result DigStatus
unfolding equal
from_str input =
    if equal input (codes "NXDOMAIN")
    then ok nxdomain
    else if equal input (codes "NOERROR")
    then ok noerror
    else if equal input (codes "REFUSED")
    then ok refused
    else if equal input (codes "SERVFAIL")
    then ok servfail
    else err (message (format (codes "unknown status: " ∷ input ∷ [])))

-- The names that the DNS gives its response codes.
abbrev pub mnemonic : DigStatus → Text
mnemonic noerror = codes "NOERROR"
mnemonic nxdomain = codes "NXDOMAIN"
mnemonic refused = codes "REFUSED"
mnemonic servfail = codes "SERVFAIL"

from_str_sound : (input : Text) (s : DigStatus) → from_str input ≡ ok s → input ≡ mnemonic s
from_str_sound input s e =
    unfold from_str in
    ground (
      arith,
      equal_iff input (codes "NXDOMAIN"),
      equal_iff input (codes "NOERROR"),
      equal_iff input (codes "REFUSED"),
      equal_iff input (codes "SERVFAIL"),
    )

from_str-mnemonic : (s : DigStatus) → from_str (mnemonic s) ≡ ok s
unfolding from_str
from_str-mnemonic noerror = refl
from_str-mnemonic _ = refl

-- A text is read as a status exactly when it is that status's mnemonic.
pub from_str-mnemonic_iff :
    (input : Text) (s : DigStatus) → (from_str input ≡ ok s) ↔ (input ≡ mnemonic s)
from_str-mnemonic_iff input s = (from_str_sound input s, λ e. rw e (from_str-mnemonic s))
