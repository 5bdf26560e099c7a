-- ===== src/Explore/Options.antt =====
-- The command line of packages/dns-test/examples/explore.rs.
use dnssec_tests.Base.{true, false, ◌∷◌, [], List, ◌⊎◌, ◌≡◌, ◌↔◌, arith}
use dnssec_tests.Text.{Text, codes}
use dnssec_tests.Text.Equality.{equal_iff}
use dnssec_tests.Error.{ok}
use dnssec_tests.Explore.{Args, from_env}

-- The command line is accepted exactly if it is empty, which leaves DNSSEC off, or the one option
-- `--dnssec`, which turns it on.
pub from_env_iff :
    (arguments : List Text) (args : Args)
    → (from_env arguments ≡ ok args) ↔ (
        ((arguments ≡ []) × (args.dnssec ≡ false))
        ⊎ ((arguments ≡ codes "--dnssec" ∷ []) × (args.dnssec ≡ true)))
unfolding from_env
from_env_iff [] args = ground arith
from_env_iff (arg ∷ []) args = ground (arith, equal_iff arg (codes "--dnssec"))
from_env_iff (a ∷ b ∷ rest) args = ground arith
