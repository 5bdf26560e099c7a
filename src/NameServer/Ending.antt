-- ===== src/NameServer/Ending.antt =====
-- The end of a server in packages/dns-test/src/name_server.rs and packages/dns-test/src/resolver.rs.
use dnssec_tests.Base.{
  Bool, true, false, not, ◌&&◌, List, [], ◌∷◌, ◌≡◌, ◌↔◌, ◌⊎◌, arith, if◌then◌else◌,
}
use dnssec_tests.Text.{Text, is_empty}
use dnssec_tests.Error.{Error, ok, err, panic}
use dnssec_tests.Implementation.{Implementation, is_hickory}
use dnssec_tests.Implementation.Templates.{Value}
use dnssec_tests.System.{System}
use dnssec_tests.Container.{Output}
use dnssec_tests.NameServer.Lifecycle.{ended}

branches :
    (h s : Bool) (e : Error) (m stderr stdout text : Text)
    → ((if not h && not s then err e else if is_empty stderr then ok stdout else panic m) ≡ ok text)
      ↔ (((h ≡ true) ⊎ (s ≡ true)) × (stderr ≡ []) × (stdout ≡ text))
branches true s e m [] stdout text = ground arith
branches true s e m (c ∷ t) stdout text = ground arith
branches false true e m [] stdout text = ground arith
branches false true e m (c ∷ t) stdout text = ground arith
branches false false e m stderr stdout text = ground arith

-- The log of a server is returned exactly when the server is Hickory or its process succeeded, and
-- nothing was written to stderr; it is what was written to stdout.
pub ended_iff :
    {World : Type 0} (system : System World) (render : Text → List (Text × Value) → Text)
    (implementation : Implementation) (output : Output) (text : Text)
    → (ended system render implementation output ≡ ok text) ↔ (
        ((is_hickory implementation ≡ true) ⊎ (output.success ≡ true))
        × (output.stderr ≡ [])
        × (output.stdout ≡ text))
unfolding ended
ended_iff system render implementation output text =
    branches (is_hickory implementation) output.success _ _ output.stderr output.stdout text
