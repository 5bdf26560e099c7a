-- ===== src/Container/Printed.antt =====
-- What a command in a container prints: packages/dns-test/src/container.rs.
use dnssec_tests.Base.{Bool, List, ◌≡◌, ap}
use dnssec_tests.Text.{Text}
use dnssec_tests.Error.{
  Result, ok, err, panic, ok-eq, Ensures, Ensures-ok, Ensures-err, Ensures-panic,
}
use dnssec_tests.System.{System, ProcessOutput, call}
use dnssec_tests.System.Returns.{Returns, Returns-bind, Returns-lift, Returns-if}
use dnssec_tests.Container.{Container, exec, try_from, pop_line_ends, output, stdout}

-- Whenever the command runs, it prints this text.
abbrev pub Prints : {World : Type 0} → System World → List Text → Text → Type 0
Prints {World} system command text =
    (w w' : World) (o : ProcessOutput) → system.output command w ≡ (ok o, w') → o.stdout ≡ ok text

call-Returns :
    {World A : Type 0} {P : A → Type 0} (f : World → Result A × World)
    → ((w w' : World) (a : A) → f w ≡ (ok a, w') → P a)
    → Returns P (call f)
call-Returns f h = record {
  holds = λ state state' a e.
      h state.world (f state.world).1 a (ap (λ r. (r, (f state.world).1)) (ap (λ p. p.0) e));
}

-- The cases of the two streams.
try_from-streams :
    (success : Bool) (stderr stdout : Result Text) (stderr_lossy stdout_lossy text : Text)
    → stdout ≡ ok text
    → Ensures
        (λ out. out.stdout ≡ pop_line_ends text)
        (try_from (record {
          success = success;
          stderr = stderr;
          stdout = stdout;
          stderr_lossy = stderr_lossy;
          stdout_lossy = stdout_lossy;
        }))
unfolding try_from
try_from-streams success (err e) stdout l m text h = Ensures-err e
try_from-streams success (panic s) stdout l m text h = Ensures-panic s
try_from-streams success (ok _) (err e) l m text h = Ensures-err e
try_from-streams success (ok _) (panic s) l m text h = Ensures-panic s
try_from-streams success (ok _) (ok printed) l m text h = Ensures-ok _ (ap pop_line_ends (ok-eq h))

try_from-stdout :
    (o : ProcessOutput) (text : Text)
    → o.stdout ≡ ok text
    → Ensures (λ out. out.stdout ≡ pop_line_ends text) (try_from o)
try_from-stdout o text e =
    try_from-streams o.success o.stderr o.stdout o.stderr_lossy o.stdout_lossy text e

-- What `stdout` returns is the text that the command prints, without its line ends.
pub stdout-Prints :
    {World : Type 0} (system : System World) (container : Container) (command : List Text)
    (text : Text)
    → Prints system (exec container command) text
    → Returns (λ s. s ≡ pop_line_ends text) (stdout system container command)
unfolding stdout output
stdout-Prints system container command text prints =
    Returns-bind
      (Returns-bind (call-Returns (system.output (exec container command)) prints)
        λ o e. Returns-lift (try_from-stdout o text e))
      λ out e.
        Returns-if out.success (Returns-lift (Ensures-ok out.stdout e))
          (Returns-lift (Ensures-err _))
