-- ===== src/System/Logged.antt =====
-- The operating system with a log of what it is asked to run and to write.
use dnssec_tests.Base.{
  Bool, true, false, if◌then◌else◌, List, [], ◌∷◌, ◌++◌, append_assoc, append-nil, ◌≡◌, refl, sym,
  ap, ◌∙◌,
}
use dnssec_tests.Text.{Text}
use dnssec_tests.Error.{Result, ok, err, panic}
use dnssec_tests.System.{System, State, Io, call, lift, ◌>>=◌}
use dnssec_tests.System.Returns.{and_then-eq-ok}

-- A command that is run to its end, a command that is started, and a file with its contents.
pub data Call : Type 0 where
  ran started : List Text → Call
  wrote : Text → Text → Call

-- The outcome of a call, with the call behind those in the log.
abbrev note :
    {World A : Type 0} → List Call → Call → Result A × World → Result A × (World × List Call)
note log c (result, world) = (result, (world, log ++ c ∷ []))

abbrev keep : {World A : Type 0} → List Call → Result A × World → Result A × (World × List Call)
keep log (result, world) = (result, (world, log))

abbrev pub logged : {World : Type 0} → System World → System (World × List Call)
logged system = record {
  id = system.id;
  verbose_docker_build = system.verbose_docker_build;
  output = λ command (w, log). note log (ran command) (system.output command w);
  status = λ command (w, log). note log (ran command) (system.status command w);
  spawn = λ command (w, log). note log (started command) (system.spawn command w);
  wait_with_output = λ process (w, log). keep log (system.wait_with_output process w);
  temp_dir = λ (w, log). keep log (system.temp_dir w);
  temp_file = λ (w, log). keep log (system.temp_file w);
  write = λ path contents (w, log). note log (wrote path contents) (system.write path contents w);
}

abbrev pub log_of : {World : Type 0} → State (World × List Call) → List Call
log_of state = state.world.1

-- What it returns, and the calls that it makes until then, satisfy `P`.
pub record Makes {World A : Type 0} (P : A → List Call → Type 0) (io : Io (World × List Call) A)
    : Type 0 where
  pub holds :
      (state state' : State (World × List Call)) (a : A)
      → io state ≡ (ok a, state')
      → (calls : List Call) × (log_of state' ≡ log_of state ++ calls) × P a calls

-- The calls that it makes at the end satisfy `P` together with what it returns.
pub record EndsIn {World A : Type 0} (P : A → List Call → Type 0) (io : Io (World × List Call) A)
    : Type 0 where
  pub ends :
      (state state' : State (World × List Call)) (a : A)
      → io state ≡ (ok a, state')
      → (earlier calls : List Call) × (log_of state' ≡ earlier ++ calls) × P a calls

pub Makes-bind :
    {World A B : Type 0} {P : A → List Call → Type 0} {Q : B → List Call → Type 0}
    {io : Io (World × List Call) A} {next : A → Io (World × List Call) B}
    → Makes P io
    → ((a : A) (first : List Call) → P a first → Makes (λ b second. Q b (first ++ second)) (next a))
    → Makes Q (io >>= next)
unfolding ◌>>=◌
Makes-bind {io} {next} h k = record {
  holds = λ state state' b e.
      let (a, middle, ea, eb) = and_then-eq-ok next (io state) state' b e in
      let (first, fe, p) = h.holds state middle a ea in
      let (second, se, q) = (k a first p).holds middle state' b eb in
      (
        first ++ second,
        se ∙ ap (λ l. l ++ second) fe ∙ append_assoc (log_of state) first second,
        q,
      );
}

-- The calls of the first computation are among the earlier ones.
pub EndsIn-bind :
    {World A B : Type 0} {Q : B → List Call → Type 0} (io : Io (World × List Call) A)
    {next : A → Io (World × List Call) B}
    → ((a : A) → Makes Q (next a))
    → EndsIn Q (io >>= next)
unfolding ◌>>=◌
EndsIn-bind io {next} k = record {
  ends = λ state state' b e.
      let (a, middle, ea, eb) = and_then-eq-ok next (io state) state' b e in
      let (calls, ce, q) = (k a).holds middle state' b eb in (log_of middle, calls, ce, q);
}

pub Makes-lift :
    {World A : Type 0} {P : A → List Call → Type 0} (r : Result A)
    → ((a : A) → r ≡ ok a → P a [])
    → Makes {World = World} P (lift r)
Makes-lift r h = record {
  holds = λ state state' a e.
      ([], ap (λ p. log_of p.1) (sym e) ∙ sym (append-nil (log_of state)), h a (ap (λ p. p.0) e));
}

-- A result makes no further calls.
pub Makes-append_nil :
    {World A : Type 0} (r : Result A) (first calls : List Call)
    → first ≡ calls
    → Makes {World = World} {A = A} (λ _ second. first ++ second ≡ calls) (lift r)
Makes-append_nil r first calls e = Makes-lift r λ _ _. append-nil first ∙ e

-- A result before a computation makes no calls.
pub Makes-lift_bind :
    {World A B : Type 0} {Q : B → List Call → Type 0} (r : Result A)
    {next : A → Io (World × List Call) B}
    → ((a : A) → r ≡ ok a → Makes Q (next a))
    → Makes Q (lift r >>= next)
unfolding ◌>>=◌
Makes-lift_bind (ok a) k = record { holds = (k a refl).holds }
Makes-lift_bind (err x) k = record { holds = λ state state' a e. cc }
Makes-lift_bind (panic m) k = record { holds = λ state state' a e. cc }

pub Makes-map :
    {World A : Type 0} {P Q : A → List Call → Type 0} {io : Io (World × List Call) A}
    → ((a : A) (calls : List Call) → P a calls → Q a calls)
    → Makes P io
    → Makes Q io
Makes-map f h = record {
  holds = λ state state' a e.
      let (calls, same, p) = h.holds state state' a e in (calls, same, f a calls p);
}

pub Makes-if :
    {World A : Type 0} {P : A → List Call → Type 0} {io jo : Io (World × List Call) A} (b : Bool)
    → Makes P io
    → Makes P jo
    → Makes P (if b then io else jo)
Makes-if true h k = h
Makes-if false h k = k

module _ {World : Type 0} (system : System World) where
  pub output-Makes :
      (command : List Text)
      → Makes (λ _ calls. calls ≡ ran command ∷ []) (call ((logged system).output command))
  output-Makes command = record {
    holds = λ state state' a e. (ran command ∷ [], ap (λ p. log_of p.1) (sym e), refl);
  }

  pub status-Makes :
      (command : List Text)
      → Makes (λ _ calls. calls ≡ ran command ∷ []) (call ((logged system).status command))
  status-Makes command = record {
    holds = λ state state' a e. (ran command ∷ [], ap (λ p. log_of p.1) (sym e), refl);
  }

  pub spawn-Makes :
      (command : List Text)
      → Makes (λ _ calls. calls ≡ started command ∷ []) (call ((logged system).spawn command))
  spawn-Makes command = record {
    holds = λ state state' a e. (started command ∷ [], ap (λ p. log_of p.1) (sym e), refl);
  }

  pub write-Makes :
      (path contents : Text)
      → Makes
          (λ _ calls. calls ≡ wrote path contents ∷ [])
          (call ((logged system).write path contents))
  write-Makes path contents = record {
    holds = λ state state' a e. (wrote path contents ∷ [], ap (λ p. log_of p.1) (sym e), refl);
  }

  pub temp_file-Makes : Makes (λ _ calls. calls ≡ []) (call (logged system).temp_file)
  temp_file-Makes = record {
    holds = λ state state' a e.
        ([], ap (λ p. log_of p.1) (sym e) ∙ sym (append-nil (log_of state)), refl);
  }
