-- ===== src/System.antt =====
-- What the crate asks of the operating system, as an interface, and the computations over it: the
-- calls of Rust's `std::process`, `std::fs` and `tempfile` that packages/dns-test/src makes.
pub mod Returns
pub mod Logged
use dnssec_tests.Base.{ℕ, suc, ◌%◌, ◌^◌, Bool, List, Option, if◌then◌else◌}
use dnssec_tests.Text.{Text, codes, equal}
use dnssec_tests.Error.{Error, Result, ok, err, panic}

-- `std::process::Output`; a stream is read as UTF-8 text, which can fail, or with replacements.
pub record ProcessOutput : Type 0 where
  pub success : Bool
  pub stderr : Result Text
  pub stdout : Result Text
  pub stderr_lossy : Text
  pub stdout_lossy : Text

-- `std::process::Child`: its number, and the handle to its stdout while that has not been taken,
-- which is the lines that can be read from it up to its end.
pub record Process : Type 0 where
  pub id : ℕ
  pub stdout : Option (List (Result Text))

-- The state of the machine is `World`. A command is its program and arguments.
pub record System (World : Type 0) : Type 0 where
  -- `process::id`.
  pub id : ℕ
  -- Whether `DNS_TEST_VERBOSE_DOCKER_BUILD` is set.
  pub verbose_docker_build : Bool
  -- `Command::output`, `Command::status` and `Command::spawn`.
  pub output : List Text → World → Result ProcessOutput × World
  pub status : List Text → World → Result Bool × World
  pub spawn : List Text → World → Result Process × World
  -- `Child::wait_with_output`.
  pub wait_with_output : Process → World → Result ProcessOutput × World
  -- `TempDir::new`, `NamedTempFile::new` and `fs::write`.
  pub temp_dir : World → Result Text × World
  pub temp_file : World → Result Text × World
  pub write : Text → Text → World → Result (Unit {0}) × World

-- `std::sync::Once`.
pub data Once : Type 0 where
  incomplete complete poisoned : Once

-- The counters and other statics of the crate, and the machine.
pub record State (World : Type 0) : Type 0 where
  pub ns_count : ℕ
  pub container_count : ℕ
  pub network_count : ℕ
  pub tshark_count : ℕ
  -- By the name of the image.
  pub onces : Text → Once
  pub world : World

abbrev pub Io : Type 0 → Type 0 → Type 0
Io World A = State World → Result A × State World

abbrev pub and_then :
    {World A B : Type 0} → (A → Io World B) → Result A × State World → Result B × State World
and_then next (ok a, state) = next a state
and_then next (err e, state) = (err e, state)
and_then next (panic m, state) = (panic m, state)

infixl 5 ◌>>=◌ ◌>>◌
unfoldable pub ◌>>=◌ : {World A B : Type 0} → Io World A → (A → Io World B) → Io World B
first >>= next = λ state. and_then next (first state)

abbrev pub ◌>>◌ : {World B : Type 0} → Io World (Unit {0}) → Io World B → Io World B
first >> next = first >>= λ _. next

-- A result that needs no effect.
abbrev pub lift : {World A : Type 0} → Result A → Io World A
lift result state = (result, state)

-- A call of the system.
abbrev pub update : {World A : Type 0} → State World → Result A × World → Result A × State World
update state (result, world) = (result, record state { world = world })

abbrev pub call : {World A : Type 0} → (World → Result A × World) → Io World A
call f state = update state (f state.world)

-- `AtomicUsize::fetch_add(1)`, which wraps around.
abbrev pub fetch_add : ℕ → ℕ
fetch_add count = suc count % 2 ^ 64

-- `Result::unwrap` and `Result::expect`, with the message that is in front of the error's own.
abbrev pub unwrap_result : {A : Type 0} → Text → Result A → Result A
unwrap_result text (ok a) = ok a
unwrap_result text (err e) = panic text
unwrap_result text (panic m) = panic m

abbrev pub expect : {World A : Type 0} → Text → Io World A → Io World A
expect text first state = let (result, state') = first state in (unwrap_result text result, state')

abbrev pub set_once : {World : Type 0} → Text → Once → State World → State World
unfolding equal
set_once name once state = record state {
  onces = λ other. if equal other name then once else state.onces other;
}

abbrev pub settle :
    {World : Type 0} → Text → Result (Unit {0}) × State World → Result (Unit {0}) × State World
settle name (ok u, state) = (ok u, set_once name Once.complete state)
settle name (err e, state) = (err e, set_once name Once.complete state)
settle name (panic m, state) = (panic m, set_once name Once.poisoned state)

call_once_at : {World : Type 0} → Once → Text → Io World (Unit {0}) → Io World (Unit {0})
call_once_at Once.complete name closure state = (ok tt, state)
call_once_at Once.poisoned name closure state =
    (panic (codes "Once instance has previously been poisoned"), state)
call_once_at Once.incomplete name closure state = settle name (closure state)

-- `Once::call_once`; a closure that panics poisons the instance.
unfoldable pub call_once : {World : Type 0} → Text → Io World (Unit {0}) → Io World (Unit {0})
unfolding call_once_at
call_once name closure state = call_once_at (state.onces name) name closure state
