-- ===== src/Container/Child.antt =====
-- `Child` of packages/dns-test/src/container.rs: a process that runs in a container.
use dnssec_tests.Base.{List, Option, none, some}
use dnssec_tests.Text.{Text, codes}
use dnssec_tests.Error.{message, Result, ok, err, panic, ok_or, ◌>>=◌}
use dnssec_tests.System
use dnssec_tests.System.{System, Io, Process, lift, call}
use dnssec_tests.Container.{Container, Output, exec, try_from}

-- The container is kept so that it is not removed before the process is killed.
pub record Child : Type 0 where
  pub inner : Option Process
  pub container : Container

-- `ChildStdout` read by `BufRead::lines`.
abbrev pub Lines : Type 0
Lines = List (Result Text)

abbrev taken : Child → Process → Child
taken child process = record child { inner = some (record process { stdout = none }) }

-- `Option::take` on the handle of the process.
take_stdout : Child → Option Process → Result (Lines × Child)
take_stdout child none = err (message (codes "could not retrieve child's stdout"))
take_stdout child (some process) =
    ok_or (message (codes "could not retrieve child's stdout")) process.stdout >>= λ lines.
    ok (lines, taken child process)

-- The handle, and the child without it.
unfoldable pub stdout : Child → Result (Lines × Child)
unfolding take_stdout
stdout child = take_stdout child child.inner

module _ {World : Type 0} (system : System World) where
  unfoldable pub spawn : Container → List Text → Io World Child
  spawn container cmd =
      System.◌>>=◌ (call (system.spawn (exec container cmd)))
        λ process. lift (ok (record { inner = some process; container = container }))

  wait_for : Option Process → Io World Output
  unfolding try_from
  wait_for none = lift (panic (codes "unreachable"))
  wait_for (some process) =
      System.◌>>=◌ (call (system.wait_with_output process)) λ output. lift (try_from output)

  unfoldable pub wait : Child → Io World Output
  unfolding wait_for
  wait child = wait_for child.inner
