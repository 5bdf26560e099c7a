-- ===== src/Container.antt =====
-- packages/dns-test/src/container.rs: containers that are run by docker, and the commands in them.
-- The diagnostics on stderr are outside of the model.
pub mod Child
pub mod Image
pub mod Messages
pub mod Names
pub mod Networks
pub mod Ownership
pub mod Printed
pub mod Copies
pub mod Trim
use dnssec_tests.Base.{
  ℕ, Bool, true, false, ◌==◌, ◌||◌, List, [], ◌∷◌, ◌++◌, if◌then◌else◌, Option, none, some,
}
use dnssec_tests.Text.{Text, codes, format, trim}
use dnssec_tests.Error.{message, Result, ok, err, panic}
use dnssec_tests.Uint.{uint_to_string}
use dnssec_tests.Ipv4
use dnssec_tests.Ipv4.{Ipv4Addr}
use dnssec_tests.System.{
  System, State, Io, ProcessOutput, ◌>>=◌, ◌>>◌, lift, call, fetch_add, expect, call_once,
}
pub use dnssec_tests.Container.Networks.{Network}
use dnssec_tests.Container.Messages.{panicked, failed, command_failed}

-- `Container` with its `Inner`.
pub record Container : Type 0 where
  pub name : Text
  pub id : Text
  pub ipv4_addr : Ipv4Addr
  pub network : Network

pub record Output : Type 0 where
  pub success : Bool
  pub stderr : Text
  pub stdout : Text

abbrev pub is_line_end : ℕ → Bool
is_line_end c = (c == 10) || (c == 13)

-- What is left of a character in front of a text that has lost its line ends.
abbrev pub keep : ℕ → Text → Text
keep c [] = if is_line_end c then [] else c ∷ []
keep c (d ∷ s) = c ∷ d ∷ s

-- `while s.ends_with(|c| matches!(c, '\n' | '\r')) { s.pop(); }`.
unfoldable pub pop_line_ends : Text → Text
pop_line_ends [] = []
pop_line_ends (c ∷ s) = keep c (pop_line_ends s)

-- `TryFrom<process::Output>`: the errors of `String::from_utf8` come first from stderr.
unfoldable pub try_from : ProcessOutput → Result Output
unfolding pop_line_ends
try_from output = elim output.stderr [
  | err e ↦ err e
  | panic m ↦ panic m
  | ok stderr ↦ elim output.stdout [
    | err e ↦ err e
    | panic m ↦ panic m
    | ok stdout ↦ ok (record {
      success = output.success;
      stderr = pop_line_ends stderr;
      stdout = pop_line_ends stdout;
    })
  ]
]

-- The command that runs another in the container.
abbrev pub exec : Container → List Text → List Text
exec container command_and_args =
    codes "docker" ∷ codes "exec" ∷ codes "-t" ∷ container.id ∷ command_and_args

module _ {World : Type 0} (system : System World) where
  unfoldable pub checked_output : List Text → Io World ProcessOutput
  unfolding command_failed
  checked_output command = do
    output ← call (system.output command)
    if output.success then lift (ok output) else lift (err (message (command_failed command)))

  unfoldable pub output : Container → List Text → Io World Output
  unfolding try_from
  output container command_and_args = do
    output ← call (system.output (exec container command_and_args))
    lift (try_from output)

  unfoldable pub stdout : Container → List Text → Io World Text
  unfolding output failed
  stdout container command_and_args = do
    output ← output container command_and_args
    if output.success
        then lift (ok output.stdout)
        else lift (err (message (failed container.name command_and_args)))

  unfoldable pub status : Container → List Text → Io World Bool
  status container command_and_args = call (system.status (exec container command_and_args))

  unfoldable pub status_ok : Container → List Text → Io World (Unit {0})
  unfolding status failed
  status_ok container command_and_args = do
    success ← status container command_and_args
    if success then lift (ok tt) else lift (err (message (failed container.name command_and_args)))

  unfoldable pub cp : Container → Text → Text → Io World (Unit {0})
  unfolding checked_output status_ok
  cp container path_in_container file_contents = do
    src_path ← call system.temp_file
    call (system.write src_path file_contents)
    _ ← checked_output (
        codes "docker"
        ∷ codes "cp"
        ∷ src_path
        ∷ format (container.id ∷ codes ":" ∷ path_in_container ∷ [])
        ∷ [])
    status_ok container (codes "chmod" ∷ codes "666" ∷ path_in_container ∷ [])

  unfoldable pub get_ipv4_addr : Text → Io World Ipv4Addr
  unfolding command_failed trim
  get_ipv4_addr container_id =
      let command =
        codes "docker"
        ∷ codes "inspect"
        ∷ codes "-f"
        ∷ codes "{{range.NetworkSettings.Networks}}{{.IPAddress}}{{end}}"
        ∷ container_id
        ∷ [] in
      do
        output ← call (system.output command)
        if output.success
            then (do stdout ← lift output.stdout; lift (Ipv4.from_str (trim stdout)))
            else lift (err (message (command_failed command)))

  -- `container_count`.
  unfoldable pub container_count : Io World ℕ
  container_count state =
      (ok state.container_count, record state { container_count = fetch_add state.container_count })

  -- The name of a container: `PACKAGE_NAME` is `dns-test`.
  unfoldable pub container_name : Image.Image → ℕ → Text
  container_name image count = format (
      codes "dns-test-"
      ∷ Image.to_string image
      ∷ codes "-"
      ∷ uint_to_string system.id
      ∷ codes "-"
      ∷ uint_to_string count
      ∷ [])

  exec_or_panic : List Text → Bool → Io World (Unit {0})
  exec_or_panic command verbose =
      if verbose
      then (do
        success ←
            expect (codes "called `Result::unwrap()` on an `Err` value")
              (call (system.status command))
        if success then lift (ok tt) else lift (panic (codes "assertion failed: status.success()")))
      else (do
        output ←
            expect (codes "called `Result::unwrap()` on an `Err` value")
              (call (system.output command))
        if output.success
            then lift (ok tt)
            else lift (panic (panicked output.stdout_lossy output.stderr_lossy)))

  clone_repository : Image.Image → Text → Io World (Unit {0})
  unfolding exec_or_panic
  clone_repository (Image.Image.hickory repo) docker_build_dir =
      exec_or_panic
        (codes "git"
          ∷ codes "clone"
          ∷ codes "--depth"
          ∷ codes "1"
          ∷ repo.inner
          ∷ (docker_build_dir ++ codes "/src")
          ∷ [])
        false
  clone_repository _ docker_build_dir = lift (ok tt)

  -- The closure that `call_once` runs.
  build_image : Image.Image → Text → Text → Io World (Unit {0})
  unfolding clone_repository exec_or_panic
  build_image image image_tag docker_build_dir = do
    clone_repository image docker_build_dir
    expect (codes "could not create .dockerignore file")
        (call (system.write (docker_build_dir ++ codes "/.dockerignore") (codes "src/.git")))
    exec_or_panic (codes "docker" ∷ codes "build" ∷ codes "-t" ∷ image_tag ∷ docker_build_dir ∷ [])
        system.verbose_docker_build

  abbrev run_command : Text → Text → Network → List Text
  run_command name image_tag network =
      codes "docker"
      ∷ codes "run"
      ∷ codes "--rm"
      ∷ codes "--detach"
      ∷ codes "--cap-add=NET_RAW"
      ∷ codes "--cap-add=NET_ADMIN"
      ∷ codes "--network"
      ∷ network.name
      ∷ codes "--name"
      ∷ name
      ∷ codes "-it"
      ∷ image_tag
      ∷ codes "sleep"
      ∷ codes "infinity"
      ∷ []

  -- Starts the container in a "parked" state.
  unfoldable pub run : Image.Image → Network → Io World Container
  unfolding build_image checked_output get_ipv4_addr container_count container_name try_from
      Image.dockerfile Image.to_string call_once
  run image network = do
    docker_build_dir ← call system.temp_dir
    call (system.write (docker_build_dir ++ codes "/Dockerfile") (Image.dockerfile image))
    let image_tag = codes "dns-test-" ++ Image.to_string image
    call_once (Image.to_string image) (build_image image image_tag docker_build_dir)
    count ← container_count
    let name = container_name image count
    output ← checked_output (run_command name image_tag network)
    output ← lift (try_from output)
    ipv4_addr ← get_ipv4_addr output.stdout
    lift (ok (record { name = name; id = output.stdout; ipv4_addr = ipv4_addr; network = network }))
