-- ===== src/Tshark/Run.antt =====
-- The run of tshark in packages/dns-test/src/tshark.rs: the capture of the messages of a container.
use dnssec_tests.Base.{ℕ, List, [], ◌∷◌, Option, none, some, if◌then◌else◌}
use dnssec_tests.Text.{Text, codes, contains, format, rsplit_once}
use dnssec_tests.Error.{message, Result, ok, err, panic}
use dnssec_tests.Uint.{u64_max, parse_uint}
use dnssec_tests.System.{System, Io, ◌>>=◌, ◌>>◌, lift, fetch_add}
use dnssec_tests.Container.{Container, status_ok, stdout}
use dnssec_tests.Container.Child
use dnssec_tests.Container.Child.{Child, Lines, spawn, wait}
use dnssec_tests.Tshark.{Layers, Capture, captures, pid_file, capture_file}

-- The lines that are left of the child's stdout are kept beside it.
pub record Tshark : Type 0 where
  pub child : Child
  pub container : Container
  pub id : ℕ
  pub stdout : Lines

-- `ID.fetch_add`.
unfoldable pub next_id : {World : Type 0} → Io World ℕ
next_id state =
    (ok state.tshark_count, record state { tshark_count = fetch_add state.tshark_count })

-- The shell command that runs tshark; `UDP_PORT` is 53.
unfoldable pub tshark_command : ℕ → Text
unfolding pid_file capture_file
tshark_command id = format (
    codes "echo $$ > "
    ∷ pid_file id
    ∷ codes "\nexec tshark --log-level debug --log-domain main,capture -l -i eth0"
    ∷ codes " -T json -O dns -f 'udp port 53' > "
    ∷ capture_file id
    ∷ [])

-- The loop over the log, up to the line that says that the capture has started.
unfoldable pub skip_to_capture : Lines → Result Lines
unfolding contains
skip_to_capture [] = ok []
skip_to_capture (ok line ∷ rest) =
    let others = skip_to_capture rest in
    if contains (codes "Capture started") line then ok rest else others
skip_to_capture (err e ∷ rest) = err e
skip_to_capture (panic m ∷ rest) = panic m

-- The number of messages in the line of the log.
abbrev pub count_of : Option (Text × Text) → Result ℕ
unfolding parse_uint
count_of none = panic (codes "called `Option::unwrap()` on a `None` value")
count_of (some (_, count)) = parse_uint u64_max count

unfoldable pub packet_count : Text → Result ℕ
unfolding rsplit_once
packet_count line = count_of (rsplit_once (codes " ") line)

-- The loop of `wait_for_capture`: what it returns, and the lines that it leaves.
unfoldable pub read_count : Lines → Result ℕ × Lines
unfolding contains packet_count
read_count [] = (err (message (codes "unexpected EOF")), [])
read_count (ok line ∷ rest) =
    let others = read_count rest in
    if contains (codes ": new packets ") line then (packet_count line, rest) else others
read_count (err e ∷ rest) = (err e, rest)
read_count (panic m ∷ rest) = (panic m, rest)

unfoldable pub wait_for_capture : Tshark → Result ℕ × Tshark
unfolding read_count
wait_for_capture tshark =
    let (result, rest) = read_count tshark.stdout in (result, record tshark { stdout = rest })

-- The loop that exhausts the log.
unfoldable pub drain : Lines → Result (Unit {0})
drain [] = ok tt
drain (ok line ∷ rest) = drain rest
drain (err e ∷ rest) = err e
drain (panic m ∷ rest) = panic m

abbrev pub kill_command : ℕ → Text
kill_command id = format (
    codes "test -f "
    ∷ pid_file id
    ∷ codes " || sleep 1; kill $(cat "
    ∷ pid_file id
    ∷ codes ")"
    ∷ [])

module _ {World : Type 0} (system : System World) where
  unfoldable pub eavesdrop : Container → Io World Tshark
  unfolding next_id tshark_command spawn Child.stdout skip_to_capture
  eavesdrop container = do
    id ← next_id
    child ← spawn system container (codes "sh" ∷ codes "-c" ∷ tshark_command id ∷ [])
    (lines, child') ← lift (Child.stdout child)
    rest ← lift (skip_to_capture lines)
    lift (ok (record { child = child'; container = container; id = id; stdout = rest }))

-- `decode` is `serde_json::from_str` at the derived `Vec<Entry>`.
module _ {World : Type 0} (system : System World) (decode : Text → Result (List Layers)) where
  unfoldable pub terminate : Tshark → Io World (List Capture)
  unfolding status_ok wait drain stdout captures
  terminate tshark = do
    let container = tshark.container
    status_ok system container (codes "sh" ∷ codes "-c" ∷ kill_command tshark.id ∷ [])
    output ← wait system tshark.child
    if output.success
        then (do
          lift (drain tshark.stdout)
          text ← stdout system container (codes "cat" ∷ capture_file tshark.id ∷ [])
          entries ← lift (decode text)
          lift (captures container.ipv4_addr entries))
        else lift (err (message (codes "could not terminate the `tshark` process")))
