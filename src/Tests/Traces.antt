-- ===== src/Tests/Traces.antt =====
-- Captured messages, and the run of tshark: packages/dns-test/src/tshark.rs.
use dnssec_tests.Base.{List, [], ◌∷◌, ◌≡◌, ◌↔◌, refl, sym, ap, true, false, some, ◌++◌, All, arith}
use dnssec_tests.Text.{Text, codes, contains}
use dnssec_tests.Error.{Result, ok, err, panic}
use dnssec_tests.Ipv4.{Ipv4Addr}
use dnssec_tests.Tshark.{
  Value, Fields, Layers, Direction, Capture, Message, captures, is_do_bit_set,
}
use dnssec_tests.Tshark.Captures.{AreCaptures, captures_iff}
use dnssec_tests.Tshark.Run.{Tshark, drain, terminate, wait_for_capture}
use dnssec_tests.Tshark.Log.{new_packets, wait_for_capture-told}
use dnssec_tests.Tshark.Ending.{AreCapturesOf, terminate-AreCapturesOf}
use dnssec_tests.Container.Printed.{Prints}
use dnssec_tests.System.{ProcessOutput}
use dnssec_tests.Tshark.{capture_file}
use dnssec_tests.System.Returns.{Returns}
use dnssec_tests.Container.{Container, exec, pop_line_ends}
use dnssec_tests.Conformance.Checks.Trace.{AreCheckedBy, terminate-checked}
use dnssec_tests.Tests.Servers.{machine, process}
use dnssec_tests.Uint.{uint_to_string}

abbrev pub own : Ipv4Addr
own = record { octet0 = 10; octet1 = 0; octet2 = 0; octet3 = 1 }

abbrev pub peer : Ipv4Addr
peer = record { octet0 = 10; octet1 = 0; octet2 = 0; octet3 = 2 }

abbrev entries : List Layers
entries =
    record { src = peer; dst = own; dns = Value.null }
    ∷ record { src = own; dst = peer; dns = Value.null }
    ∷ []

abbrev read : List Capture
read =
    record { message = record { inner = Value.null }; direction = Direction.incoming peer }
    ∷ record { message = record { inner = Value.null }; direction = Direction.outgoing peer }
    ∷ []

captures_iff_example : (captures own entries ≡ ok read) ↔ AreCaptures own entries read
captures_iff_example = captures_iff own entries read

captures-entries : captures own entries ≡ ok read
unfolding captures
captures-entries = refl

-- A query with an OPT record whose DO bit is set.
abbrev query : Message
query = record {
  inner = Value.object (
      Fields.field (codes "Additional records")
        (Value.object (
          Fields.field (codes "<Root>: type OPT")
            (Value.object (
              Fields.field (codes "dns.resp.z_tree")
                (Value.object
                  (Fields.field (codes "dns.resp.z.do") (Value.string (codes "1")) Fields.empty))
                Fields.empty))
            Fields.empty))
        Fields.empty);
}

is_do_bit_set-query : is_do_bit_set query ≡ some true
unfolding is_do_bit_set
is_do_bit_set-query = refl

abbrev container : Container
container = record {
  name = codes "c";
  id = codes "1";
  ipv4_addr = own;
  network = record { name = codes "net"; subnet = codes "10.0.0.0/8" };
}

-- tshark in a container, behind the start of its capture.
abbrev tshark : Tshark
tshark = record {
  child = record { inner = some process; container = container };
  container = container;
  id = 0;
  stdout = [];
}

silent : All (λ l. contains new_packets l ≡ false) (codes "sync_pipe_input_cb(): ready" ∷ [])
unfolding contains
silent = (refl, tt)

wait_for_capture-told_example :
    wait_for_capture (record tshark {
      stdout =
          ok (codes "sync_pipe_input_cb(): ready")
          ∷ ok (codes "sync_pipe_input_cb()" ++ (new_packets ++ uint_to_string 12))
          ∷ ok (codes "end")
          ∷ [];
    })
    ≡ (ok 12, record tshark { stdout = ok (codes "end") ∷ [] })
wait_for_capture-told_example =
    wait_for_capture-told tshark (codes "sync_pipe_input_cb(): ready" ∷ [])
      (codes "sync_pipe_input_cb()") 12 (ok (codes "end") ∷ []) silent (omega arith)

abbrev decode : Text → Result (List Layers)
decode text = ok entries

abbrev stdout_of : Result ProcessOutput → Result Text
stdout_of (ok o) = o.stdout
stdout_of (err e) = err e
stdout_of (panic m) = panic m

-- Every command of the machine prints its address.
abbrev printed : Text
printed = codes "10.0.0.1\n"

prints : Prints machine (exec container (codes "cat" ∷ capture_file 0 ∷ [])) printed
prints w w' o e = ap (λ r. stdout_of r.0) (sym e)

terminate-AreCapturesOf_example :
    Returns
      (λ captures. AreCapturesOf decode tshark printed captures × (drain tshark.stdout ≡ ok tt))
      (terminate machine decode tshark)
terminate-AreCapturesOf_example = terminate-AreCapturesOf machine decode tshark printed prints

abbrev client_addr : Ipv4Addr
client_addr = record { octet0 = 10; octet1 = 0; octet2 = 0; octet3 = 3 }

-- A trace in which the container asks its peer with the DO bit set.
abbrev decode_query : Text → Result (List Layers)
decode_query text = ok (record { src = own; dst = peer; dns = query.inner } ∷ entries)

terminate-checked_example :
    Returns
      (λ captures.
        (layers : List Layers) × (decode_query (pop_line_ends printed) ≡ ok layers)
        × AreCheckedBy own client_addr peer layers captures)
      (terminate machine decode_query tshark)
terminate-checked_example =
    terminate-checked machine decode_query tshark printed client_addr peer prints
