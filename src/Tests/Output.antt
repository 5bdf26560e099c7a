-- ===== src/Tests/Output.antt =====
-- The output of dig: packages/dns-test/src/client.rs; the implementations: implementation.rs and
-- lib.rs.
use dnssec_tests.Base.{
  List, [], ◌∷◌, ◌++◌, ◌≡◌, ◌↔◌, inl, refl, sym, ap, true, false, Bool, none, some, All,
}
use dnssec_tests.Text.{Text, codes, lines, split_once, split_whitespace}
use dnssec_tests.Error.{Result, ok, err, panic}
use dnssec_tests.System.{System, ProcessOutput}
use dnssec_tests.System.Returns.{Returns}
use dnssec_tests.Ipv4.{Ipv4Addr}
use dnssec_tests.Fqdn.{Fqdn}
use dnssec_tests.Record.RecordType
use dnssec_tests.Container.{exec}
use dnssec_tests.Container.Printed.{Prints}
use dnssec_tests.Client.DigSettings
use dnssec_tests.Client.Query.{Client, dig, dig_command}
use dnssec_tests.Client.Query.Described.{IsShown, dig-IsShown}
use dnssec_tests.Tests.Servers.{machine}
use dnssec_tests.Client.DigFlags
use dnssec_tests.Client.DigFlags.{DigFlags}
use dnssec_tests.Client.DigFlags.Tokens.{IsFlag, with_tokens, from_str-with_tokens}
use dnssec_tests.Client.DigStatus
use dnssec_tests.Client.DigStatus.{DigStatus, nxdomain, mnemonic, from_str-mnemonic_iff}
use dnssec_tests.Client.DigOutput.{DigOutput, branch, from_str}
use dnssec_tests.Client.DigOutput.Document.{
  Item, flags_item, status_item, Shows, done, noise, flags, status, Describes,
}
use dnssec_tests.Client.DigOutput.Complete.{from_str-Describes}
use dnssec_tests.Client.DigOutput.Sound.{Describes-from_str}
use dnssec_tests.Implementation.{role, cmd_args, pidfile, Implementation, Config}
use dnssec_tests.Implementation.Templates.{Value, unbound_conf, format_config}
use dnssec_tests.Implementation.Paths.{IsNamedBy, format_config-pidfile}
use dnssec_tests.Implementation.Subject.{Names, parse_subject, parse_subject_iff}

-- Three lines of the output of `dig nonexistent.domain.`
abbrev noise_line : Text
noise_line = codes ";; global options: +cmd"

abbrev status_line : Text
status_line = codes ";; ->>HEADER<<- opcode: QUERY, status: NXDOMAIN, id: 45583"

abbrev flags_line : Text
flags_line = codes ";; flags: qr rd ra; QUERY: 1, ANSWER: 0, AUTHORITY: 0, ADDITIONAL: 1"

abbrev input : Text
input = noise_line ++ (codes "\n" ++ (status_line ++ (codes "\n" ++ flags_line)))

abbrev flags_read : DigFlags
flags_read = record DigFlags.default {
  qr = true;
  recursion_available = true;
  recursion_desired = true;
}

abbrev output : DigOutput
output = record { ede = none; flags = flags_read; status = nxdomain; answer = []; authority = [] }

lines-input : lines input ≡ noise_line ∷ status_line ∷ flags_line ∷ []
unfolding lines
lines-input = refl

input-Shows : Shows (lines input) (status_item nxdomain ∷ flags_item flags_read ∷ [])
unfolding branch split_once DigFlags.from_str DigStatus.from_str
input-Shows = rw lines-input (
    noise noise_line refl (
      status status_line (codes "NXDOMAIN, id: 45583") (codes "NXDOMAIN") (codes " id: 45583")
        nxdomain refl refl refl
        (flags flags_line (codes "qr rd ra; QUERY: 1, ANSWER: 0, AUTHORITY: 0, ADDITIONAL: 1")
          (codes "qr rd ra") (codes " QUERY: 1, ANSWER: 0, AUTHORITY: 0, ADDITIONAL: 1") flags_read
          refl refl refl done)))

output-Describes : Describes (status_item nxdomain ∷ flags_item flags_read ∷ []) output
output-Describes = record {
  flags = refl;
  status = refl;
  ede = refl;
  answer = inl (refl, refl);
  authority = inl (refl, refl);
}

from_str-Describes_example : from_str input ≡ ok output
from_str-Describes_example = from_str-Describes input _ output input-Shows output-Describes

Describes-from_str_example :
    (items : List Item) × Shows (lines input) items × Describes items output
Describes-from_str_example = Describes-from_str input output from_str-Describes_example

from_str-with_tokens_example : (DigFlags.from_str (codes "qr  rd ra") ≡ ok flags_read) ↔ (
    All IsFlag (split_whitespace (codes "qr  rd ra"))
    × (flags_read ≡ with_tokens DigFlags.default (split_whitespace (codes "qr  rd ra"))))
from_str-with_tokens_example = from_str-with_tokens (codes "qr  rd ra") flags_read

abbrev ede_config : Config
ede_config = Config.resolver true (codes "172.21.0.0/16") true

abbrev render_nothing : Text → List (Text × Value) → Text
render_nothing t values = t

-- The paths that exist and the URLs of the example.
abbrev no_path : Text → Bool
no_path _ = false

abbrev any_url : Text → Bool
any_url _ = true

abbrev hickory : Implementation
hickory = Implementation.hickory (record { inner = codes "https://example" })

hickory_subject_read :
    parse_subject no_path any_url (some (codes "hickory https://example")) ≡ ok hickory
unfolding parse_subject
hickory_subject_read = refl

parse_subject_iff_example :
    (parse_subject no_path any_url (some (codes "hickory https://example")) ≡ ok hickory)
    ↔ Names no_path any_url (some (codes "hickory https://example")) hickory
parse_subject_iff_example =
    parse_subject_iff no_path any_url (some (codes "hickory https://example")) hickory

format_config-pidfile_example :
    IsNamedBy render_nothing
      (codes "/tmp/unbound.pid")
      (codes "unbound" ∷ codes "-d" ∷ [])
      unbound_conf
unfolding pidfile cmd_args role format_config
format_config-pidfile_example =
    format_config-pidfile render_nothing Implementation.unbound ede_config unbound_conf refl

-- A machine on which every command succeeds and prints the three lines.
abbrev process_output : ProcessOutput
process_output = record {
  success = true;
  stderr = ok [];
  stdout = ok input;
  stderr_lossy = [];
  stdout_lossy = input;
}

abbrev printing : System Unit
printing = record machine { output = λ _ w. (ok process_output, w) }

abbrev client : Client
client = record {
  inner = record {
    name = codes "c";
    id = codes "1";
    ipv4_addr = record { octet0 = 10; octet1 = 0; octet2 = 0; octet3 = 1 };
    network = record { name = codes "net"; subnet = codes "10.0.0.0/8" };
  };
}

abbrev stdout_of : Result ProcessOutput → Result Text
stdout_of (ok o) = o.stdout
stdout_of (err e) = err e
stdout_of (panic m) = panic m

abbrev loopback : Ipv4Addr
loopback = record { octet0 = 127; octet1 = 0; octet2 = 0; octet3 = 1 }

abbrev nonexistent : Fqdn
nonexistent = record { inner = codes "nonexistent.domain." }

prints :
    Prints printing
      (exec client.inner (dig_command DigSettings.default loopback RecordType.soa nonexistent))
      input
prints w w' o e = ap (λ r. stdout_of r.0) (sym e)

dig-IsShown_example :
    Returns
      (IsShown input)
      (dig printing client DigSettings.default loopback RecordType.soa nonexistent)
dig-IsShown_example =
    dig-IsShown printing client DigSettings.default loopback RecordType.soa nonexistent input prints
