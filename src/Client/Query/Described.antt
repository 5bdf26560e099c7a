-- ===== src/Client/Query/Described.antt =====
-- What a run of `dig` returns: packages/dns-test/src/client.rs.
use dnssec_tests.Base.{List, subst}
use dnssec_tests.Text.{Text, lines}
use dnssec_tests.Ipv4.{Ipv4Addr}
use dnssec_tests.Fqdn.{Fqdn}
use dnssec_tests.Record.RecordType
use dnssec_tests.System.{System}
use dnssec_tests.System.Returns.{Returns, Returns-bind, Returns-lift}
use dnssec_tests.Container.{exec, pop_line_ends}
use dnssec_tests.Container.Printed.{Prints, stdout-Prints}
use dnssec_tests.Client.DigSettings.{DigSettings}
use dnssec_tests.Client.DigOutput.{DigOutput}
use dnssec_tests.Client.DigOutput.Document.{Item, Shows, Describes}
use dnssec_tests.Client.DigOutput.Sound.{Describes-from_str}
use dnssec_tests.Client.Query.{Client, dig, dig_command}

-- The text shows each part of the output once, with lines of other kinds between them.
abbrev pub IsShown : Text → DigOutput → Type 0
IsShown text output =
    (items : List Item) × Shows (lines (pop_line_ends text)) items × Describes items output

-- If the command of a query prints `text` whenever it runs, then the text shows each part of the output
-- that dig returns once, with lines of other kinds between them.
pub dig-IsShown :
    {World : Type 0} (system : System World) (client : Client) (settings : DigSettings)
    (server : Ipv4Addr) (record_type : RecordType.RecordType) (fqdn : Fqdn) (text : Text)
    → Prints system (exec client.inner (dig_command settings server record_type fqdn)) text
    → Returns (IsShown text) (dig system client settings server record_type fqdn)
unfolding dig
dig-IsShown system client settings server record_type fqdn text prints =
    Returns-bind
      (stdout-Prints system client.inner (dig_command settings server record_type fqdn) text prints)
      λ printed same. Returns-lift (record {
        holds = λ output e.
            subst (λ s. (items : List Item) × Shows (lines s) items × Describes items output) same
              (Describes-from_str printed output e);
      })
