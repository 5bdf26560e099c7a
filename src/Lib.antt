-- ===== src/Lib.antt =====
-- The library crate dns-test of packages/dns-test/src: a framework that builds small DNS graphs out of
-- name servers in containers, asks them with `dig` and checks the answers.
--
-- The parts, from the bottom up:
--   * Error: `Error` and `Result` of lib.rs. A function that can panic returns a third outcome.
--   * Text, Uint, Ipv4: what the sources use of Rust's standard library. A text is a list of Unicode
--     code points, an unsigned integer a number with its largest value, an address four octets.
--   * Fqdn: fqdn.rs. The text of a name is a value; names as lists of labels are the abstract view.
--   * Record: record.rs. One module for each type of record with its `FromStr` and `Display`; a record
--     is read from the columns of a line, and `Record` dispatches on the fourth column. Common has the
--     checks and the chunks of long fields that the types share.
--   * ZoneFile: zone_file/mod.rs. A zone file is an SOA record and a list of records; Entry is its
--     `DNSKEY`, a key in the file of `ldns-keygen`, and Root a root hint.
--   * TrustAnchor: trust_anchor.rs, with the formats of `delv` and of the resolvers.
--   * Client: client.rs, the settings of a query and the parser of what `dig` prints. The loop over the
--     lines keeps its variables in `Found`, and its inner loops are `read_answer` and `read_authority`.
--   * Implementation: implementation.rs, the templates it renders, and `parse_subject` and `parse_peer`
--     of lib.rs, as functions of the variable's value.
--   * System: the calls of the operating system, as an interface, and the computations over it. They
--     thread a state: the machine, and the statics of the crate. Logged puts a log of the commands and
--     the written files beside any machine.
--   * Container: container.rs, docker's commands over System; Image has the Dockerfiles, Child the
--     processes in a container, and Networks container/network.rs. Ownership is the state machine of the
--     handles: `Counts` counts the owners of each `Arc`, a step makes, clones or drops a handle that the
--     program holds, and a drop of the last owner is noted as the removal that `Drop` runs.
--   * NameServer: name_server.rs. Lifecycle has the operations that take a server from one state to the
--     next; Links has the passes of `Graph::build` that need no container, and Graph the rest.
--   * Resolver: resolver.rs, the settings and, in Start, the start and the end of a resolver.
--   * Tshark: tshark.rs. Run has the start of tshark, its log and its end; the rest is what is read out
--     of a trace that is decoded.
--   * Conformance: the tests of packages/conformance-tests/src, each a computation over System. Amend has
--     the functions that spoil a signed zone, Checks the loops over captured messages, Fixtures the
--     networks that tests share, and Validation, ExtendedErrors, Traffic and Authority the tests.
--   * Explore: packages/dns-test/examples/explore.rs, its command line and the network that it starts.
-- A client reads texts into records by way of Record; ZoneFile and TrustAnchor hold records and print
-- them by Record; the configuration and the paths of Implementation are what NameServer and Resolver
-- start a server with, in a Container.
--
-- Every loop runs over a list of lines, columns, records, servers or characters, so it is structural
-- recursion, but for the loop of `Graph::build` over the parents of a zone: `first_pass` has one unit
-- of fuel more than the zone's text has characters, and a parent's text is shorter. Integers are
-- checked against the largest value of their type where they are read, as the sources do; the counters
-- of servers, containers, networks and captures wrap around at 2 ^ 64.
--
-- The stdout of a child is the list of the lines that can be read from it up to its end; a loop that
-- reads it leaves the rest. A computation drops nothing: what drops do is the matter of Ownership, where
-- the counts of `Arc` are not bounded.
--
-- Parameters of the model: the operating system with docker, the template engine (`minijinja`), the
-- decoding of JSON (`serde_json` and the derived `Deserialize`), base64, the implementations that the
-- environment names for a test, whether a path exists and whether a text is a URL. Not modelled: the
-- output on stdout and stderr but for the instructions of the example, the values in the message of an
-- assertion that fails, and the wait of the example for an interrupt, which is up to the crate `ctrlc`.
pub mod Base
pub mod Text
pub mod Error
pub mod Uint
pub mod Ipv4
pub mod System
pub mod Fqdn
pub mod Record
pub mod ZoneFile
pub mod TrustAnchor
pub mod Implementation
pub mod Container
pub mod Client
pub mod NameServer
pub mod Resolver
pub mod Tshark
pub mod Conformance
pub mod Explore
pub mod Tests
