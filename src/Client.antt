-- ===== src/Client.antt =====
-- packages/dns-test/src/client.rs: the settings of a query and the parser of the text that `dig`
-- prints.
pub mod Query
pub mod DigSettings
pub mod DigStatus
pub mod ExtendedDnsError
pub mod DigFlags
pub mod DigOutput
