-- ===== src/Tests.antt =====
-- Runs of the model on the inputs of the sources' own unit tests and on other small inputs, and the
-- theorems of the development at inputs that meet their hypotheses.
mod Conformance
mod Data
mod Records
mod ZoneFiles
mod Names
mod Ownership
mod Output
pub mod Servers
mod Starts
mod Signing
mod Traces
