-- ===== src/Conformance.antt =====
-- packages/conformance-tests/src: the tests of DNS servers that are built upon the crate, as
-- computations over the operating system; a test passes if its computation returns. The text of an
-- assertion that fails is the first line of its panic.
pub mod Amend
pub mod Answers
pub mod Authority
pub mod Checks
pub mod ExtendedErrors
pub mod Fixtures
pub mod Traffic
pub mod Validation
pub mod Verdicts
