-- ===== src/Client/DigSettings.antt =====
-- `DigSettings` of packages/dns-test/src/client.rs: the bits of a query, and dig's options for them.
use dnssec_tests.Base.{Bool, true, false, if◌then◌else◌}
use dnssec_tests.Text.{Text, codes}

pub record DigSettings : Type 0 where
  pub adflag : Bool
  pub cdflag : Bool
  pub dnssec : Bool
  pub recurse : Bool

-- `DigSettings::default`, derived.
abbrev pub default : DigSettings
default = record { adflag = false; cdflag = false; dnssec = false; recurse = false }

unfoldable pub authentic_data : DigSettings → DigSettings
authentic_data settings = record settings { adflag = true }

unfoldable pub checking_disabled : DigSettings → DigSettings
checking_disabled settings = record settings { cdflag = true }

unfoldable pub set_dnssec : DigSettings → DigSettings
set_dnssec settings = record settings { dnssec = true }

unfoldable pub set_recurse : DigSettings → DigSettings
set_recurse settings = record settings { recurse = true }

unfoldable pub adflag : DigSettings → Text
adflag settings = if settings.adflag then codes "+adflag" else codes "+noadflag"

unfoldable pub cdflag : DigSettings → Text
cdflag settings = if settings.cdflag then codes "+cdflag" else codes "+nocdflag"

unfoldable pub do_bit : DigSettings → Text
do_bit settings = if settings.dnssec then codes "+dnssec" else codes "+nodnssec"

unfoldable pub rdflag : DigSettings → Text
rdflag settings = if settings.recurse then codes "+recurse" else codes "+norecurse"
