-- ===== src/Tests/Data.antt =====
-- Values that the tests share, most of them from the unit tests of packages/dns-test/src.
use dnssec_tests.Base.{◌++◌, refl, arith}
use dnssec_tests.Text.{Text, codes, is_whitespace}
use dnssec_tests.Text.Columns.{IsWord, is_word, is_word-IsWord}
use dnssec_tests.Fqdn.{Fqdn, fqdn, root, com_zone}
use dnssec_tests.Fqdn.Names.{IsName}
use dnssec_tests.Record
use dnssec_tests.Record.{Record}
use dnssec_tests.Record.A.{A}
use dnssec_tests.Record.Dnskey.{Dnskey}
use dnssec_tests.Record.Soa.{Soa, default_settings}
use dnssec_tests.Record.Ns.{Ns}

abbrev pub a_root : Fqdn
a_root = record { inner = codes "a.root-servers.net." }

abbrev pub a_input : Text
a_input = codes "a.root-servers.net.\t77859\tIN\tA\t198.41.0.4"

abbrev pub a_record : A
a_record = record {
  fqdn = a_root;
  ttl = 77859;
  ipv4_addr = record { octet0 = 198; octet1 = 41; octet2 = 0; octet3 = 4 };
}

pub root-IsName : IsName root
unfolding fqdn is_word is_whitespace
root-IsName = record { accepted = refl; word = is_word-IsWord _ refl }

pub com_zone-IsName : IsName com_zone
unfolding fqdn is_word is_whitespace
com_zone-IsName = record { accepted = refl; word = is_word-IsWord _ refl }

pub a_root-IsName : IsName a_root
unfolding fqdn is_word is_whitespace
a_root-IsName = record { accepted = refl; word = is_word-IsWord _ refl }

pub a_record-IsValid : Record.A.IsValid a_record
a_record-IsValid = record { fqdn = a_root-IsName; ttl = omega arith; ipv4_addr = omega arith }

abbrev pub key_text : Text
key_text =
    codes "AwEAAbEzD/uB2WK89f+PJ1Lyg5xvdt9mXge/R5tiQl8SEAUh/kfbn8jQ"
    ++ codes "iakH3HbBnBtdNXpjYrsmM7AxMmJLrp75dFMVnl5693"

abbrev pub key : Dnskey
key = record {
  zone = root;
  ttl = 86400;
  flags = 257;
  protocol = 3;
  algorithm = 7;
  public_key = key_text;
}

pub key_text-IsWord : IsWord key_text
unfolding is_word is_whitespace
key_text-IsWord = is_word-IsWord _ refl

pub key-IsValid : Record.Dnskey.IsValid key
key-IsValid = record {
  zone = root-IsName;
  ttl = omega arith;
  flags = omega arith;
  protocol = omega arith;
  algorithm = omega arith;
  public_key = key_text-IsWord.solid;
}

abbrev pub soa : Soa
soa = record {
  zone = com_zone;
  ttl = 86400;
  nameserver = a_root;
  admin = a_root;
  settings = default_settings;
}

pub soa-IsValid : Record.Soa.IsValid soa
soa-IsValid = record {
  zone = com_zone-IsName;
  ttl = omega arith;
  nameserver = a_root-IsName;
  admin = a_root-IsName;
  settings = omega arith;
}

abbrev pub ns : Ns
ns = record { zone = com_zone; ttl = 86400; nameserver = a_root }

pub ns-IsValid : Record.Ns.IsValid ns
ns-IsValid = record { zone = com_zone-IsName; ttl = omega arith; nameserver = a_root-IsName }
