-- ===== src/Record/Dnskey/Flags.antt =====
-- The key-signing-key bit of DNSKEY records in packages/dns-test/src/record.rs.
use Prim.Native.Nat.{bit_and}
use dnssec_tests.Base.{
  ℕ, ◌-◌, ◌/◌, ◌%◌, ◌≤◌, true, ◌≡◌, ◌↔◌, refl, arith, all_below, all_below_sound, ==_iff, ◌==◌,
}
use dnssec_tests.Uint.{u16_max}
use dnssec_tests.Record.Dnskey.{
  Dnskey, clear_key_signing_key_bit, is_key_signing_key, is_zone_signing_key,
}

low_bit_table : all_below 65536 (λ x. bit_and x 1 == x % 2) ≡ true
unfolding all_below
low_bit_table = refl

low_bit : (x : ℕ) → x ≤ u16_max → bit_and x 1 ≡ x % 2
low_bit x h =
    (==_iff _ _).0 (all_below_sound 65536 (λ y. bit_and y 1 == y % 2) x low_bit_table (omega arith))

high_bits_table : all_below 65536 (λ x. bit_and x 65534 == x - x % 2) ≡ true
unfolding all_below
high_bits_table = refl

high_bits : (x : ℕ) → x ≤ u16_max → bit_and x 65534 ≡ x - x % 2
high_bits x h =
    (==_iff _ _).0
      (all_below_sound 65536 (λ y. bit_and y 65534 == y - y % 2) x high_bits_table (omega arith))

-- A key is a key-signing key exactly when its flags are odd.
pub is_key_signing_key-odd :
    (key : Dnskey) → key.flags ≤ u16_max → (is_key_signing_key key ≡ true) ↔ (key.flags % 2 ≡ 1)
unfolding is_key_signing_key
is_key_signing_key-odd key h = rw (low_bit key.flags h) (==_iff (key.flags % 2) 1)

-- Clearing the bit makes a zone-signing key and leaves all other bits and fields as they are.
pub clear_key_signing_key_bit_lem :
    (key : Dnskey)
    → key.flags ≤ u16_max
    → (is_zone_signing_key (clear_key_signing_key_bit key) ≡ true)
      × ((clear_key_signing_key_bit key).flags / 2 ≡ key.flags / 2)
      × (record (clear_key_signing_key_bit key) { flags = key.flags } ≡ key)
unfolding is_zone_signing_key clear_key_signing_key_bit is_key_signing_key
clear_key_signing_key_bit_lem key h =
    let e = high_bits key.flags h in
    let l = low_bit (bit_and key.flags 65534) (omega (arith, e)) in
    (ground (arith, e, l), omega (arith, e), refl)
