-- ===== src/Conformance/Amend.antt =====
-- The functions that spoil a signed zone, in packages/conformance-tests/src/resolver/dnssec:
-- scenarios/ede.rs and fixtures.rs.
pub mod Changes
pub mod Exact
pub mod Spoiled
use dnssec_tests.Base.{
  ℕ, suc, ◌+◌, ◌-◌, ◌==◌, ◌&&◌, Bool, true, false, List, [], ◌∷◌, ◌++◌, Option, none, some,
  if◌then◌else◌,
}
use dnssec_tests.Text.{Text, codes}
use dnssec_tests.Error.{Result, ok, err, panic, ◌>>=◌}
use dnssec_tests.Fqdn
use dnssec_tests.Fqdn.{Fqdn, nameservers, unwrap}
use dnssec_tests.Record
use dnssec_tests.Record.{Record}
use dnssec_tests.Record.Dnskey.{is_zone_signing_key}
use dnssec_tests.Record.RecordType.{RecordType}
use dnssec_tests.Record.Rrsig.{Rrsig}

-- The records that `drain(..).filter(..)` keeps, and the number of those that it removes.
pub remove : (Record → Bool) → List Record → List Record × ℕ
remove test [] = ([], 0)
remove test (r ∷ rs) =
    let (kept, count) = remove test rs in if test r then (kept, suc count) else (r ∷ kept, count)

-- The assertion on the number of records, behind the loop.
abbrev pub sanity_check : List Record × ℕ → Result (List Record)
sanity_check (records, count) =
    if count == 1
    then ok records
    else panic (codes "assertion `left == right` failed: sanity check")

unfoldable pub remove_one : (Record → Bool) → List Record → Result (List Record)
unfolding remove
remove_one test records = sanity_check (remove test records)

-- The body of the loop that changes the RRSIG records which match: the record, and how many it counts.
pub visit : (Rrsig → Bool) → (Rrsig → Result Rrsig) → Record → Result (Record × ℕ)
visit matches change (Record.rrsig v) =
    if matches v then (change v >>= λ w. ok (Record.rrsig w, 1)) else ok (Record.rrsig v, 0)
visit matches change r = ok (r, 0)

pub modify : (Rrsig → Bool) → (Rrsig → Result Rrsig) → List Record → Result (List Record × ℕ)
unfolding visit
modify matches change [] = ok ([], 0)
modify matches change (r ∷ rs) = visit matches change r >>= λ (changed, hits).
    modify matches change rs >>= λ (others, count). ok (changed ∷ others, hits + count)

unfoldable pub modify_one :
    (Rrsig → Bool) → (Rrsig → Result Rrsig) → List Record → Result (List Record)
unfolding modify
modify_one matches change records = modify matches change records >>= sanity_check

-- Only the zone `nameservers.com.` is spoiled.
abbrev pub in_nameservers :
    (List Record → Result (List Record)) → Fqdn → List Record → Result (List Record)
unfolding Fqdn.eq
in_nameservers spoil zone records = if Fqdn.eq zone nameservers then spoil records else ok records

unfoldable pub is_zsk_record : Record → Bool
unfolding is_zone_signing_key
is_zsk_record (Record.dnskey key) = is_zone_signing_key key
is_zsk_record _ = false

-- `PartialEq` of `RecordType`, at `RecordType::A`.
abbrev pub is_a : RecordType → Bool
is_a RecordType.a = true
is_a _ = false

-- An RRSIG record that covers the A record of the needle.
unfoldable pub covers : Fqdn → Rrsig → Bool
unfolding Fqdn.eq
covers needle rrsig = is_a rrsig.type_covered && Fqdn.eq rrsig.fqdn needle

unfoldable pub covers_record : Fqdn → Record → Bool
unfolding covers
covers_record needle (Record.rrsig rrsig) = covers needle rrsig
covers_record needle _ = false

unfoldable pub dnskey_missing : Fqdn → Fqdn → List Record → Result (List Record)
unfolding remove_one is_zsk_record
dnskey_missing needle = in_nameservers (remove_one is_zsk_record)

unfoldable pub rrsigs_missing : Fqdn → Fqdn → List Record → Result (List Record)
unfolding remove_one covers_record
rrsigs_missing needle = in_nameservers (remove_one (covers_record needle))

-- The lie about the algorithm.
unfoldable pub other_algorithm : Rrsig → Result Rrsig
other_algorithm rrsig =
    if rrsig.algorithm == 1
    then panic (codes "assertion `left != right` failed: modify the value below")
    else ok (record rrsig { algorithm = 1 })

unfoldable pub unsupported_dnskey_algorithm : Fqdn → Fqdn → List Record → Result (List Record)
unfolding modify_one covers other_algorithm
unsupported_dnskey_algorithm needle = in_nameservers (modify_one (covers needle) other_algorithm)

-- The subtraction is checked.
unfoldable pub expire : Rrsig → Result Rrsig
expire rrsig =
    if rrsig.signature_inception == 0
    then panic (codes "attempt to subtract with overflow")
    else ok (record rrsig { signature_expiration = rrsig.signature_inception - 1 })

unfoldable pub dnssec_bogus : Fqdn → Fqdn → List Record → Result (List Record)
unfolding modify_one covers expire
dnssec_bogus needle = in_nameservers (modify_one (covers needle) expire)

-- `*last = !*last` on bytes.
unfoldable pub flip_last : List ℕ → Result (List ℕ)
flip_last [] = panic (codes "empty signature")
flip_last (b ∷ []) = ok ((255 - b) ∷ [])
flip_last (b ∷ c ∷ bs) = flip_last (c ∷ bs) >>= λ flipped. ok (b ∷ flipped)

-- `decode` and `encode` are those of `BASE64_STANDARD`.
module _ (decode : Text → Result (List ℕ)) (encode : List ℕ → Text) where
  unfoldable pub flip_signature : Rrsig → Result Rrsig
  unfolding flip_last
  flip_signature rrsig = do
    signature ← unwrap (decode rrsig.signature)
    flipped ← flip_last signature
    ok (record rrsig { signature = encode flipped })

  -- The function of `bad_signature_in_leaf_nameserver`, which spoils every RRSIG record of the leaf.
  unfoldable pub bad_signature : Fqdn → Fqdn → List Record → Result (List Record)
  unfolding modify_one flip_signature Fqdn.eq
  bad_signature leaf_fqdn =
      in_nameservers (modify_one (λ rrsig. Fqdn.eq rrsig.fqdn leaf_fqdn) flip_signature)
