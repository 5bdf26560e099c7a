-- ===== src/Tests/Conformance.antt =====
-- The checks of packages/conformance-tests/src on small zones, answers and traces.
use dnssec_tests.Base.{
  ◌+◌, ℕ, ◌≤◌, leb, Bool, true, Bool-cases, inl, inr, List, [], ◌∷◌, some, ◌≡◌, ◌≢◌, ◌↔◌, refl,
  subst, arith, All, length, if◌then◌else◌, ◌&&◌,
}
use dnssec_tests.Text.{Text, codes}
use dnssec_tests.Error.{Result, ok, err, panic, ok-eq}
use dnssec_tests.Ipv4.{Ipv4Addr}
use dnssec_tests.Fqdn
use dnssec_tests.Fqdn.{Fqdn, nameservers, com_zone}
use dnssec_tests.Record.{Record}
use dnssec_tests.Record.RecordType.{RecordType}
use dnssec_tests.Record.Rrsig.{Rrsig}
use dnssec_tests.Tshark.{Value, Direction, Capture, is_do_bit_set}
use dnssec_tests.Conformance.Amend.{
  covers, covers_record, is_zsk_record, dnskey_missing, rrsigs_missing, dnssec_bogus, expire,
  flip_signature, bad_signature,
}
use dnssec_tests.Conformance.Amend.Exact.{Removed}
use dnssec_tests.Conformance.Amend.Changes.{Changed}
use dnssec_tests.Conformance.Amend.Spoiled.{removals_iff, dnssec_bogus-expire, bad_signature-ne}
use dnssec_tests.Conformance.Checks.{
  check_do_bit, check_edns, check_queries, clears_ad_flag, one_ds_query,
}
use dnssec_tests.Conformance.Checks.Spec.{IsQueryWith, IsLarge, queries_iff}
use dnssec_tests.Conformance.Checks.AdFlag.{
  IsClear, count, from_client, to_server, clears_ad_flag_iff,
}
use dnssec_tests.Conformance.Checks.DsQueries.{AsksParent, all_sent, one_ds_query_iff}
use dnssec_tests.Tests.Data.{key}
use dnssec_tests.Tests.Traces.{peer}

abbrev needle : Fqdn
needle = record { inner = codes "example.nameservers.com." }

-- A signature of the needle's A record.
abbrev signed : Rrsig
signed = record {
  fqdn = needle;
  ttl = 86400;
  type_covered = RecordType.a;
  algorithm = 7;
  labels = 3;
  original_ttl = 86400;
  signature_expiration = 20240424000000;
  signature_inception = 20240410000000;
  key_tag = 1;
  signer_name = nameservers;
  signature = codes "AbCd";
}

abbrev zsk : Record
zsk = Record.dnskey (record key { flags = 256 })

removals_iff_example :
    ((dnskey_missing needle nameservers (Record.dnskey key ∷ zsk ∷ [])
        ≡ ok (Record.dnskey key ∷ []))
      ↔ Removed is_zsk_record (Record.dnskey key ∷ zsk ∷ []) (Record.dnskey key ∷ []))
    × ((rrsigs_missing needle nameservers (Record.dnskey key ∷ zsk ∷ [])
          ≡ ok (Record.dnskey key ∷ []))
        ↔ Removed (covers_record needle) (Record.dnskey key ∷ zsk ∷ []) (Record.dnskey key ∷ []))
removals_iff_example = removals_iff needle (Record.dnskey key ∷ zsk ∷ []) (Record.dnskey key ∷ [])

-- The test for missing keys at a zone with one zone-signing key.
zsk-removed :
    dnskey_missing needle nameservers (Record.dnskey key ∷ zsk ∷ []) ≡ ok (Record.dnskey key ∷ [])
unfolding dnskey_missing Fqdn.eq
zsk-removed = refl

abbrev expired : Rrsig
expired = record signed { signature_expiration = 20240409999999 }

signed-expired :
    dnssec_bogus needle nameservers (zsk ∷ Record.rrsig signed ∷ [])
    ≡ ok (zsk ∷ Record.rrsig expired ∷ [])
unfolding dnssec_bogus Fqdn.eq
signed-expired = refl

dnssec_bogus-expire_example :
    (h : Changed
      (covers needle)
      expire
      (zsk ∷ Record.rrsig signed ∷ [])
      (zsk ∷ Record.rrsig expired ∷ []))
    × (h.new.signature_expiration + 1 ≡ h.old.signature_inception)
    × (h.new ≡ record h.old { signature_expiration = h.new.signature_expiration })
dnssec_bogus-expire_example =
    dnssec_bogus-expire needle (zsk ∷ Record.rrsig signed ∷ []) (zsk ∷ Record.rrsig expired ∷ [])
      signed-expired

-- A code whose texts are their own bytes.
are_bytes : Text → Bool
are_bytes [] = true
are_bytes (c ∷ s) = leb c 255 && are_bytes s

are_bytes-All : (s : Text) → are_bytes s ≡ true → All (λ b. b ≤ 255) s
unfolding are_bytes
are_bytes-All [] h = tt
are_bytes-All (c ∷ s) h = (ground arith, are_bytes-All s (ground arith))

All-are_bytes : (s : Text) → All (λ b. b ≤ 255) s → are_bytes s ≡ true
unfolding are_bytes
All-are_bytes [] h = refl
All-are_bytes (c ∷ s) h = ground (arith, h.0, All-are_bytes s h.1)

abbrev decode : Text → Result (List ℕ)
decode s = if are_bytes s then ok s else err (dnssec_tests.Error.message [])

abbrev encode : List ℕ → Text
encode bytes = bytes

failed :
    (bytes : List ℕ) → ◌≢◌ {A = Result (List ℕ)} (err (dnssec_tests.Error.message [])) (ok bytes)
failed bytes e = cc

decode-bytes : (s : Text) (bytes : List ℕ) → decode s ≡ ok bytes → All (λ b. b ≤ 255) bytes
decode-bytes s bytes e = elim (Bool-cases (are_bytes s)) [
  | inl plain ↦
      let same : s ≡ bytes = ok-eq (rw (plain, if◌then◌else◌) at e) in
      subst (All (λ b. b ≤ 255)) same (are_bytes-All s plain)
  | inr other ↦
      let h : ◌≡◌ {A = Result (List ℕ)} (err (dnssec_tests.Error.message [])) (ok bytes) =
        rw (other, if◌then◌else◌) at e in
      absurd (failed bytes h)
]

decode-encode : (bytes : List ℕ) → All (λ b. b ≤ 255) bytes → decode (encode bytes) ≡ ok bytes
decode-encode bytes h = rw (All-are_bytes bytes h, if◌then◌else◌)

abbrev flipped : Rrsig
flipped = record signed { signature = codes "AbC\u{9b}" }

signed-flipped :
    bad_signature decode encode needle nameservers (Record.rrsig signed ∷ zsk ∷ [])
    ≡ ok (Record.rrsig flipped ∷ zsk ∷ [])
unfolding bad_signature Fqdn.eq are_bytes
signed-flipped = refl

bad_signature-ne_example :
    (h : Changed
      (λ rrsig. Fqdn.eq rrsig.fqdn needle)
      (flip_signature decode encode)
      (Record.rrsig signed ∷ zsk ∷ [])
      (Record.rrsig flipped ∷ zsk ∷ []))
    × (h.new.signature ≢ h.old.signature)
    × (h.new ≡ record h.old { signature = h.new.signature })
bad_signature-ne_example =
    bad_signature-ne decode encode decode-bytes decode-encode needle
      (Record.rrsig signed ∷ zsk ∷ []) (Record.rrsig flipped ∷ zsk ∷ []) signed-flipped

-- A query that the resolver at `own` sends to the server at `peer`.
abbrev asked : Capture
asked = record { message = record { inner = Value.null }; direction = Direction.outgoing peer }

abbrev client_addr : Ipv4Addr
client_addr = record { octet0 = 10; octet1 = 0; octet2 = 0; octet3 = 3 }

queries_iff_example :
    ((check_queries check_do_bit client_addr peer (asked ∷ []) ≡ ok tt)
      ↔ All
          (λ c.
            IsQueryWith (λ m. is_do_bit_set m ≡ some true) client_addr peer c.message c.direction)
          (asked ∷ []))
    × ((check_queries check_edns client_addr peer (asked ∷ []) ≡ ok tt)
        ↔ All
            (λ c.
              IsQueryWith
                (λ m. (is_do_bit_set m ≡ some true) × IsLarge m)
                client_addr
                peer
                c.message
                c.direction)
            (asked ∷ []))
queries_iff_example = queries_iff client_addr peer (asked ∷ [])

clears_ad_flag_iff_example : (clears_ad_flag client_addr (peer ∷ []) (asked ∷ []) ≡ ok tt) ↔ (
    All (λ c. IsClear client_addr (peer ∷ []) c.message c.direction) (asked ∷ [])
    × (count (from_client client_addr) (asked ∷ []) ≡ 1)
    × (count (to_server client_addr) (asked ∷ []) ≢ 0))
clears_ad_flag_iff_example = clears_ad_flag_iff client_addr (peer ∷ []) (asked ∷ [])

one_ds_query_iff_example : (one_ds_query client_addr peer (asked ∷ []) ≡ ok tt) ↔ (
    All (λ c. AsksParent client_addr peer c.message c.direction) (asked ∷ [])
    × (length (all_sent client_addr (asked ∷ [])) ≡ 1))
one_ds_query_iff_example = one_ds_query_iff client_addr peer (asked ∷ [])
