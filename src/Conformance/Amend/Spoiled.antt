-- ===== src/Conformance/Amend/Spoiled.antt =====
-- What a zone looks like that was spoiled by packages/conformance-tests/src/resolver/dnssec:
-- scenarios/ede.rs and fixtures.rs.
use dnssec_tests.Base.{
  ℕ, ◌+◌, ◌-◌, ◌≤◌, ◌==◌, Bool-cases, inl, inr, List, [], ◌∷◌, ◌≡◌, ◌≢◌, ◌↔◌, sym, ◌∙◌, ap, arith,
  All, subst, if◌then◌else◌,
}
use dnssec_tests.Text.{Text, codes}
use dnssec_tests.Error.{Result, ok, err, panic, bind-eq-ok, ok-eq}
use dnssec_tests.Fqdn
use dnssec_tests.Fqdn.{Fqdn, nameservers, unwrap}
use dnssec_tests.Record.{Record}
use dnssec_tests.Record.Rrsig.{Rrsig}
use dnssec_tests.Conformance.Amend.{
  is_zsk_record, covers, covers_record, dnskey_missing, rrsigs_missing, expire, dnssec_bogus,
  flip_last, flip_signature, bad_signature,
}
use dnssec_tests.Conformance.Amend.Exact.{Removed, remove_one_iff}
use dnssec_tests.Conformance.Amend.Changes.{Changed, modify_one_iff}

-- In the zone `nameservers.com.` the test for missing keys succeeds exactly when there is one
-- zone-signing key, and removes its record alone; the test for missing signatures exactly when one
-- RRSIG record covers the needle's A record, and removes it alone.
pub removals_iff :
    (needle : Fqdn) (records kept : List Record)
    → ((dnskey_missing needle nameservers records ≡ ok kept) ↔ Removed is_zsk_record records kept)
      × ((rrsigs_missing needle nameservers records ≡ ok kept)
          ↔ Removed (covers_record needle) records kept)
unfolding dnskey_missing rrsigs_missing Fqdn.eq
removals_iff needle records kept =
    (remove_one_iff is_zsk_record records kept, remove_one_iff (covers_record needle) records kept)

head_or : ℕ → List ℕ → ℕ
head_or n [] = n
head_or n (m ∷ _) = m

tail_of : List ℕ → List ℕ
tail_of [] = []
tail_of (_ ∷ ns) = ns

expire_lem :
    (old new : Rrsig)
    → expire old ≡ ok new
    → (new.signature_expiration + 1 ≡ old.signature_inception)
      × (new ≡ record old { signature_expiration = new.signature_expiration })
unfolding expire
expire_lem old new e = elim (Bool-cases (old.signature_inception == 0)) [
  | inl zero ↦
      let h : ◌≡◌ {A = Result Rrsig} (panic (codes "attempt to subtract with overflow")) (ok new) =
        rw (zero, if◌then◌else◌) at e in
      cc
  | inr later ↦
      let h : record old { signature_expiration = old.signature_inception - 1 } ≡ new =
        ok-eq (rw (later, if◌then◌else◌) at e) in
      let expiration : old.signature_inception - 1 ≡ new.signature_expiration =
        ap (λ r. r.signature_expiration) h in
      (
        ground (arith, later, expiration),
        sym h ∙ ap (λ t. record old { signature_expiration = t }) expiration,
      )
]

-- If the zone `nameservers.com.` is spoiled for the test of bogus data, one RRSIG record covers the
-- needle's A record, and it alone is changed, in its expiration alone, which becomes as a number one
-- less than its inception. Both are the digits of a time, so this need not be the time before it.
pub dnssec_bogus-expire :
    (needle : Fqdn) (records amended : List Record)
    → dnssec_bogus needle nameservers records ≡ ok amended
    → (h : Changed (covers needle) expire records amended) × (h.new.signature_expiration + 1
        ≡ h.old.signature_inception)
      × (h.new ≡ record h.old { signature_expiration = h.new.signature_expiration })
unfolding dnssec_bogus Fqdn.eq
dnssec_bogus-expire needle records amended e =
    let h = (modify_one_iff (covers needle) expire records amended).0 e in
    let (before, same) = expire_lem h.old h.new h.changed in (h, before, same)

flip_last-ne : (bytes flipped : List ℕ) → flip_last bytes ≡ ok flipped → flipped ≢ bytes
unfolding flip_last head_or tail_of
flip_last-ne [] flipped e = cc
flip_last-ne (b ∷ []) flipped e =
    λ same. let last : 255 - b ≡ b = ap (λ bs. head_or b bs) (ok-eq e ∙ same) in omega arith
flip_last-ne (b ∷ c ∷ bs) flipped e = λ same.
    let (others, eo, f) = bind-eq-ok (flip_last (c ∷ bs)) _ e in
    flip_last-ne (c ∷ bs) others eo (ap (λ bs. tail_of bs) (ok-eq f ∙ same))

flip_last-IsByte :
    (bytes flipped : List ℕ)
    → All (λ b. b ≤ 255) bytes
    → flip_last bytes ≡ ok flipped
    → All (λ b. b ≤ 255) flipped
unfolding flip_last
flip_last-IsByte [] flipped h e = cc
flip_last-IsByte (b ∷ []) flipped h e = subst (All (λ b. b ≤ 255)) (ok-eq e) (omega arith, tt)
flip_last-IsByte (b ∷ c ∷ bs) flipped h e =
    let (others, eo, f) = bind-eq-ok (flip_last (c ∷ bs)) _ e in
    subst (All (λ b. b ≤ 255)) (ok-eq f) (h.0, flip_last-IsByte (c ∷ bs) others h.1 eo)

unwrap-eq-ok : {A : Type 0} (r : Result A) (a : A) → unwrap r ≡ ok a → r ≡ ok a
unwrap-eq-ok (ok b) a e = e
unwrap-eq-ok (err _) a e = cc
unwrap-eq-ok (panic _) a e = cc

module _ (decode : Text → Result (List ℕ)) (encode : List ℕ → Text)
    (decode-bytes : (s : Text) (bytes : List ℕ) → decode s ≡ ok bytes → All (λ b. b ≤ 255) bytes)
    (decode-encode : (bytes : List ℕ)
      → All (λ b. b ≤ 255) bytes
      → decode (encode bytes) ≡ ok bytes) where
  flip_signature-ne :
      (old new : Rrsig)
      → flip_signature decode encode old ≡ ok new
      → (new.signature ≢ old.signature) × (new ≡ record old { signature = new.signature })
  unfolding flip_signature
  flip_signature-ne old new e =
      let (bytes, d, e') = bind-eq-ok (unwrap (decode old.signature)) _ e in
      let decoded = unwrap-eq-ok (decode old.signature) bytes d in
      let (flipped, f, e'') = bind-eq-ok (flip_last bytes) _ e' in
      let changed : record old { signature = encode flipped } ≡ new = ok-eq e'' in
      let signature : encode flipped ≡ new.signature = ap (λ r. r.signature) changed in
      let read =
        decode-encode flipped
          (flip_last-IsByte bytes flipped (decode-bytes old.signature bytes decoded) f) in
      (
        (λ same.
            flip_last-ne bytes flipped f
              (ok-eq (sym read ∙ ap decode (signature ∙ same) ∙ decoded))),
        sym changed ∙ ap (λ t. record old { signature = t }) signature,
      )

  -- Let base64 decode to bytes and decode what it encodes. If the zone `nameservers.com.` is spoiled
  -- for the test of a bad signature, the leaf has one RRSIG record, and that record alone is changed,
  -- in its signature alone, which becomes another.
  pub bad_signature-ne :
      (leaf_fqdn : Fqdn) (records amended : List Record)
      → bad_signature decode encode leaf_fqdn nameservers records ≡ ok amended
      → (h : Changed
          (λ rrsig. Fqdn.eq rrsig.fqdn leaf_fqdn)
          (flip_signature decode encode)
          records
          amended)
        × (h.new.signature ≢ h.old.signature)
        × (h.new ≡ record h.old { signature = h.new.signature })
  unfolding bad_signature Fqdn.eq
  bad_signature-ne leaf_fqdn records amended e =
      let h =
        (modify_one_iff (λ rrsig. Fqdn.eq rrsig.fqdn leaf_fqdn) (flip_signature decode encode)
            records amended).0
          e in
      let (other, same) = flip_signature-ne h.old h.new h.changed in (h, other, same)
