-- ===== src/Chain/Certificates/Check.antt =====
-- linera-chain/src/data_types.rs: what `check_signatures` accepts, and what two certificates that it
-- accepts have in common.
use linera_protocol.Prelude.{
  ℕ, ◌+◌, ◌%◌, ◌^◌, ◌≤◌, ◌<◌, ◌≡◌, ◌↔◌, refl, arith, true, false, ◌&&◌, List, [], ◌∷◌, All, ok, leb,
  ltb, not, ap, ◌∙◌, ensure-ok, >>=-ok,
}
use linera_protocol.Base.Identifiers.{RoundNumber}
use linera_protocol.Execution.Committee.{Committee, ValidatorName, weight}
use linera_protocol.Execution.Committee.Quorum.{IsValid, weight_in, IsValid-intersection}
use linera_protocol.Chain.DataTypes.{HashedValue, lite_value, Signatures, LiteValue, Certificate}
use linera_protocol.Chain.Crypto.{Crypto}
use linera_protocol.Chain.Errors.{
  certificate_validator_reuse, invalid_signer, certificate_requires_quorum,
}
use linera_protocol.Chain.Certificates.{
  contains, has_signature, is_signer, check_signers, check_signatures, check,
}
use linera_protocol.Chain.Certificates.Signers.{
  Distinct, Fresh, HaveRights, signed_weight, signed_weight-eq-weight_in, weight_in-le-all,
}

-- No entry's name is among the used ones.
abbrev Unused : List ValidatorName → Signatures → Type 0
Unused used sigs = All (λ s. contains used s.0 ≡ false) sigs

Unused-nil : (sigs : Signatures) → Unused [] sigs
unfolding contains
Unused-nil [] = tt
Unused-nil (s ∷ rest) = (refl, Unused-nil rest)

Unused-cons :
    (name : ValidatorName) (used : List ValidatorName) (sigs : Signatures)
    → Unused used sigs
    → Fresh name sigs
    → Unused (name ∷ used) sigs
unfolding contains
Unused-cons name used [] u f = tt
Unused-cons name used (s ∷ rest) u f = (ground arith, Unused-cons name used rest u.1 f.1)

Unused-uncons :
    (name : ValidatorName) (used : List ValidatorName) (sigs : Signatures)
    → Unused (name ∷ used) sigs
    → Unused used sigs × Fresh name sigs
unfolding contains
Unused-uncons name used [] u = (tt, tt)
Unused-uncons name used (s ∷ rest) u =
    let (u', f') = Unused-uncons name used rest u.1 in ((ground arith, u'), (ground arith, f'))

-- The loop succeeds on distinct unused names with rights, and returns their weight.
check_signers_complete :
    (c : Committee) (used : List ValidatorName) (total : ℕ) (sigs : Signatures)
    → Unused used sigs
    → Distinct sigs
    → HaveRights c sigs
    → total < 2 ^ 64
    → check_signers c used total sigs ≡ ok ((total + signed_weight c sigs) % 2 ^ 64)
unfolding check_signers signed_weight
check_signers_complete c used total [] u d r fits = ground arith
check_signers_complete c used total ((name, s) ∷ rest) u d r fits =
    let ih =
      check_signers_complete c (name ∷ used) ((total + weight c name) % 2 ^ 64) rest
        (Unused-cons name used rest u.1 d.0) d.1 r.1 (omega arith) in
    ground (arith, ih)

-- And only on those.
check_signers_sound :
    (c : Committee) (used : List ValidatorName) (total : ℕ) (sigs : Signatures) {t : ℕ}
    → check_signers c used total sigs ≡ ok t
    → Unused used sigs × Distinct sigs × HaveRights c sigs
unfolding check_signers
check_signers_sound c used total [] h = (tt, tt, tt)
check_signers_sound c used total ((name, s) ∷ rest) h =
    let (unused, h') = ensure-ok (not (contains used name)) certificate_validator_reuse _ h in
    let (rights, h'') = ensure-ok (ltb 0 (weight c name)) invalid_signer _ h' in
    let (u, d, r) = check_signers_sound c (name ∷ used) _ rest h'' in
    let (u', fresh) = Unused-uncons name used rest u in
    ((ground arith, u'), (fresh, d), (ground arith, r))

-- The weight that `check_signatures` compares is that of the set of signers, with no wrap-around.
check_signers-weight :
    (c : Committee) (sigs : Signatures)
    → IsValid c
    → Distinct sigs
    → HaveRights c sigs
    → check_signers c [] 0 sigs ≡ ok (weight_in (has_signature sigs) c.validators)
check_signers-weight c sigs v d r =
    check_signers_complete c [] 0 sigs (Unused-nil sigs) d r (omega arith)
    ∙ ap ok (
        omega (
          arith,
          v.total,
          v.fits,
          signed_weight-eq-weight_in c sigs v.sorted d,
          weight_in-le-all (has_signature sigs) c.validators,
        ))

-- What an accepted list of signatures is, said of the set of its signers.
pub record IsCertified (crypto : Crypto) (c : Committee) (value : LiteValue) (round : RoundNumber)
    (sigs : Signatures) : Type 0 where
  pub distinct : Distinct sigs
  pub rights : HaveRights c sigs
  pub quorum : c.quorum_threshold ≤ weight_in (has_signature sigs) c.validators
  pub verified : crypto.verify_batch value.value_hash round sigs ≡ true

-- For a valid committee `check_signatures` accepts exactly the signatures of distinct validators with
-- voting rights that together hold a quorum, and that pass the batch verification.
pub check_signatures_iff :
    (crypto : Crypto) (c : Committee) (value : LiteValue) (round : RoundNumber) (sigs : Signatures)
    → IsValid c
    → (check_signatures crypto value round sigs c ≡ ok tt) ↔ IsCertified crypto c value round sigs
unfolding check_signatures
check_signatures_iff crypto c value round sigs v = (sound, complete)
  where
    sound :
        check_signatures crypto value round sigs c ≡ ok tt → IsCertified crypto c value round sigs
    sound h =
        let (total, e, h') = >>=-ok (check_signers c [] 0 sigs) _ h in
        let (u, d, r) = check_signers_sound c [] 0 sigs e in
        let (q, h'') = ensure-ok (leb c.quorum_threshold total) certificate_requires_quorum _ h' in
        let weighed = check_signers-weight c sigs v d r in
        record {
          distinct = d;
          rights = r;
          quorum = ground (arith, weighed, e);
          verified = ground arith;
        }

    complete :
        IsCertified crypto c value round sigs → check_signatures crypto value round sigs c ≡ ok tt
    complete k =
        let weighed = check_signers-weight c sigs v k.distinct k.rights in
        ground (arith, weighed, k.quorum, k.verified)

check-signatures :
    (crypto : Crypto) (c : Committee) (cert : Certificate) {v : HashedValue}
    → check crypto cert c ≡ ok v
    → (v ≡ cert.value)
      × (check_signatures crypto (lite_value cert.value) cert.round cert.signatures c ≡ ok tt)
unfolding check
check-signatures crypto c cert h = ground arith

-- Two certificates that pass `check` for one valid committee are signed in common by validators that
-- hold at least the validity threshold, more than may be faulty.
pub check-intersection :
    (crypto : Crypto) (c : Committee) (a b : Certificate) {v w : HashedValue}
    → IsValid c
    → check crypto a c ≡ ok v
    → check crypto b c ≡ ok w
    → c.validity_threshold ≤ weight_in (λ n. is_signer a n && is_signer b n) c.validators
unfolding is_signer
check-intersection crypto c a b valid ha hb =
    let ka =
      (check_signatures_iff crypto c _ a.round a.signatures valid).0
        (check-signatures crypto c a ha).1 in
    let kb =
      (check_signatures_iff crypto c _ b.round b.signatures valid).0
        (check-signatures crypto c b hb).1 in
    IsValid-intersection c (has_signature a.signatures) (has_signature b.signatures) valid ka.quorum
      kb.quorum
