-- ===== src/Chain/Certificates/Aggregation.antt =====
-- linera-chain/src/data_types.rs: the certificate that a `SignatureAggregator` builds.
use linera_protocol.Prelude.{
  ℕ, ◌+◌, ◌%◌, ◌^◌, ◌≤◌, ◌<◌, ◌≡◌, refl, arith, true, false, Bool-cases, inl, inr, List, [], ◌∷◌,
  All, Option, some, Result, ok, leb, ltb, leb→le, ◌∙◌,
}
use linera_protocol.Base.Identifiers.{RoundNumber, Signature, CryptoHash}
use linera_protocol.Execution.Committee.{Committee, ValidatorName, weight}
use linera_protocol.Execution.Committee.Quorum.{IsValid}
use linera_protocol.Chain.DataTypes.{Signatures, HashedValue, Certificate, lite_value}
use linera_protocol.Chain.Crypto.{Crypto}
use linera_protocol.Chain.Errors.{ChainError}
use linera_protocol.Chain.Certificates.{
  SignatureAggregator, add_signature, append, append_used, check, contains, deserialize,
  insert_by_name, has_signature, start,
}
use linera_protocol.Chain.Certificates.Signers.{
  Distinct, Fresh, HaveRights, signed_weight, signed_weight-eq-weight_in, weight_in-le-all,
}
use linera_protocol.Chain.Certificates.Order.{
  All-insert, Distinct-insert, HaveRights-insert, IsOrdered, insert-IsOrdered, signed_weight-insert,
  test-IsOrdered,
}
use linera_protocol.Chain.Certificates.Check.{check_signatures_iff}

-- A batch of signatures is accepted if each of them is: `ed25519_dalek::verify_batch`.
abbrev pub BatchAccepts : Crypto → Type 0
BatchAccepts crypto =
    (hash : CryptoHash) (round : RoundNumber) (sigs : Signatures)
    → All (λ s. crypto.check_vote hash round s.0 s.1 ≡ true) sigs
    → crypto.verify_batch hash round sigs ≡ true

module _ (crypto : Crypto) where
  pub record Inv (a : SignatureAggregator) : Type 0 where
    pub valid : IsValid a.committee
    pub ordered : IsOrdered a.partial.signatures
    pub distinct : Distinct a.partial.signatures
    pub rights : HaveRights a.committee a.partial.signatures
    pub checked :
        All
          (λ s. crypto.check_vote a.partial.value.hash a.partial.round s.0 s.1 ≡ true)
          a.partial.signatures
    pub listed : All (λ s. contains a.used_validators s.0 ≡ true) a.partial.signatures
    pub weighed : a.weight ≤ signed_weight a.committee a.partial.signatures

  start-Inv :
      (value : HashedValue) (round : RoundNumber) (c : Committee)
      → IsValid c
      → Inv (start value round c)
  unfolding start signed_weight
  start-Inv value round c v = record {
    valid = v;
    ordered = tt;
    distinct = tt;
    rights = tt;
    checked = tt;
    listed = tt;
    weighed = omega arith;
  }

  unused-Fresh :
      (used : List ValidatorName) (name : ValidatorName) (sigs : Signatures)
      → contains used name ≡ false
      → All (λ s. contains used s.0 ≡ true) sigs
      → Fresh name sigs
  unused-Fresh used name [] u l = tt
  unused-Fresh used name (s ∷ rest) u l = ((λ e. cc), unused-Fresh used name rest u l.1)

  listed-cons :
      (used : List ValidatorName) (name : ValidatorName) (sigs : Signatures)
      → All (λ s. contains used s.0 ≡ true) sigs
      → All (λ s. contains (name ∷ used) s.0 ≡ true) sigs
  unfolding contains
  listed-cons used name [] l = tt
  listed-cons used name (s ∷ rest) l = (ground arith, listed-cons used name rest l.1)

  -- What an append does: the aggregator keeps its invariant and its subject, and a certificate that
  -- it hands out is the one that it holds, with a quorum.
  abbrev Appended :
      SignatureAggregator → SignatureAggregator × Result ChainError (Option Certificate) → Type 0
  Appended a (b, result) =
      Inv b
      × (b.committee ≡ a.committee)
      × (b.partial.value ≡ a.partial.value)
      × (b.partial.round ≡ a.partial.round)
      × ((cert : Certificate)
          → result ≡ ok (some cert)
          → (cert ≡ b.partial)
            × (b.committee.quorum_threshold ≤ signed_weight b.committee b.partial.signatures))

  -- The aggregator with one more signature, whatever weight it counts up to what is signed.
  added : SignatureAggregator → ValidatorName → Signature → ℕ → SignatureAggregator
  added a name signature w = record a {
    used_validators = name ∷ a.used_validators;
    partial = add_signature a.partial (name, signature);
    weight = w;
  }

  module _ (a : SignatureAggregator) (name : ValidatorName) (signature : Signature)
      (inv : Inv a) where
    marked-Inv : Inv (record a { used_validators = name ∷ a.used_validators })
    marked-Inv = record {
      valid = inv.valid;
      ordered = inv.ordered;
      distinct = inv.distinct;
      rights = inv.rights;
      checked = inv.checked;
      listed = listed-cons a.used_validators name a.partial.signatures inv.listed;
      weighed = inv.weighed;
    }

    module _ (good : crypto.check_vote a.partial.value.hash a.partial.round name signature ≡ true)
        (unused : contains a.used_validators name ≡ false)
        (has_rights : 0 < weight a.committee name) where
      added-Inv :
          (w : ℕ)
          → w ≤ weight a.committee name + signed_weight a.committee a.partial.signatures
          → Inv (added a name signature w)
      unfolding added add_signature contains
      added-Inv w le =
          let sigs = a.partial.signatures in
          let fresh = unused-Fresh a.used_validators name sigs unused inv.listed in
          record {
            valid = inv.valid;
            ordered = insert-IsOrdered (name, signature) sigs fresh inv.ordered;
            distinct = Distinct-insert (name, signature) sigs fresh inv.distinct;
            rights = HaveRights-insert a.committee (name, signature) sigs has_rights inv.rights;
            checked = All-insert _ (name, signature) sigs good inv.checked;
            listed =
                All-insert (λ s. contains (name ∷ a.used_validators) s.0 ≡ true) (name, signature)
                  sigs (ground arith) (listed-cons a.used_validators name sigs inv.listed);
            weighed = omega (arith, signed_weight-insert a.committee (name, signature) sigs);
          }

      -- The weight of the aggregator does not wrap around.
      added-fits : a.weight + weight a.committee name < 2 ^ 64
      unfolding added add_signature
      added-fits =
          let more = added-Inv (a.weight + weight a.committee name) (omega (arith, inv.weighed)) in
          let sigs = insert_by_name (name, signature) a.partial.signatures in
          omega (
            arith,
            more.weighed,
            inv.valid.total,
            inv.valid.fits,
            signed_weight-eq-weight_in a.committee sigs inv.valid.sorted more.distinct,
            weight_in-le-all (has_signature sigs) a.committee.validators,
          )

      counted-Appended :
          Appended a
            (append_used (record a { used_validators = name ∷ a.used_validators }) name signature)
      unfolding append_used added add_signature
      counted-Appended =
          let sigs = a.partial.signatures in
          let total = (a.weight + weight a.committee name) % 2 ^ 64 in
          let exact : total ≡ a.weight + weight a.committee name = omega (arith, added-fits) in
          let more = signed_weight-insert a.committee (name, signature) sigs in
          let rights : ltb 0 (weight a.committee name) ≡ true = ground arith in
          elim (Bool-cases (leb a.committee.quorum_threshold total)) [
            | inl quorum ↦
                rw (rights, quorum)
                  (
                    added-Inv 0 (omega arith),
                    refl,
                    refl,
                    refl,
                    λ c h.
                        (ground arith, omega (arith, more, exact, inv.weighed, leb→le _ _ quorum)),
                  )
            | inr below ↦
                rw (rights, below)
                  (added-Inv total (omega (arith, exact, inv.weighed)), refl, refl, refl, λ c h. cc)
          ]

  -- A complete certificate: what the aggregator holds passes `check` at a quorum.
  Inv-check :
      BatchAccepts crypto
      → (a : SignatureAggregator) → Inv a
      → a.committee.quorum_threshold ≤ signed_weight a.committee a.partial.signatures
      → check crypto a.partial a.committee ≡ ok a.partial.value
  unfolding check
  Inv-check batch a inv quorum =
      let certified =
        (check_signatures_iff crypto a.committee (lite_value a.partial.value) a.partial.round
            a.partial.signatures inv.valid).1
          (record {
            distinct = inv.distinct;
            rights = inv.rights;
            quorum = omega (
              arith,
              signed_weight-eq-weight_in a.committee a.partial.signatures inv.valid.sorted
                  inv.distinct,
            );
            verified = batch _ _ a.partial.signatures inv.checked;
          }) in
      rw certified refl

  append-Appended :
      (a : SignatureAggregator) (name : ValidatorName) (signature : Signature)
      → Inv a
      → Appended a (append crypto a name signature)
  unfolding append
  append-Appended a name signature inv =
      elim (Bool-cases (crypto.check_vote a.partial.value.hash a.partial.round name signature)) [
        | inr bad ↦ rw bad (inv, refl, refl, refl, λ c h. cc)
        | inl good ↦ elim (Bool-cases (contains a.used_validators name)) [
          | inl used ↦ rw (good, used) (inv, refl, refl, refl, λ c h. cc)
          | inr unused ↦ elim (Bool-cases (ltb 0 (weight a.committee name))) [
            | inr none_left ↦
                rw (good, unused, none_left)
                  (marked-Inv a name signature inv, refl, refl, refl, λ c h. cc)
            | inl rights ↦
                rw (good, unused) (counted-Appended a name signature inv good unused (ground arith))
          ]
        ]
      ]

  pub append-Inv :
      (a : SignatureAggregator) (name : ValidatorName) (signature : Signature)
      → Inv a
      → Inv (append crypto a name signature).0
  append-Inv a name signature inv = (append-Appended a name signature inv).0

  -- The votes that arrive, one by one; what fails leaves the aggregator as `append` leaves it.
  unfoldable pub append_all : SignatureAggregator → Signatures → SignatureAggregator
  append_all a [] = a
  append_all a ((name, signature) ∷ rest) = append_all (append crypto a name signature).0 rest

  append_all-Inv :
      (a : SignatureAggregator) (votes : Signatures)
      → Inv a
      → Inv (append_all a votes)
        × ((append_all a votes).committee ≡ a.committee)
        × ((append_all a votes).partial.value ≡ a.partial.value)
        × ((append_all a votes).partial.round ≡ a.partial.round)
  unfolding append_all
  append_all-Inv a [] inv = (inv, refl, refl, refl)
  append_all-Inv a ((name, signature) ∷ rest) inv =
      let (inv', c, v, r, _) = append-Appended a name signature inv in
      let (inv'', c', v', r') = append_all-Inv (append crypto a name signature).0 rest inv' in
      (inv'', c' ∙ c, v' ∙ v, r' ∙ r)

  -- After any votes, good or bad, in any order: a certificate that `append` hands out is for the value
  -- and the round that the aggregation began with, passes `check` for the committee, and is ordered as
  -- its deserialization asks. The committee is valid, and the batch verification accepts signatures that
  -- were each accepted alone.
  pub append-check :
      BatchAccepts crypto
      → (value : HashedValue) (round : RoundNumber) (c : Committee) → IsValid c
      → (votes : Signatures) (name : ValidatorName) (signature : Signature) (cert : Certificate)
      → (append crypto (append_all (start value round c) votes) name signature).1 ≡ ok (some cert)
      → (check crypto cert c ≡ ok value)
        × (cert.round ≡ round)
        × (deserialize cert.value cert.round cert.signatures ≡ some cert)
  unfolding deserialize start
  append-check batch value round c v votes name signature cert h =
      let a = append_all (start value round c) votes in
      let b = (append crypto a name signature).0 in
      let (inv, ca, va, ra) =
        append_all-Inv (start value round c) votes (start-Inv value round c v) in
      let (inv', cb, vb, rb, handed) = append-Appended a name signature inv in
      let (is_partial, quorum) = handed cert h in
      let checked = Inv-check batch b inv' quorum in
      let ordered = test-IsOrdered b.partial.signatures inv'.ordered in
      (
        cc (ca, cb, va, vb, checked, is_partial),
        cc (ra, rb, is_partial),
        rw is_partial (rw ordered refl),
      )
