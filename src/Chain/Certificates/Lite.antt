-- ===== src/Chain/Certificates/Lite.antt =====
-- linera-chain/src/data_types.rs: votes and certificates without their value, and the certificate
-- that `try_from_votes` makes of a list of votes.
use mathlib.Core.List.{Perm, append-nil, append_assoc}
use mathlib.Core.List.Perm
use linera_protocol.Prelude.{
  ℕ, ◌≡◌, ◌↔◌, refl, sym, subst, arith, true, is_eq, is_eq→eq, is_eq_refl, Bool-cases, inl, inr,
  List, [], ◌∷◌, ◌++◌, map, All, Option, none, some, ap, ◌∙◌,
}
use linera_protocol.Base.Identifiers.{RoundNumber, CryptoHash}
use linera_protocol.Chain.DataTypes.{
  Certificate, HashedValue, LiteCertificate, LiteValue, LiteVote, LiteValue-discrete, Signatures,
  Vote, chain_id, lite_value, lite_vote,
}
use linera_protocol.Chain.Certificates.{
  gather, gathered, is_strictly_ordered, lite_certificate, new_lite_certificate, try_from_votes,
  vote_with_value, with_value,
}
use linera_protocol.Chain.Certificates.Order.{sort-perm}

-- The lite form of a certificate takes back exactly a value with the hash and the chain of the one
-- that it certifies, and is then the same certificate but for the value.
pub with_value-lite_certificate :
    (c : Certificate) (v : HashedValue) (d : Certificate)
    → (with_value (lite_certificate c) v ≡ some d) ↔ (
        (v.hash ≡ c.value.hash)
        × (chain_id v.value ≡ chain_id c.value.value)
        × (record c { value = v } ≡ d))
unfolding with_value lite_certificate lite_value
with_value-lite_certificate c v d = (
  λ h. (ground arith, ground arith, ground arith),
  λ (hash, chain, same). ground (arith, hash, chain, same),
)

-- The lite form of a vote takes back exactly a value with the hash and the chain of the one that is voted
-- for, and is then the same vote but for the value.
pub vote_with_value-lite_vote :
    (w : Vote) (v : HashedValue) (x : Vote)
    → (vote_with_value (lite_vote w) v ≡ some x) ↔ (
        (v.hash ≡ w.value.hash)
        × (chain_id v.value ≡ chain_id w.value.value)
        × (record w { value = v } ≡ x))
unfolding vote_with_value lite_vote lite_value
vote_with_value-lite_vote w v x = (sound, complete)
  where
    sound :
        vote_with_value (lite_vote w) v ≡ some x
        → (v.hash ≡ w.value.hash)
          × (chain_id v.value ≡ chain_id w.value.value)
          × (record w { value = v } ≡ x)
    sound h = elim (Bool-cases (is_eq LiteValue-discrete (lite_value w.value) (lite_value v))) [
      | inl same ↦
          let eq = is_eq→eq LiteValue-discrete (lite_value w.value) (lite_value v) same in
          (sym (ap (λ l. l.value_hash) eq), sym (ap (λ l. l.chain_id) eq), ground (arith, same))
      | inr other ↦ absurd (ground (arith, other))
    ]

    complete :
        (v.hash ≡ w.value.hash)
          × (chain_id v.value ≡ chain_id w.value.value)
          × (record w { value = v } ≡ x)
        → vote_with_value (lite_vote w) v ≡ some x
    complete (hash, chain, eq) =
        let lite : lite_value w.value ≡ lite_value v = rw (hash, chain) refl in
        let same =
          subst (λ l. is_eq LiteValue-discrete (lite_value w.value) l ≡ true) lite
            (is_eq_refl LiteValue-discrete (lite_value w.value)) in
        rw same (ap some eq)

-- The vote is for the value's hash, in the round.
abbrev pub Agrees : CryptoHash → RoundNumber → LiteVote → Type 0
Agrees hash round vote = (vote.value.value_hash ≡ hash) × (vote.round ≡ round)

abbrev pub signature_of : LiteVote → ℕ × ℕ
signature_of vote = (vote.validator, vote.signature)

gather_sound :
    (hash : CryptoHash) (round : RoundNumber) (sigs : Signatures) (votes : List LiteVote)
    {out : Signatures}
    → gather hash round sigs votes ≡ some out
    → All (Agrees hash round) votes × (out ≡ sigs ++ map signature_of votes)
unfolding gather
gather_sound hash round sigs [] h = (tt, ground (arith, append-nil sigs))
gather_sound hash round sigs (vote ∷ rest) {out} h =
    let sigs' = sigs ++ signature_of vote ∷ [] in
    let agrees : Agrees hash round vote = (ground arith, ground arith) in
    let further : gather hash round sigs' rest ≡ some out = ground arith in
    let (all, out_eq) = gather_sound hash round sigs' rest further in
    ((agrees, all), out_eq ∙ append_assoc sigs (signature_of vote ∷ []) (map signature_of rest))

gather_complete :
    (hash : CryptoHash) (round : RoundNumber) (sigs : Signatures) (votes : List LiteVote)
    → All (Agrees hash round) votes
    → gather hash round sigs votes ≡ some (sigs ++ map signature_of votes)
unfolding gather
gather_complete hash round sigs [] h = ap some (sym (append-nil sigs))
gather_complete hash round sigs (vote ∷ rest) h = ground (
  arith,
  gather_complete hash round (sigs ++ signature_of vote ∷ []) rest h.1,
  append_assoc sigs (signature_of vote ∷ []) (map signature_of rest),
)

gathered-some :
    (value : LiteValue) (round : RoundNumber) (o : Option Signatures) {c : LiteCertificate}
    → gathered value round o ≡ some c
    → (sigs : Signatures) × (o ≡ some sigs) × (c ≡ new_lite_certificate value round sigs)
gathered-some value round none h = cc
gathered-some value round (some sigs) h = (sigs, refl, cc)

new_lite_certificate-perm :
    (value : LiteValue) (round : RoundNumber) (sigs : Signatures)
    → Perm sigs (new_lite_certificate value round sigs).signatures
unfolding new_lite_certificate
new_lite_certificate-perm value round sigs = elim (Bool-cases (is_strictly_ordered sigs)) [
  | inl already ↦ rw already (Perm.refl _)
  | inr not_yet ↦ rw not_yet (sort-perm sigs)
]

-- No certificate comes of no votes. One comes of votes exactly when all agree with the first one on
-- the hash of the value and on the round; their chain identifiers are not compared. It has the value,
-- with the chain identifier, and the round of the first vote, and each vote's signature, once.
pub try_from_votes-agree :
    (vote : LiteVote) (rest : List LiteVote) (c : LiteCertificate)
    → let made = new_lite_certificate vote.value vote.round (map signature_of (vote ∷ rest)) in
      (try_from_votes [] ≡ none)
      × ((try_from_votes (vote ∷ rest) ≡ some c)
          ↔ (All (Agrees vote.value.value_hash vote.round) rest × (c ≡ made)))
      × Perm (map signature_of (vote ∷ rest)) made.signatures
unfolding try_from_votes
try_from_votes-agree vote rest c = (
  refl,
  (sound, complete),
  new_lite_certificate-perm vote.value vote.round (map signature_of (vote ∷ rest)),
)
  where
    sound :
        try_from_votes (vote ∷ rest) ≡ some c
        → All (Agrees vote.value.value_hash vote.round) rest
          × (c ≡ new_lite_certificate vote.value vote.round (map signature_of (vote ∷ rest)))
    sound h =
        let (sigs, gathered_sigs, e) = gathered-some vote.value vote.round _ h in
        let (all, sigs_eq) =
          gather_sound vote.value.value_hash vote.round (signature_of vote ∷ []) rest
            gathered_sigs in
        (all, e ∙ ap (new_lite_certificate vote.value vote.round) sigs_eq)

    complete :
        All (Agrees vote.value.value_hash vote.round) rest
          × (c ≡ new_lite_certificate vote.value vote.round (map signature_of (vote ∷ rest)))
        → try_from_votes (vote ∷ rest) ≡ some c
    complete (all, same) =
        rw (gather_complete vote.value.value_hash vote.round (signature_of vote ∷ []) rest all)
          (ap some (sym same))
