-- ===== src/Chain/Certificates.antt =====
-- linera-chain/src/data_types.rs: how votes are gathered into a certificate and how it is checked.
pub mod Signers
pub mod Order
pub mod Check
pub mod Aggregation
pub mod Lite
use linera_protocol.Prelude.{
  ℕ, ◌+◌, ◌%◌, ◌^◌, ltb, leb, ◌==◌, not, ◌&&◌, ◌||◌, if◌then◌else◌, Bool, true, false, List, [],
  ◌∷◌, ◌++◌, Option, none, some, Result, ok, err, ◌>>=◌, ◌>>◌, ensure, is_eq,
}
use linera_protocol.Base.Identifiers.{Signature, RoundNumber, CryptoHash}
use linera_protocol.Execution.Committee.{Committee, ValidatorName, weight}
use linera_protocol.Chain.DataTypes.{
  Certificate, HashedValue, LiteCertificate, LiteValue, LiteVote, LiteValue-discrete, Signatures,
  Vote, chain_id, lite_value,
}
use linera_protocol.Chain.Crypto.{Crypto}
use linera_protocol.Chain.Errors.{
  ChainError, crypto_error, invalid_signer, certificate_validator_reuse,
  certificate_requires_quorum,
}

-- `HashSet::contains`, over the names inserted so far.
unfoldable pub contains : List ValidatorName → ValidatorName → Bool
contains [] name = false
contains (other ∷ rest) name = other == name || contains rest name

-- Each entry of the slice lies below the next one.
pub is_strictly_ordered : Signatures → Bool
is_strictly_ordered [] = true
is_strictly_ordered ((name, s) ∷ []) = true
is_strictly_ordered ((name, s) ∷ (next, t) ∷ rest) =
    ltb name next && is_strictly_ordered ((next, t) ∷ rest)

-- A stable sort by name: `sort_by_key`.
unfoldable pub insert_by_name : ValidatorName × Signature → Signatures → Signatures
insert_by_name s [] = s ∷ []
insert_by_name s (t ∷ rest) = if ltb t.0 s.0 then t ∷ insert_by_name s rest else s ∷ t ∷ rest

pub sort_by_name : Signatures → Signatures
unfolding insert_by_name
sort_by_name [] = []
sort_by_name (s ∷ rest) = insert_by_name s (sort_by_name rest)

-- `Certificate::new`.
pub new_certificate : HashedValue → RoundNumber → Signatures → Certificate
unfolding is_strictly_ordered sort_by_name
new_certificate value round signatures = record {
  value = value;
  round = round;
  signatures = if is_strictly_ordered signatures then signatures else sort_by_name signatures;
}

-- `LiteCertificate::new`.
pub new_lite_certificate : LiteValue → RoundNumber → Signatures → LiteCertificate
unfolding is_strictly_ordered sort_by_name
new_lite_certificate value round signatures = record {
  value = value;
  round = round;
  signatures = if is_strictly_ordered signatures then signatures else sort_by_name signatures;
}

-- `Certificate::add_signature`. The binary search finds, in a list ordered by name, the first entry
-- whose name is not below the new one, and the insertion puts the new entry before it.
unfoldable pub add_signature : Certificate → ValidatorName × Signature → Certificate
unfolding insert_by_name
add_signature c s = record c { signatures = insert_by_name s c.signatures }

-- Whether the name has a signature, wherever it stands in the list.
pub has_signature : Signatures → ValidatorName → Bool
has_signature [] name = false
has_signature ((other, _) ∷ rest) name = other == name || has_signature rest name

pub is_signer : Certificate → ValidatorName → Bool
unfolding has_signature
is_signer c name = has_signature c.signatures name

-- The loop of `check_signatures`: the weight so far and the names used.
unfoldable pub check_signers : Committee → List ValidatorName → ℕ → Signatures → Result ChainError ℕ
unfolding contains weight
check_signers committee used total [] = ok total
check_signers committee used total ((name, _) ∷ rest) =
    let remaining =
      check_signers committee (name ∷ used) ((total + weight committee name) % 2 ^ 64) rest in
    do
      ensure (not (contains used name)) certificate_validator_reuse
      ensure (ltb 0 (weight committee name)) invalid_signer
      remaining

unfoldable pub check_signatures :
    Crypto → LiteValue → RoundNumber → Signatures → Committee → Result ChainError (Unit {0})
unfolding check_signers
check_signatures crypto value round signatures committee = do
  total ← check_signers committee [] 0 signatures
  ensure (leb committee.quorum_threshold total) certificate_requires_quorum
  ensure (crypto.verify_batch value.value_hash round signatures) crypto_error

-- `Certificate::check`.
unfoldable pub check : Crypto → Certificate → Committee → Result ChainError HashedValue
unfolding check_signatures lite_value
check crypto c committee = do
  check_signatures crypto (lite_value c.value) c.round c.signatures committee
  ok c.value

-- `LiteCertificate::check`.
unfoldable pub check_lite : Crypto → LiteCertificate → Committee → Result ChainError LiteValue
unfolding check_signatures
check_lite crypto c committee = do
  check_signatures crypto c.value c.round c.signatures committee
  ok c.value

-- `Certificate::lite_certificate`.
pub lite_certificate : Certificate → LiteCertificate
unfolding lite_value
lite_certificate c = record {
  value = lite_value c.value;
  round = c.round;
  signatures = c.signatures;
}

-- `LiteCertificate::with_value`.
pub with_value : LiteCertificate → HashedValue → Option Certificate
unfolding chain_id
with_value c v =
    if not (c.value.chain_id == chain_id v.value) || not (c.value.value_hash == v.hash)
    then none
    else some (record { value = v; round = c.round; signatures = c.signatures })

-- `LiteVote::with_value`.
pub vote_with_value : LiteVote → HashedValue → Option Vote
unfolding lite_value
vote_with_value l v =
    if not (is_eq LiteValue-discrete l.value (lite_value v))
    then none
    else some
        (record { value = v; round = l.round; validator = l.validator; signature = l.signature })

-- The loop of `try_from_votes`; the signatures stand in the order of the votes.
pub gather : CryptoHash → RoundNumber → Signatures → List LiteVote → Option Signatures
gather hash round signatures [] = some signatures
gather hash round signatures (vote ∷ rest) =
    let remaining = gather hash round (signatures ++ (vote.validator, vote.signature) ∷ []) rest in
    if not (vote.value.value_hash == hash) || not (vote.round == round) then none else remaining

abbrev gathered : LiteValue → RoundNumber → Option Signatures → Option LiteCertificate
gathered value round none = none
gathered value round (some signatures) = some (new_lite_certificate value round signatures)

pub try_from_votes : List LiteVote → Option LiteCertificate
unfolding gather new_lite_certificate
try_from_votes [] = none
try_from_votes (vote ∷ rest) =
    gathered vote.value vote.round
      (gather vote.value.value_hash vote.round ((vote.validator, vote.signature) ∷ []) rest)

-- `Deserialize for Certificate`: the wire form is taken only if its signatures are ordered.
pub deserialize : HashedValue → RoundNumber → Signatures → Option Certificate
unfolding is_strictly_ordered
deserialize value round signatures =
    if not (is_strictly_ordered signatures)
    then none
    else some (record { value = value; round = round; signatures = signatures })

pub record SignatureAggregator : Type 0 where
  pub committee : Committee
  pub weight : ℕ
  pub used_validators : List ValidatorName
  pub partial : Certificate

-- `SignatureAggregator::new`.
unfoldable pub start : HashedValue → RoundNumber → Committee → SignatureAggregator
start value round committee = record {
  committee = committee;
  weight = 0;
  used_validators = [];
  partial = record { value = value; round = round; signatures = [] };
}

-- The steps of `append` after the name has been marked as used.
unfoldable pub append_used :
    SignatureAggregator
    → ValidatorName
    → Signature
    → SignatureAggregator × Result ChainError (Option Certificate)
append_used a name signature =
    let rights = weight a.committee name in
    let total = (a.weight + rights) % 2 ^ 64 in
    let partial = add_signature a.partial (name, signature) in
    if not (ltb 0 rights)
    then (a, err invalid_signer)
    else if leb a.committee.quorum_threshold total
    then (record a { weight = 0; partial = partial }, ok (some partial))
    else (record a { weight = total; partial = partial }, ok none)

-- `SignatureAggregator::append`: the aggregator afterwards, and the result.
unfoldable pub append :
    Crypto
    → SignatureAggregator
    → ValidatorName
    → Signature
    → SignatureAggregator × Result ChainError (Option Certificate)
unfolding append_used
append crypto a name signature =
    if not (crypto.check_vote a.partial.value.hash a.partial.round name signature)
    then (a, err crypto_error)
    else if contains a.used_validators name
    then (a, err certificate_validator_reuse)
    else append_used (record a { used_validators = name ∷ a.used_validators }) name signature
