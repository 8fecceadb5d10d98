-- ===== src/Chain/Crypto.antt =====
-- What the chain takes from cryptography, as an argument: the Sha3 hash of a serialized value and the
-- ed25519 signatures (linera-base/src/crypto.rs calls other packages for both).
use linera_protocol.Prelude.{ℕ, Bool, List, Option, none, some}
use linera_protocol.Base.Identifiers.{
  CryptoHash, PublicKey, Signature, Owner, RoundNumber, ChainId, BlockHeight,
}
use linera_protocol.Execution.Committee.{Epoch}
use linera_protocol.Chain.DataTypes.{
  BlockAndRound, BlockProposal, Certificate, CertificateValue, ExecutedBlock, HashedValue,
  LiteValue, LiteVote, Signatures, Vote, validated_block, confirmed_block, leader_timeout,
}

abbrev pub KeyPair : Type 0
KeyPair = ℕ

pub record Crypto : Type 0 where
  -- `KeyPair::public`.
  pub public : KeyPair → PublicKey
  -- `Owner::from(public_key)`.
  pub owner_of : PublicKey → Owner
  -- `CryptoHash::new` of a certificate's value.
  pub hash_value : CertificateValue → CryptoHash
  -- `Signature::new` of a `ValueHashAndRound`, and of a `BlockAndRound`.
  pub sign_vote : CryptoHash → RoundNumber → KeyPair → Signature
  pub sign_block : BlockAndRound → KeyPair → Signature
  -- `Signature::check` of a `ValueHashAndRound`.
  pub check_vote : CryptoHash → RoundNumber → PublicKey → Signature → Bool
  -- `Signature::verify_batch` of a `ValueHashAndRound`.
  pub verify_batch : CryptoHash → RoundNumber → Signatures → Bool

module _ (crypto : Crypto) where
  -- `From<CertificateValue> for HashedValue`.
  unfoldable pub hashed : CertificateValue → HashedValue
  hashed v = record { value = v; hash = crypto.hash_value v }

  unfoldable pub new_confirmed : ExecutedBlock → HashedValue
  unfolding hashed
  new_confirmed b = hashed (confirmed_block b)

  unfoldable pub new_validated : ExecutedBlock → HashedValue
  unfolding hashed
  new_validated b = hashed (validated_block b)

  unfoldable pub new_leader_timeout : ChainId → BlockHeight → Epoch → HashedValue
  unfolding hashed
  new_leader_timeout id h e = hashed (leader_timeout id h e)

  abbrev confirmed_from : HashedValue → CertificateValue → Option HashedValue
  confirmed_from v (confirmed_block b) = some v
  confirmed_from v (validated_block b) = some (hashed (confirmed_block b))
  confirmed_from v (leader_timeout _ _ _) = none

  -- `HashedValue::into_confirmed`.
  unfoldable pub into_confirmed : HashedValue → Option HashedValue
  unfolding hashed
  into_confirmed v = confirmed_from v v.value

  -- `Vote::new`.
  unfoldable pub new_vote : HashedValue → RoundNumber → KeyPair → Vote
  new_vote v round key_pair = record {
    value = v;
    round = round;
    validator = crypto.public key_pair;
    signature = crypto.sign_vote v.hash round key_pair;
  }

  -- `LiteVote::new`.
  unfoldable pub new_lite_vote : LiteValue → RoundNumber → KeyPair → LiteVote
  new_lite_vote v round key_pair = record {
    value = v;
    round = round;
    validator = crypto.public key_pair;
    signature = crypto.sign_vote v.value_hash round key_pair;
  }

  -- `LiteVote::check`.
  unfoldable pub check_lite_vote : LiteVote → Bool
  check_lite_vote v = crypto.check_vote v.value.value_hash v.round v.validator v.signature

  -- `BlockProposal::new`.
  unfoldable pub new_proposal :
      BlockAndRound → KeyPair → List HashedValue → Option Certificate → BlockProposal
  new_proposal content secret blobs validated = record {
    content = content;
    owner = crypto.owner_of (crypto.public secret);
    signature = crypto.sign_block content secret;
    blobs = blobs;
    validated = validated;
  }
