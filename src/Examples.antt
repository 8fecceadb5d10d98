-- ===== src/Examples.antt =====
-- Small concrete data for the examples: a signature scheme that adds numbers, a committee of one
-- validator, blocks, votes and certificates.
mod Rounds
mod Agreement
mod Certificates
mod Queues
mod Managers
mod Committees
mod Accounts
mod Applications
mod Deliveries
mod Dispatches
mod StagedQueues
use linera_protocol.Prelude.{
  ℕ, ◌+◌, ◌*◌, ◌==◌, ◌&&◌, Bool, true, List, [], ◌∷◌, Option, none, some, Result, ok, err,
}
use linera_protocol.Base.Identifiers.{CryptoHash, RoundNumber}
use linera_protocol.Base.Timestamp.{Timestamp}
use linera_protocol.Execution.Committee.{
  Committee, ResourceControlPolicy, ValidatorName, ValidatorState, Validators, new,
}
use linera_protocol.Chain.DataTypes.{
  Block, BlockExecutionOutcome, BlockProposal, Certificate, CertificateValue, ExecutedBlock,
  HashedValue, Signatures, Vote, executed_with, validated_block, confirmed_block, leader_timeout,
}
use linera_protocol.Chain.Crypto.{Crypto, KeyPair, new_confirmed, new_validated}

abbrev pub hash_of : CertificateValue → CryptoHash
hash_of (validated_block b) = 10 + 3 * b.state_hash
hash_of (confirmed_block b) = 11 + 3 * b.state_hash
hash_of (leader_timeout id height epoch) = 12 + 3 * height

abbrev pub verify_all : CryptoHash → RoundNumber → Signatures → Bool
verify_all hash round [] = true
verify_all hash round ((name, signature) ∷ rest) =
    signature == hash + round + name && verify_all hash round rest

abbrev pub crypto : Crypto
crypto = record {
  public = λ key. key;
  owner_of = λ key. key;
  hash_value = hash_of;
  sign_vote = λ hash round key. hash + round + key;
  sign_block = λ content key. content.round + key;
  check_vote = λ hash round name signature. signature == hash + round + name;
  verify_batch = verify_all;
}

abbrev pub block_one : Block
block_one = record {
  chain_id = 1;
  epoch = 0;
  incoming_messages = [];
  operations = [];
  height = 3;
  timestamp = 50;
  authenticated_signer = none;
  previous_block_hash = some 99;
}

abbrev pub outcome_of : CryptoHash → BlockExecutionOutcome
outcome_of state_hash = record { messages = []; message_counts = []; state_hash = state_hash }

abbrev pub executed_of : CryptoHash → ExecutedBlock
executed_of state_hash = record {
  block = block_one;
  messages = [];
  message_counts = [];
  state_hash = state_hash;
}

abbrev pub key_pair : KeyPair
key_pair = 7

-- The certificates that the one validator's signature makes.
abbrev pub validated_in : RoundNumber → CryptoHash → Certificate
validated_in round state_hash = record {
  value = record { value = validated_block (executed_of state_hash); hash = 10 + 3 * state_hash };
  round = round;
  signatures = (7, 10 + 3 * state_hash + round + 7) ∷ [];
}

abbrev pub confirmed_in : RoundNumber → CryptoHash → Certificate
confirmed_in round state_hash = record {
  value = record { value = confirmed_block (executed_of state_hash); hash = 11 + 3 * state_hash };
  round = round;
  signatures = (7, 11 + 3 * state_hash + round + 7) ∷ [];
}

-- The certificate that ends round 1.
abbrev pub timed_out : Certificate
timed_out = record {
  value = record { value = leader_timeout 1 3 0; hash = 21 };
  round = 1;
  signatures = (7, 29) ∷ [];
}

abbrev pub proposal_in : RoundNumber → BlockProposal
proposal_in round = record {
  content = record { block = block_one; round = round };
  owner = 5;
  signature = 0;
  blobs = [];
  validated = none;
}

abbrev pub policy : ResourceControlPolicy
policy = record {
  certificate = 1;
  fuel = 2;
  storage_num_reads = 3;
  storage_bytes_read = 4;
  storage_bytes_written = 5;
  maximum_bytes_read_per_block = 6;
  maximum_bytes_written_per_block = 7;
  messages = 8;
}

abbrev pub one_validator : Validators
one_validator = (7, record { network_address = []; votes = 1 }) ∷ []

abbrev pub committee : Committee
unfolding new
committee = new one_validator policy
