-- ===== src/Execution/Committee.antt =====
-- linera-execution/src/committee.rs and policy.rs: the validators of an epoch, their voting rights
-- and the thresholds for a quorum and for the validity of a statement.
pub mod Quorum
pub mod Format
use linera_protocol.Prelude.{
  ℕ, ◌+◌, ◌*◌, ◌/◌, ◌%◌, ◌^◌, ltb, ◌==◌, if◌then◌else◌, List, [], ◌∷◌, Option, none, some, Result,
  ok, err, ℕ_discrete,
}
use linera_protocol.Base.Arithmetic.{ArithmeticError, u32_max, u64_max, checked_add}
use linera_protocol.Base.Amount.{Amount}
use linera_protocol.Base.Identifiers.{PublicKey, Bytes}

abbrev pub Epoch : Type 0
Epoch = ℕ

-- `Epoch::try_add_one`; `try_add_assign_one` stores the same value.
unfoldable pub try_add_one : Epoch → Result ArithmeticError Epoch
try_add_one epoch = checked_add u32_max epoch 1

abbrev pub ValidatorName : Type 0
ValidatorName = PublicKey

-- `network_address` is the bytes of the text.
pub record ValidatorState : Type 0 where
  pub network_address : Bytes
  pub votes : ℕ

pub record ResourceControlPolicy : Type 0 where
  pub certificate : Amount
  pub fuel : Amount
  pub storage_num_reads : Amount
  pub storage_bytes_read : Amount
  pub storage_bytes_written : Amount
  pub maximum_bytes_read_per_block : ℕ
  pub maximum_bytes_written_per_block : ℕ
  pub messages : Amount

-- `BTreeMap<ValidatorName, ValidatorState>`: its entries, by increasing name.
abbrev pub Validators : Type 0
Validators = List (ValidatorName × ValidatorState)

pub record Committee : Type 0 where
  pub validators : Validators
  pub total_votes : ℕ
  pub quorum_threshold : ℕ
  pub validity_threshold : ℕ
  pub policy : ResourceControlPolicy

-- The sum in `Committee::new`, before any overflow of the `u64`.
unfoldable pub votes_from : ℕ → Validators → ℕ
votes_from acc [] = acc
votes_from acc ((_, state) ∷ rest) = votes_from (acc + state.votes) rest

-- `Committee::new`. Its `u64` arithmetic wraps around in a release build.
unfoldable pub new : Validators → ResourceControlPolicy → Committee
unfolding votes_from
new validators policy =
    let total = votes_from 0 validators % 2 ^ 64 in
    record {
      validators = validators;
      total_votes = total;
      quorum_threshold = (2 * total % 2 ^ 64 / 3 + 1) % 2 ^ 64;
      validity_threshold = (total + 2) % 2 ^ 64 / 3;
      policy = policy;
    }

-- `BTreeMap::get`.
unfoldable pub get : ValidatorName → Validators → Option ValidatorState
get author [] = none
get author ((name, state) ∷ rest) = if name == author then some state else get author rest

abbrev votes_of : Option ValidatorState → ℕ
votes_of (some state) = state.votes
votes_of none = 0

unfoldable pub weight : Committee → ValidatorName → ℕ
unfolding get
weight committee author = votes_of (get author committee.validators)

unfoldable pub network_address : Committee → ValidatorName → Option Bytes
unfolding get
network_address committee author = elim (get author committee.validators) [
  | none ↦ none
  | some state ↦ some state.network_address
]

pub Committee-discrete : Discrete Committee
Committee-discrete = hlevel ℕ_discrete
