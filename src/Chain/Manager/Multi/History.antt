-- ===== src/Chain/Manager/Multi/History.antt =====
-- linera-chain/src/manager/multi.rs: the runs of a validator at one height, and the
-- votes that its manager has shown as pending.
use linera_protocol.Prelude.{◌≡◌, ◌⊎◌, Option, none, some, List, [], ◌∷◌}
use linera_protocol.Base.Identifiers.{RoundNumber}
use linera_protocol.Chain.DataTypes.{
  Block, Certificate, ExecutedBlock, Vote, validated_block, confirmed_block,
}
use linera_protocol.Chain.Crypto.{Crypto, KeyPair}
use linera_protocol.Chain.Manager.Multi.{MultiOwnerManager}
use linera_protocol.Chain.Manager.Multi.Steps.{Step}

-- The vote is for the block's validation, or for its confirmation, in the round.
abbrev pub Validates : Vote → Block → RoundNumber → Type 0
Validates v b round =
    (executed : ExecutedBlock) × (v.value.value ≡ validated_block executed)
    × (executed.block ≡ b)
    × (v.round ≡ round)

abbrev pub Confirms : Vote → Block → RoundNumber → Type 0
Confirms v b round =
    (executed : ExecutedBlock) × (v.value.value ≡ confirmed_block executed)
    × (executed.block ≡ b)
    × (v.round ≡ round)

abbrev pub In : Vote → List Vote → Type 0
In v [] = ⊥
In v (w ∷ rest) = (v ≡ w) ⊎ In v rest

-- A validator shows its last vote after each step (`ChainInfoResponse`).
abbrev pub show : Option Vote → List Vote → List Vote
show none votes = votes
show (some v) votes = v ∷ votes

-- A manager as `new` makes it has neither voted nor seen a proposal or a certificate.
pub record IsNew (m : MultiOwnerManager) : Type 0 where
  pub proposed : m.proposed ≡ none
  pub locked : m.locked ≡ none
  pub pending : m.pending ≡ none

-- The runs of a validator from a new manager, with the votes that it has shown, the last one first.
pub data Run (crypto : Crypto) (key_pair : KeyPair) (G : Certificate → Type 0)
    : List Vote → MultiOwnerManager → Type 0 where
  begin : {m : MultiOwnerManager} → IsNew m → Run crypto key_pair G [] m
  then_step :
      {votes : List Vote} {m m' : MultiOwnerManager}
      → Run crypto key_pair G votes m
      → Step crypto key_pair G m m'
      → Run crypto key_pair G (show m'.pending votes) m'
