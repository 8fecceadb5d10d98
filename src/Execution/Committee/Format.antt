-- ===== src/Execution/Committee/Format.antt =====
-- linera-execution/src/committee.rs: the forms in which a committee is serialized, `CommitteeFull`
-- for people and `CommitteeMinimal` for storage and the network.
use linera_protocol.Prelude.{ℕ, ◌≡◌, arith, ◌==◌, not, if◌then◌else◌, Result, ok, err}
use linera_protocol.Execution.Committee.{Validators, ResourceControlPolicy, Committee, new}

pub record CommitteeFull : Type 0 where
  pub validators : Validators
  pub total_votes : ℕ
  pub quorum_threshold : ℕ
  pub validity_threshold : ℕ
  pub policy : ResourceControlPolicy

pub record CommitteeMinimal : Type 0 where
  pub validators : Validators
  pub policy : ResourceControlPolicy

-- The messages of `try_from`, with the number found and the number expected.
pub data InvalidCommittee : Type 0 where
  total_votes_is : ℕ → ℕ → InvalidCommittee
  quorum_threshold_is : ℕ → ℕ → InvalidCommittee
  validity_threshold_is : ℕ → ℕ → InvalidCommittee

-- `TryFrom<CommitteeFull> for Committee`.
pub try_from : CommitteeFull → Result InvalidCommittee Committee
try_from full =
    let committee = new full.validators full.policy in
    if not (full.total_votes == committee.total_votes)
    then err (total_votes_is full.total_votes committee.total_votes)
    else if not (full.quorum_threshold == committee.quorum_threshold)
    then err (quorum_threshold_is full.quorum_threshold committee.quorum_threshold)
    else if not (full.validity_threshold == committee.validity_threshold)
    then err (validity_threshold_is full.validity_threshold committee.validity_threshold)
    else ok committee

unfoldable pub to_full : Committee → CommitteeFull
to_full c = record {
  validators = c.validators;
  total_votes = c.total_votes;
  quorum_threshold = c.quorum_threshold;
  validity_threshold = c.validity_threshold;
  policy = c.policy;
}

pub from_minimal : CommitteeMinimal → Committee
from_minimal minimal = new minimal.validators minimal.policy

pub to_minimal : Committee → CommitteeMinimal
to_minimal c = record { validators = c.validators; policy = c.policy }

-- What `try_from` accepts is a committee that `new` makes, and its full form is what was read: the
-- thresholds of a file cannot differ from those of its validators.
pub try_from-to_full :
    (full : CommitteeFull) {c : Committee}
    → try_from full ≡ ok c
    → (c ≡ new full.validators full.policy) × (to_full c ≡ full)
unfolding try_from to_full new
try_from-to_full full h = (ground arith, ground arith)

-- A committee that `new` makes comes back from both of its serialized forms.
pub committee_roundtrip :
    (vs : Validators) (policy : ResourceControlPolicy)
    → (try_from (to_full (new vs policy)) ≡ ok (new vs policy))
      × (from_minimal (to_minimal (new vs policy)) ≡ new vs policy)
unfolding try_from to_full from_minimal to_minimal new
committee_roundtrip vs policy = (ground arith, ground arith)
