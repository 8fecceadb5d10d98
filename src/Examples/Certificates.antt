-- ===== src/Examples/Certificates.antt =====
-- Certificates of the committee of four validators.
use mathlib.Core.List.{Perm}
use linera_protocol.Prelude.{
  none, ◌≤◌, ◌≡◌, ◌↔◌, refl, arith, ◌&&◌, List, [], ◌∷◌, map, All, some, ok,
}
use linera_protocol.Base.Identifiers.{MessageId}
use linera_protocol.Execution.Committee.{get, new, votes_from, weight}
use linera_protocol.Execution.Committee.Quorum.{weight_in}
use linera_protocol.Chain.DataTypes.{
  ExecutedBlock, Certificate, HashedValue, LiteCertificate, LiteVote, Signatures, Vote, lite_value,
  validated_block,
}
use linera_protocol.Chain.Certificates.{
  append, append_used, add_signature, insert_by_name, check, check_signatures, check_signers,
  contains, deserialize, is_signer, new_lite_certificate, start, try_from_votes,
}
use linera_protocol.Chain.Certificates.Aggregation.{BatchAccepts, append-check, append_all}
use linera_protocol.Chain.Certificates.Check.{IsCertified, check-intersection, check_signatures_iff}
use linera_protocol.Chain.Certificates.Lite.{Agrees, signature_of, try_from_votes-agree}
use linera_protocol.Chain.MessageIds.{first_message_index, message_id, message_id_for_operation}
use linera_protocol.Examples.{crypto, executed_of}
use linera_protocol.Examples.Committees.{committee, committee-IsValid}

abbrev value : HashedValue
value = record { value = validated_block (executed_of 20); hash = 70 }

abbrev signatures : Signatures
signatures = (1, 73) ∷ (2, 74) ∷ (4, 76) ∷ []

abbrev certificate : Certificate
certificate = record { value = value; round = 2; signatures = signatures }

abbrev other_certificate : Certificate
other_certificate = record {
  value = value;
  round = 3;
  signatures = (2, 75) ∷ (3, 76) ∷ (4, 77) ∷ [];
}

check_signatures_iff_example :
    (check_signatures crypto (lite_value value) 2 signatures committee ≡ ok tt)
    ↔ IsCertified crypto committee (lite_value value) 2 signatures
check_signatures_iff_example =
    check_signatures_iff crypto committee (lite_value value) 2 signatures committee-IsValid

passes : check crypto certificate committee ≡ ok value
unfolding check check_signatures check_signers contains weight get new votes_from lite_value
passes = refl

other_passes : check crypto other_certificate committee ≡ ok value
unfolding check check_signatures check_signers contains weight get new votes_from lite_value
other_passes = refl

check-intersection_example :
    committee.validity_threshold
    ≤ weight_in (λ n. is_signer certificate n && is_signer other_certificate n) committee.validators
check-intersection_example =
    check-intersection crypto committee certificate other_certificate committee-IsValid passes
      other_passes

batch : BatchAccepts crypto
batch hash round [] h = refl
batch hash round ((name, signature) ∷ rest) h = ground (arith, h.0, batch hash round rest h.1)

-- A vote that fails its check, and one that comes twice, are passed over.
appends :
    (append crypto
      (append_all crypto (start value 2 committee) ((4, 76) ∷ (3, 1) ∷ (1, 73) ∷ (1, 73) ∷ []))
      2
      74).1
    ≡ ok (some certificate)
unfolding append append_all append_used start contains weight get new votes_from add_signature
    insert_by_name
appends = refl

append-check_example :
    (check crypto certificate committee ≡ ok value)
    × (certificate.round ≡ 2)
    × (deserialize certificate.value certificate.round certificate.signatures ≡ some certificate)
append-check_example =
    append-check crypto batch value 2 committee committee-IsValid
      ((4, 76) ∷ (3, 1) ∷ (1, 73) ∷ (1, 73) ∷ []) 2 74 certificate appends

abbrev vote : Vote
vote = record { value = value; round = 2; validator = 1; signature = 73 }

abbrev lite_votes : List LiteVote
lite_votes =
    record {
      value = record { value_hash = 70; chain_id = 1 };
      round = 2;
      validator = 1;
      signature = 73;
    }
    ∷ []

abbrev first_vote : LiteVote
first_vote = record {
  value = record { value_hash = 70; chain_id = 1 };
  round = 2;
  validator = 4;
  signature = 76;
}

abbrev made : LiteCertificate
made = new_lite_certificate first_vote.value 2 (map signature_of (first_vote ∷ lite_votes))

try_from_votes-agree_example :
    (try_from_votes [] ≡ none)
    × ((try_from_votes (first_vote ∷ lite_votes) ≡ some made)
        ↔ (All (Agrees 70 2) lite_votes × (made ≡ made)))
    × Perm (map signature_of (first_vote ∷ lite_votes)) made.signatures
try_from_votes-agree_example = try_from_votes-agree first_vote lite_votes made

-- A block of two operations that create one message and two messages.
abbrev with_messages : ExecutedBlock
with_messages = record (executed_of 20) { message_counts = 1 ∷ 3 ∷ [] }

abbrev second_of_second : MessageId
second_of_second = record { chain_id = 1; height = 3; index = 2 }

finds : message_id_for_operation with_messages 1 1 ≡ some second_of_second
unfolding message_id_for_operation first_message_index message_id
finds = refl
