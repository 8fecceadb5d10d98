-- ===== src/Examples/Committees.antt =====
-- Committees of four validators, and sums near the largest value.
use linera_protocol.Prelude.{
  ◌+◌, ◌*◌, ◌<◌, ◌≤◌, ℕ, ◌≡◌, ◌⊎◌, arith, ◌==◌, ◌&&◌, not, Bool, [], ◌∷◌, ok,
}
use linera_protocol.Base.Arithmetic.{u64_max}
use linera_protocol.Execution.Policy.{fuel_price, remaining_fuel, remaining_fuel-fuel_price}
use linera_protocol.Execution.Committee.{Committee, ValidatorName, Validators, new, votes_from}
use linera_protocol.Execution.Committee.Format.{committee_roundtrip, to_full, try_from-to_full}
use linera_protocol.Execution.Committee.Quorum.{
  IsValid, new-IsValid, quorum-availability, quorum-intersection, weight_in,
}
use linera_protocol.Examples.{policy}

abbrev four : Validators
four =
    (1, record { network_address = []; votes = 1 })
    ∷ (2, record { network_address = []; votes = 1 })
    ∷ (3, record { network_address = []; votes = 1 })
    ∷ (4, record { network_address = []; votes = 2 })
    ∷ []

abbrev pub committee : Committee
committee = new four policy

pub committee-IsValid : IsValid committee
unfolding votes_from
committee-IsValid =
    new-IsValid four policy (omega arith, (omega arith, (omega arith, tt))) (omega arith)

abbrev without_first : ValidatorName → Bool
without_first n = not (n == 1)

abbrev without_third : ValidatorName → Bool
without_third n = not (n == 3)

quorum-intersection_example :
    committee.validity_threshold ≤ weight_in (λ n. without_first n && without_third n) four
unfolding weight_in new votes_from
quorum-intersection_example =
    quorum-intersection four policy without_first without_third (omega arith) (omega arith)
      (omega arith)

quorum-availability_example :
    (weight_in (λ n. n == 2) four < committee.validity_threshold)
    × (committee.quorum_threshold ≤ weight_in (λ n. not (n == 2)) four)
    × (2 * votes_from 0 four < 3 * committee.quorum_threshold)
unfolding weight_in new votes_from
quorum-availability_example =
    quorum-availability four policy (λ n. n == 2) (omega arith) (omega arith) (omega arith)

try_from-to_full_example : (committee ≡ new four policy) × (to_full committee ≡ to_full committee)
unfolding to_full new
try_from-to_full_example = try_from-to_full (to_full committee) (committee_roundtrip four policy).0

remaining_fuel-fuel_price_example :
    ((price : ℕ) × (fuel_price policy (remaining_fuel policy 9) ≡ ok price) × (price ≤ 9))
    × ((remaining_fuel policy 9 ≡ u64_max) ⊎ (9 < 2 * (remaining_fuel policy 9 + 1)))
remaining_fuel-fuel_price_example = remaining_fuel-fuel_price policy 9 (omega arith)
