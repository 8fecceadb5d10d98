-- ===== src/Examples/Applications.antt =====
-- A registry of three applications: the first requires the other two, and the second the third.
use linera_protocol.Prelude.{ℕ, ◌-◌, ◌≡◌, ◌≢◌, refl, [], ◌∷◌, List, ok, err, ℕ_discrete, arith}
use linera_protocol.Base.Identifiers.{ApplicationId}
use linera_protocol.Base.Maps.{find, member, put}
use linera_protocol.Execution.Messages.{UserApplicationDescription}
use linera_protocol.Execution.Errors.{out_of_fuel}
use linera_protocol.Execution.Registry.{
  ApplicationRegistry, describe_application, describe_applications_with_dependencies, described,
  entries_left, ensure_registered, find_dependencies, id_of, push_unseen, register_application,
  search,
}
use linera_protocol.Execution.Registry.Search.{find_dependencies-ends}
use linera_protocol.Execution.Registry.Stack.{In, IsRanked}
use linera_protocol.Execution.Registry.Order.{DependenciesFirst, find_dependencies-order}
use linera_protocol.Execution.Registry.Complete.{Requires}
use linera_protocol.Execution.Registry.Closed.{Descriptions, IsClosed, Known, describe-known}
use linera_protocol.Execution.Registry.Registration.{register_application-IsClosed}
use linera_protocol.Examples.Accounts.{application_key as key}

abbrev id : ℕ → ApplicationId
id n = record {
  bytecode_id = record { message_id = record { chain_id = 1; height = 0; index = 0 } };
  creation = record { chain_id = 1; height = 0; index = n };
}

abbrev app : ℕ → List ApplicationId → UserApplicationDescription
app n required = record {
  bytecode_id = (id n).bytecode_id;
  bytecode_location = record { certificate_hash = 9; operation_index = 0 };
  creation = (id n).creation;
  parameters = [];
  required_application_ids = required;
}

abbrev empty : ApplicationRegistry
empty = record { published_bytecodes = []; known_applications = [] }

abbrev last : ApplicationRegistry
last = record empty { known_applications = (id 3, app 3 []) ∷ [] }

abbrev three : ApplicationRegistry
three = record empty {
  known_applications =
      (id 1, app 1 (id 2 ∷ id 3 ∷ [])) ∷ (id 2, app 2 (id 3 ∷ [])) ∷ (id 3, app 3 []) ∷ [];
}

abbrev rank : ApplicationId → ℕ
rank x = 10 - x.creation.index

three-IsRanked : IsRanked key [] three rank
unfolding IsRanked described describe_application find member
three-IsRanked x child a d m = ground arith

find_runs : find_dependencies key (id 1 ∷ []) [] three ≡ ok (id 3 ∷ id 2 ∷ id 1 ∷ [])
unfolding find_dependencies search described describe_application find member entries_left
    push_unseen ℕ_discrete
find_runs = refl

find_dependencies-ends_example : find_dependencies key (id 1 ∷ []) [] three ≢ err out_of_fuel
find_dependencies-ends_example = find_dependencies-ends key (id 1 ∷ []) [] three

find_dependencies-order_example :
    DependenciesFirst key [] three [] (id 3 ∷ id 2 ∷ id 1 ∷ [])
    × ((x : ApplicationId) → In key x (id 1 ∷ []) → In key x (id 3 ∷ id 2 ∷ id 1 ∷ []))
find_dependencies-order_example =
    find_dependencies-order key [] three rank (id 1 ∷ []) (id 3 ∷ id 2 ∷ id 1 ∷ []) three-IsRanked
      find_runs

empty-IsClosed : IsClosed key [] empty
unfolding IsClosed described describe_application find
empty-IsClosed x a c d m = cc

registers : register_application key (app 3 []) empty ≡ ok (last, id 3)
unfolding register_application ensure_registered find put id_of
registers = refl

register_application-IsClosed_example : IsClosed key [] last × Known key [] last (id 3)
register_application-IsClosed_example =
    register_application-IsClosed key (app 3 []) empty last (id 3) empty-IsClosed registers

last-Known : (x : ApplicationId) → In key x (id 3 ∷ []) → Known key [] last x
unfolding described describe_application find member
last-Known x m = (app 3 [], ground arith)

last-IsClosed : IsClosed key [] last
unfolding IsClosed described describe_application find member
last-IsClosed x a c d m = absurd (ground arith)

describe-known_example :
    (order : List ApplicationId) × (apps : List UserApplicationDescription) × (find_dependencies key
        (id 3 ∷ [])
        []
        last
      ≡ ok order)
    × (describe_applications_with_dependencies key (id 3 ∷ []) [] last ≡ ok apps)
    × Descriptions key [] last order apps
    × ((x : ApplicationId) → In key x (id 3 ∷ []) → In key x order)
    × ((g c : ApplicationId) → In key g order → Requires key [] last g c → In key c order)
describe-known_example = describe-known key [] last (id 3 ∷ []) last-IsClosed last-Known
