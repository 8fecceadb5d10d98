-- ===== src/Execution/Registry.antt =====
-- linera-execution/src/applications.rs: `ApplicationRegistryView`, the bytecodes that have been
-- published and the applications that the chain knows, and the search of an application's
-- dependencies.
pub mod Search
pub mod Stack
pub mod Order
pub mod Complete
pub mod Closed
pub mod Registration
use mathlib.Core.List.{reverse}
use linera_protocol.Prelude.{
  ℕ, zero, suc, ◌+◌, not, if◌then◌else◌, Bool, true, false, List, [], ◌∷◌, ◌++◌, Option, none, some,
  Result, ok, err, ◌>>=◌, ◌>>◌, ok_or, length,
}
use linera_protocol.Base.Identifiers.{Bytes, BytecodeId, ApplicationId, MessageId}
use linera_protocol.Base.Maps.{Key, Entries, find, put, member}
use linera_protocol.Execution.Messages.{BytecodeLocation, UserApplicationDescription}
use linera_protocol.Execution.Errors.{
  Failure, SystemResult, error, out_of_fuel, unknown_application_id, unknown_bytecode_id,
}

abbrev pub Applications : Type 0
Applications = Entries ApplicationId UserApplicationDescription

pub record ApplicationRegistry : Type 0 where
  pub published_bytecodes : Entries BytecodeId BytecodeLocation
  pub known_applications : Applications

-- `From<&UserApplicationDescription> for UserApplicationId`.
unfoldable pub id_of : UserApplicationDescription → ApplicationId
id_of description = record {
  bytecode_id = description.bytecode_id;
  creation = description.creation;
}

-- The keys' order is that of their serialized bytes.
module _ (applications : Key ApplicationId) where
  unfoldable pub describe_application :
      ApplicationRegistry → ApplicationId → SystemResult UserApplicationDescription
  describe_application registry id =
      ok_or (find applications id registry.known_applications) (error (unknown_application_id id))

  -- The loops that make sure that the required applications have been registered.
  unfoldable pub ensure_registered :
      ApplicationRegistry → List ApplicationId → SystemResult (Unit {0})
  ensure_registered registry [] = ok tt
  ensure_registered registry (id ∷ rest) =
      describe_application registry id >>= λ _. ensure_registered registry rest

  unfoldable pub register_application :
      UserApplicationDescription
      → ApplicationRegistry
      → SystemResult (ApplicationRegistry × ApplicationId)
  register_application application registry =
      ensure_registered registry application.required_application_ids
      >> (let id = id_of application in
          ok (
            record registry {
              known_applications = put applications id application registry.known_applications;
            },
            id,
          ))

  -- The description of an application, from the extra ones or from the registry.
  unfoldable pub described :
      Applications → ApplicationRegistry → ApplicationId → SystemResult UserApplicationDescription
  described extra registry id = elim (find applications id extra) [
    | some app ↦ ok app
    | none ↦ describe_application registry id
  ]

  -- The dependencies that have not been seen, pushed in reverse: the first one ends on the top.
  unfoldable pub push_unseen :
      List ApplicationId → List ApplicationId → List ApplicationId → List ApplicationId
  push_unseen seen [] stack = stack
  push_unseen seen (child ∷ rest) stack =
      if member applications child seen
      then push_unseen seen rest stack
      else child ∷ push_unseen seen rest stack

  -- The loop of `find_dependencies`: the stack, its top first, and the sets and the result so far.
  unfoldable pub search :
      Applications
      → ApplicationRegistry
      → ℕ
      → List ApplicationId
      → List ApplicationId
      → List ApplicationId
      → List ApplicationId
      → SystemResult (List ApplicationId)
  search extra registry n [] sorted seen result = ok result
  search extra registry zero (id ∷ stack) sorted seen result = err out_of_fuel
  search extra registry (suc n) (id ∷ stack) sorted seen result =
      let skipped = search extra registry n stack sorted seen result in
      let finished = search extra registry n stack (id ∷ sorted) seen (result ++ id ∷ []) in
      if member applications id sorted
      then skipped
      else if member applications id seen
      then finished
      else described extra registry id >>= λ app.
          search extra registry n
            (push_unseen (id ∷ seen) app.required_application_ids (id ∷ stack)) sorted (id ∷ seen)
            result

  -- A bound on the rounds: each entry of the stack is taken once, and an application that is seen
  -- for the first time puts back itself and its dependencies.
  unfoldable pub entries_left : List ApplicationId → Applications → ℕ
  entries_left seen [] = 0
  entries_left seen ((id, app) ∷ rest) =
      if member applications id seen
      then entries_left seen rest
      else length app.required_application_ids + 1 + entries_left seen rest

  abbrev pub rounds : Applications → ApplicationRegistry → List ApplicationId → ℕ
  rounds extra registry stack =
      length stack + entries_left [] extra + entries_left [] registry.known_applications

  unfoldable pub find_dependencies :
      List ApplicationId → Applications → ApplicationRegistry → SystemResult (List ApplicationId)
  unfolding search
  find_dependencies stack extra registry =
      search extra registry (rounds extra registry stack) stack [] [] []

  unfoldable pub describe_all :
      Applications
      → ApplicationRegistry
      → List ApplicationId
      → SystemResult (List UserApplicationDescription)
  describe_all extra registry [] = ok []
  describe_all extra registry (id ∷ rest) = described extra registry id >>= λ app.
      describe_all extra registry rest >>= λ apps. ok (app ∷ apps)

  -- `find_dependencies` is given its stack with the top first: the last identifier is popped first.
  unfoldable pub describe_applications_with_dependencies :
      List ApplicationId
      → Applications
      → ApplicationRegistry
      → SystemResult (List UserApplicationDescription)
  describe_applications_with_dependencies ids extra registry =
      find_dependencies (reverse ids) extra registry >>= describe_all extra registry

unfoldable pub register_published_bytecode :
    Key BytecodeId → BytecodeId → BytecodeLocation → ApplicationRegistry → ApplicationRegistry
unfolding put
register_published_bytecode bytecodes id location registry = record registry {
  published_bytecodes = put bytecodes id location registry.published_bytecodes;
}

module _ (bytecodes : Key BytecodeId) (applications : Key ApplicationId) where
  unfoldable pub register_new_application :
      ApplicationId
      → Bytes
      → List ApplicationId
      → ApplicationRegistry
      → SystemResult ApplicationRegistry
  register_new_application id parameters required registry =
      ensure_registered applications registry required
      >> (ok_or (find bytecodes id.bytecode_id registry.published_bytecodes)
            (error (unknown_bytecode_id id.bytecode_id))
          >>= λ location.
              let description : UserApplicationDescription = record {
                bytecode_id = id.bytecode_id;
                bytecode_location = location;
                creation = id.creation;
                parameters = parameters;
                required_application_ids = required;
              } in
              ok (record registry {
                known_applications = put applications id description registry.known_applications;
              }))
