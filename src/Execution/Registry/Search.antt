-- ===== src/Execution/Registry/Search.antt =====
-- The search of dependencies: it ends within its bound on the rounds, and ids are found before the
-- ones that require them.
use linera_protocol.Prelude.{
  ℕ, zero, suc, ◌+◌, ◌≤◌, ◌≡◌, ◌≢◌, ◌∙◌, false, List, [], ◌∷◌, ◌++◌, some, ok, err, arith, length,
  ◌⊎◌, inl, inr, Bool-cases, Result-cases, err_inj, ap,
}
use linera_protocol.Base.Identifiers.{ApplicationId}
use linera_protocol.Base.Maps.{Key, find, member}
use linera_protocol.Execution.Messages.{UserApplicationDescription}
use linera_protocol.Execution.Errors.{out_of_fuel}
use linera_protocol.Execution.Registry.{
  Applications, ApplicationRegistry, described, describe_application, entries_left,
  find_dependencies, push_unseen, rounds, search,
}

module _ (applications : Key ApplicationId) where
  length-push_unseen :
      (seen children stack : List ApplicationId)
      → length (push_unseen applications seen children stack) ≤ length children + length stack
  unfolding push_unseen
  length-push_unseen seen [] stack = omega arith
  length-push_unseen seen (c ∷ rest) stack = ground (arith, length-push_unseen seen rest stack)

  entries_left_mono :
      (id : ApplicationId) (seen : List ApplicationId) (apps : Applications)
      → entries_left applications (id ∷ seen) apps ≤ entries_left applications seen apps
  unfolding entries_left member
  entries_left_mono id seen [] = omega arith
  entries_left_mono id seen ((k, app) ∷ rest) = ground (arith, entries_left_mono id seen rest)

  entries_left_found :
      (id : ApplicationId) (app : UserApplicationDescription) (seen : List ApplicationId)
      (apps : Applications)
      → find applications id apps ≡ some app
      → member applications id seen ≡ false
      → entries_left applications (id ∷ seen) apps + (length app.required_application_ids + 1)
        ≤ entries_left applications seen apps
  unfolding entries_left member find
  entries_left_found id app seen [] e n = cc
  entries_left_found id app seen ((k, app') ∷ rest) e n =
      ground (arith, entries_left_found id app seen rest, entries_left_mono id seen rest)

  found-described :
      (extra : Applications) (registry : ApplicationRegistry) (id : ApplicationId)
      (app : UserApplicationDescription)
      → described applications extra registry id ≡ ok app
      → (find applications id extra ≡ some app)
        ⊎ (find applications id registry.known_applications ≡ some app)
  unfolding described describe_application
  found-described extra registry id app h = ground arith

  described_fuel :
      (extra : Applications) (registry : ApplicationRegistry) (id : ApplicationId)
      → described applications extra registry id ≢ err out_of_fuel
  unfolding described describe_application
  described_fuel extra registry id h = ground arith

  abbrev open_entries : Applications → ApplicationRegistry → List ApplicationId → ℕ
  open_entries extra registry seen =
      entries_left applications seen extra
      + entries_left applications seen registry.known_applications

  open_entries_found :
      (extra : Applications) (registry : ApplicationRegistry) (id : ApplicationId)
      (app : UserApplicationDescription) (seen : List ApplicationId)
      → described applications extra registry id ≡ ok app
      → member applications id seen ≡ false
      → open_entries extra registry (id ∷ seen) + (length app.required_application_ids + 1)
        ≤ open_entries extra registry seen
  open_entries_found extra registry id app seen h n =
      let known = registry.known_applications in
      elim (found-described extra registry id app h) [
        | inl e ↦
            omega (arith, entries_left_found id app seen extra e n, entries_left_mono id seen known)
        | inr e ↦
            omega (arith, entries_left_found id app seen known e n, entries_left_mono id seen extra)
      ]

  -- With fuel for the stack and the entries that are left, the loop does not run out of it.
  search-ends :
      (extra : Applications) (registry : ApplicationRegistry) (n : ℕ)
      (stack sorted seen result : List ApplicationId)
      → length stack + open_entries extra registry seen ≤ n
      → search applications extra registry n stack sorted seen result ≢ err out_of_fuel
  unfolding search
  search-ends extra registry n [] sorted seen result h = λ e. cc
  search-ends extra registry zero (id ∷ stack) sorted seen result h = absurd (omega arith)
  search-ends extra registry (suc n) (id ∷ stack) sorted seen result h =
      elim (Bool-cases (member applications id sorted)) [
        | inl s ↦ rw s (search-ends extra registry n stack sorted seen result (omega arith))
        | inr s ↦ elim (Bool-cases (member applications id seen)) [
          | inl t ↦
              rw (s, t)
                (search-ends extra registry n stack (id ∷ sorted) seen (result ++ id ∷ [])
                  (omega arith))
          | inr t ↦ elim (Result-cases (described applications extra registry id)) [
            | inl (app, d) ↦
                rw (s, t, d)
                  (search-ends extra registry n
                    (push_unseen applications (id ∷ seen) app.required_application_ids (id ∷ stack))
                    sorted (id ∷ seen) result
                    (omega (
                      arith,
                      length-push_unseen (id ∷ seen) app.required_application_ids (id ∷ stack),
                      open_entries_found extra registry id app seen d t,
                    )))
            | inr (e, d) ↦
                rw (s, t, d) λ q. described_fuel extra registry id (d ∙ ap err (err_inj q))
          ]
        ]
      ]

  -- In every registry, with cycles or without, and from every stack, the search for dependencies ends
  -- within its fuel.
  pub find_dependencies-ends :
      (stack : List ApplicationId) (extra : Applications) (registry : ApplicationRegistry)
      → find_dependencies applications stack extra registry ≢ err out_of_fuel
  unfolding find_dependencies
  find_dependencies-ends stack extra registry =
      search-ends extra registry (rounds applications extra registry stack) stack [] [] []
        (omega arith)
