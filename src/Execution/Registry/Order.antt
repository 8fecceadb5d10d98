-- ===== src/Execution/Registry/Order.antt =====
-- The order in which the search finds applications: a topological sort, where the requirements have
-- no cycle.
use linera_protocol.Prelude.{
  ℕ, zero, suc, ◌≡◌, subst, List, [], ◌∷◌, ◌++◌, ok, arith, inl, inr, ◌⊎◌, Bool-cases, Result-cases,
  ok_inj,
}
use linera_protocol.Base.Identifiers.{ApplicationId}
use linera_protocol.Base.Maps.{Key, member}
use linera_protocol.Execution.Messages.{UserApplicationDescription}
use linera_protocol.Execution.Registry.{
  Applications, ApplicationRegistry, described, find_dependencies, push_unseen, rounds, search,
}
use linera_protocol.Execution.Registry.Stack.{
  In, IsRanked, Searching, skip-Searching, required-sorted, new-Searching, finish-Searching,
  visit-Searching, push_unseen-keeps,
}

module _ (applications : Key ApplicationId) where
  -- Each application comes after the ones that it requires, which are in the list or before it.
  pub DependenciesFirst :
      Applications → ApplicationRegistry → List ApplicationId → List ApplicationId → Type 0
  DependenciesFirst extra registry before [] = Unit
  DependenciesFirst extra registry before (id ∷ rest) =
      ((app : UserApplicationDescription) (c : ApplicationId)
        → described applications extra registry id ≡ ok app
        → In applications c app.required_application_ids
        → In applications c before)
      × DependenciesFirst extra registry (id ∷ before) rest

  DependenciesFirst-append :
      (extra : Applications) (registry : ApplicationRegistry) (id : ApplicationId)
      (before ids : List ApplicationId)
      → DependenciesFirst extra registry before ids
      → ((app : UserApplicationDescription) (c : ApplicationId)
          → described applications extra registry id ≡ ok app
          → In applications c app.required_application_ids
          → In applications c before ⊎ In applications c ids)
      → DependenciesFirst extra registry before (ids ++ id ∷ [])
  unfolding DependenciesFirst member
  DependenciesFirst-append extra registry id before [] h r =
      (λ app c d m. elim (r app c d m) [ inl a ↦ a | inr b ↦ cc ], tt)
  DependenciesFirst-append extra registry id before (x ∷ ids) (f, h) r = (
    f,
    DependenciesFirst-append extra registry id (x ∷ before) ids h
        λ app c d m. ground (arith, r app c d m),
  )

  pub In-append :
      (x : ApplicationId) (ids : List ApplicationId) (id : ApplicationId)
      → (In applications x ids ⊎ In applications x (id ∷ []))
      → In applications x (ids ++ id ∷ [])
  unfolding member
  In-append x [] id h = ground arith
  In-append x (y ∷ ids) id h = ground (arith, In-append x ids id)

  In-finished :
      (id : ApplicationId) (sorted result : List ApplicationId)
      → ((x : ApplicationId) → In applications x sorted → In applications x result)
      → (x : ApplicationId) → In applications x (id ∷ sorted)
      → In applications x (result ++ id ∷ [])
  unfolding member
  In-finished id sorted result same x h = ground (arith, same x, In-append x result id)

  module _ (extra : Applications) (registry : ApplicationRegistry) where
    search-order :
        (rank : ApplicationId → ℕ)
        → IsRanked applications extra registry rank
        → (n : ℕ) (stack sorted seen result : List ApplicationId) (ids : List ApplicationId)
        → Searching applications extra registry rank stack sorted seen
        → ((x : ApplicationId) → In applications x sorted → In applications x result)
        → DependenciesFirst extra registry [] result
        → search applications extra registry n stack sorted seen result ≡ ok ids
        → DependenciesFirst extra registry [] ids
    unfolding search
    search-order rank ranked n [] sorted seen result ids inv same first =
        λ h. subst (DependenciesFirst extra registry []) (ok_inj h) first
    search-order rank ranked zero (id ∷ stack) sorted seen result ids inv same first = λ h. cc
    search-order rank ranked (suc n) (id ∷ stack) sorted seen result ids inv same first =
        elim (Bool-cases (member applications id sorted)) [
          | inl s ↦ rw s (
              search-order rank ranked n stack sorted seen result ids
                (skip-Searching applications extra registry rank id stack sorted seen s inv) same
                first)
          | inr s ↦ elim (Bool-cases (member applications id seen)) [
            | inl t ↦
                rw (s, t)
                  (search-order rank ranked n stack (id ∷ sorted) seen (result ++ id ∷ []) ids
                    (finish-Searching applications extra registry rank id stack sorted seen t inv)
                    (In-finished id sorted result same)
                    (DependenciesFirst-append extra registry id [] result first λ app c d m. inr (
                      same c (
                        required-sorted applications extra registry rank id c app stack sorted seen
                          t s d m inv))))
            | inr t ↦ elim (Result-cases (described applications extra registry id)) [
              | inl (app, d) ↦
                  rw (s, t, d)
                    (search-order rank ranked n
                      (push_unseen applications (id ∷ seen) app.required_application_ids
                        (id ∷ stack))
                      sorted (id ∷ seen) result ids
                      (visit-Searching applications extra registry rank ranked id app stack sorted
                        seen t d inv)
                      same first)
              | inr (e, d) ↦ rw (s, t, d) λ h. cc
            ]
          ]
        ]

    search-complete :
        (n : ℕ) (stack sorted seen result : List ApplicationId) (ids : List ApplicationId)
        (x : ApplicationId)
        → (In applications x stack ⊎ In applications x result)
        → ((x : ApplicationId) → In applications x sorted → In applications x result)
        → search applications extra registry n stack sorted seen result ≡ ok ids
        → In applications x ids
    unfolding search member
    search-complete n [] sorted seen result ids x i same =
        λ h. subst (In applications x) (ok_inj h) (ground arith)
    search-complete zero (id ∷ stack) sorted seen result ids x i same = λ h. cc
    search-complete (suc n) (id ∷ stack) sorted seen result ids x i same =
        elim (Bool-cases (member applications id sorted)) [
          | inl s ↦
              rw s (
                search-complete n stack sorted seen result ids x (ground (arith, i, same id s))
                  same)
          | inr s ↦ elim (Bool-cases (member applications id seen)) [
            | inl t ↦
                rw (s, t)
                  (search-complete n stack (id ∷ sorted) seen (result ++ id ∷ []) ids x
                    (ground (arith, i, In-append x result id)) (In-finished id sorted result same))
            | inr t ↦ elim (Result-cases (described applications extra registry id)) [
              | inl (app, d) ↦
                  rw (s, t, d)
                    (search-complete n
                      (push_unseen applications (id ∷ seen) app.required_application_ids
                        (id ∷ stack))
                      sorted (id ∷ seen) result ids x
                      (ground (
                        arith,
                        i,
                        push_unseen-keeps applications x (id ∷ seen) app.required_application_ids
                            (id ∷ stack),
                      ))
                      same)
              | inr (e, d) ↦ rw (s, t, d) λ h. cc
            ]
          ]
        ]

    pub find_dependencies-asked :
        (stack ids : List ApplicationId) (x : ApplicationId)
        → find_dependencies applications stack extra registry ≡ ok ids
        → In applications x stack
        → In applications x ids
    unfolding find_dependencies
    find_dependencies-asked stack ids x h m =
        search-complete (rounds applications extra registry stack) stack [] [] [] ids x (inl m)
          (λ x m. m) h

    -- What the search finds: the applications that it was asked for, each after those that it
    -- requires, where the requirements have no cycle.
    pub find_dependencies-order :
        (rank : ApplicationId → ℕ) (stack ids : List ApplicationId)
        → IsRanked applications extra registry rank
        → find_dependencies applications stack extra registry ≡ ok ids
        → DependenciesFirst extra registry [] ids
          × ((x : ApplicationId) → In applications x stack → In applications x ids)
    unfolding find_dependencies DependenciesFirst
    find_dependencies-order rank stack ids ranked h =
        let n = rounds applications extra registry stack in
        (
          search-order rank ranked n stack [] [] [] ids
              (new-Searching applications extra registry rank stack) (λ x m. m) tt h,
          λ x m. search-complete n stack [] [] [] ids x (inl m) (λ x m. m) h,
        )
