-- ===== src/Execution/Registry/Closed.antt =====
-- Registries that know all that their applications require, and the descriptions of an application
-- and its dependencies in them.
use mathlib.Core.List.{reverse, reverse_aux}
use linera_protocol.Execution.Registry.Complete.{Requires, find_dependencies-closed, not-In_nil}
use linera_protocol.Execution.Registry.Order.{find_dependencies-asked}
use linera_protocol.Prelude.{
  ℕ, zero, suc, ◌≡◌, ◌⊎◌, inl, inr, refl, subst, List, [], ◌∷◌, ◌++◌, ok, err, arith, Bool-cases,
}
use linera_protocol.Base.Identifiers.{ApplicationId}
use linera_protocol.Base.Maps.{Key, member}
use linera_protocol.Execution.Messages.{UserApplicationDescription}
use linera_protocol.Execution.Errors.{out_of_fuel}
use linera_protocol.Execution.Registry.{
  Applications, ApplicationRegistry, describe_all, describe_applications_with_dependencies,
  described, find_dependencies, push_unseen, rounds, search,
}
use linera_protocol.Execution.Registry.Search.{find_dependencies-ends}
use linera_protocol.Execution.Registry.Stack.{In, In-append_origin, push_unseen-origin}

module _ (applications : Key ApplicationId) where
  In-head : (x : ApplicationId) (xs : List ApplicationId) → In applications x (x ∷ xs)
  unfolding member
  In-head x xs = ground arith

  In-tail :
      (x y : ApplicationId) (ys : List ApplicationId)
      → In applications x ys
      → In applications x (y ∷ ys)
  unfolding member
  In-tail x y ys h = ground arith

  In-reverse_aux :
      (x : ApplicationId) (ids rest : List ApplicationId)
      → (In applications x ids ⊎ In applications x rest)
      → In applications x (reverse_aux ids rest)
  unfolding member
  In-reverse_aux x [] rest h = ground arith
  In-reverse_aux x (y ∷ ids) rest h = In-reverse_aux x ids (y ∷ rest) (ground arith)

  reverse_aux-In :
      (x : ApplicationId) (ids rest : List ApplicationId)
      → In applications x (reverse_aux ids rest)
      → In applications x ids ⊎ In applications x rest
  unfolding member
  reverse_aux-In x [] rest h = inr h
  reverse_aux-In x (y ∷ ids) rest h = ground (arith, reverse_aux-In x ids (y ∷ rest) h)

  In-reverse :
      (x : ApplicationId) (ids : List ApplicationId)
      → In applications x ids
      → In applications x (reverse ids)
  In-reverse x ids m = In-reverse_aux x ids [] (inl m)

  reverse-In :
      (x : ApplicationId) (ids : List ApplicationId)
      → In applications x (reverse ids)
      → In applications x ids
  reverse-In x ids m = elim (reverse_aux-In x ids [] m) [
    | inl i ↦ i
    | inr i ↦ not-In_nil applications x i
  ]

  module _ (extra : Applications) (registry : ApplicationRegistry) where
    -- The application has a description.
    abbrev pub Known : ApplicationId → Type 0
    Known id =
        (app : UserApplicationDescription) × (described applications extra registry id ≡ ok app)

    -- So have all that it requires.
    unfoldable pub IsClosed : Type 0
    IsClosed =
        (id : ApplicationId) (app : UserApplicationDescription) (c : ApplicationId)
        → described applications extra registry id ≡ ok app
        → In applications c app.required_application_ids
        → Known c

    abbrev pub AllKnown : List ApplicationId → Type 0
    AllKnown ids = (x : ApplicationId) → In applications x ids → Known x

    search-known :
        IsClosed
        → (n : ℕ) (stack sorted seen result : List ApplicationId) → AllKnown stack
        → AllKnown result
        → (search applications extra registry n stack sorted seen result ≡ err out_of_fuel)
          ⊎ ((ids : List ApplicationId) × (search applications extra registry n stack sorted seen
                  result
                ≡ ok ids)
              × AllKnown ids)
    unfolding search IsClosed
    search-known closed n [] sorted seen result k l = inr (result, refl, l)
    search-known closed zero (id ∷ stack) sorted seen result k l = inl refl
    search-known closed (suc n) (id ∷ stack) sorted seen result k l =
        let rest : AllKnown stack = λ x m. k x (In-tail x id stack m) in
        let (app, d) = k id (In-head id stack) in
        elim (Bool-cases (member applications id sorted)) [
          | inl s ↦ rw s (search-known closed n stack sorted seen result rest l)
          | inr s ↦ elim (Bool-cases (member applications id seen)) [
            | inl t ↦
                rw (s, t)
                  (search-known closed n stack (id ∷ sorted) seen (result ++ id ∷ []) rest λ x m.
                    elim (In-append_origin applications x result id m) [
                      | inl i ↦ l x i
                      | inr p ↦ subst Known p (app, d)
                    ])
            | inr t ↦
                rw (s, t, d)
                  (search-known closed n
                    (push_unseen applications (id ∷ seen) app.required_application_ids (id ∷ stack))
                    sorted (id ∷ seen) result
                    (λ x m.
                      elim (push_unseen-origin applications x (id ∷ seen)
                        app.required_application_ids (id ∷ stack) m) [
                          | inl c ↦ closed id app x d c
                          | inr i ↦ k x i
                        ])
                    l)
          ]
        ]

    find_dependencies-known :
        IsClosed
        → (stack : List ApplicationId) → AllKnown stack
        → (order : List ApplicationId) × (find_dependencies applications stack extra registry
            ≡ ok order)
          × AllKnown order
    unfolding find_dependencies
    find_dependencies-known closed stack k =
        elim (search-known closed (rounds applications extra registry stack) stack [] [] [] k
          (λ x m. not-In_nil applications x m)) [
            | inl e ↦ absurd (find_dependencies-ends applications stack extra registry e)
            | inr known ↦ known
          ]

    -- The descriptions of the applications, one by one.
    abbrev pub Descriptions : List ApplicationId → List UserApplicationDescription → Type 0
    Descriptions [] [] = Unit
    Descriptions (id ∷ ids) (app ∷ apps) =
        (described applications extra registry id ≡ ok app) × Descriptions ids apps
    Descriptions _ _ = ⊥

    describe_all-known :
        (ids : List ApplicationId)
        → AllKnown ids
        → (apps : List UserApplicationDescription) × (describe_all applications extra registry ids
            ≡ ok apps)
          × Descriptions ids apps
    unfolding describe_all
    describe_all-known [] k = ([], refl, tt)
    describe_all-known (id ∷ ids) k =
        let (app, d) = k id (In-head id ids) in
        let (apps, e, l) = describe_all-known ids λ x m. k x (In-tail x id ids m) in
        (app ∷ apps, rw (d, e) refl, (d, l))

    -- In a registry that is closed (each application that a known one requires is known too), a list
    -- of known applications is described without an error: what is returned are the descriptions, one
    -- by one and in the order of the search, of applications among which are those of the list and,
    -- with each, all that it requires.
    pub describe-known :
        (ids : List ApplicationId)
        → IsClosed
        → AllKnown ids
        → (order : List ApplicationId) × (apps : List UserApplicationDescription)
          × (find_dependencies applications (reverse ids) extra registry ≡ ok order)
          × (describe_applications_with_dependencies applications ids extra registry ≡ ok apps)
          × Descriptions order apps
          × ((x : ApplicationId) → In applications x ids → In applications x order)
          × ((g c : ApplicationId)
              → In applications g order
              → Requires applications extra registry g c
              → In applications c order)
    unfolding describe_applications_with_dependencies
    describe-known ids closed k =
        let stack = reverse ids in
        let (order, e, l) = find_dependencies-known closed stack λ x m. k x (reverse-In x ids m) in
        let (apps, a, d) = describe_all-known order l in
        (
          order,
          apps,
          e,
          rw e a,
          d,
          λ x m.
              find_dependencies-asked applications extra registry stack order x e
                (In-reverse x ids m),
          find_dependencies-closed applications extra registry stack order e,
        )
