-- ===== src/Execution/Registry/Complete.antt =====
-- The search of dependencies is complete: with an application it finds all that this one requires,
-- whether or not the requirements have a cycle.
use linera_protocol.Prelude.{
  ℕ, zero, suc, ◌≡◌, subst, sym, ap, ◌∙◌, List, [], ◌∷◌, ◌++◌, ok, arith, inl, inr, ◌⊎◌, Bool-cases,
  Result-cases, ok_inj,
}
use linera_protocol.Base.Identifiers.{ApplicationId}
use linera_protocol.Base.Maps.{Key, member}
use linera_protocol.Execution.Messages.{UserApplicationDescription}
use linera_protocol.Execution.Registry.{
  Applications, ApplicationRegistry, described, find_dependencies, push_unseen, rounds, search,
}
use linera_protocol.Execution.Registry.Order.{In-append}
use linera_protocol.Execution.Registry.Stack.{In, In-append_origin, push_unseen-keeps}

module _ (applications : Key ApplicationId) where
  In-cons :
      (x y : ApplicationId) (ys : List ApplicationId)
      → In applications x (y ∷ ys)
      → (y ≡ x) ⊎ In applications x ys
  unfolding member
  In-cons x y ys h = ground arith

  pub not-In_nil : {A : Type 0} (x : ApplicationId) → In applications x [] → A
  unfolding member
  not-In_nil x h = cc

  push_unseen-child :
      (x : ApplicationId) (seen children stack : List ApplicationId)
      → In applications x children
      → In applications x seen ⊎ In applications x (push_unseen applications seen children stack)
  unfolding push_unseen member
  push_unseen-child x seen [] stack h = cc
  push_unseen-child x seen (c ∷ rest) stack h = ground (arith, push_unseen-child x seen rest stack)

  module _ (extra : Applications) (registry : ApplicationRegistry) where
    abbrev pub Requires : ApplicationId → ApplicationId → Type 0
    Requires g c =
        (app : UserApplicationDescription) × (described applications extra registry g ≡ ok app)
        × In applications c app.required_application_ids

    record Covered (stack sorted seen result : List ApplicationId) : Type 0 where
      waits :
          (x : ApplicationId)
          → In applications x seen
          → In applications x stack ⊎ In applications x sorted
      required :
          (g c : ApplicationId)
          → In applications g seen
          → Requires g c
          → In applications c stack ⊎ In applications c sorted
      visited : (x : ApplicationId) → In applications x sorted → In applications x seen
      found : (x : ApplicationId) → In applications x sorted → In applications x result
      only : (x : ApplicationId) → In applications x result → In applications x sorted

    new-Covered : (stack : List ApplicationId) → Covered stack [] [] []
    unfolding member
    new-Covered stack = record {
      waits = λ x h. cc;
      required = λ g c h. cc;
      visited = λ x h. cc;
      found = λ x h. cc;
      only = λ x h. cc;
    }

    skip-Covered :
        (id : ApplicationId) (stack sorted seen result : List ApplicationId)
        → In applications id sorted
        → Covered (id ∷ stack) sorted seen result
        → Covered stack sorted seen result
    unfolding member
    skip-Covered id stack sorted seen result s i = record {
      waits = λ x h. ground (arith, i.waits x h);
      required = λ g c h r. ground (arith, i.required g c h r);
      visited = i.visited;
      found = i.found;
      only = i.only;
    }

    finish-Covered :
        (id : ApplicationId) (stack sorted seen result : List ApplicationId)
        → In applications id seen
        → Covered (id ∷ stack) sorted seen result
        → Covered stack (id ∷ sorted) seen (result ++ id ∷ [])
    unfolding member
    finish-Covered id stack sorted seen result t i = record {
      waits = λ x h. ground (arith, i.waits x h);
      required = λ g c h r. ground (arith, i.required g c h r);
      visited = λ x h. ground (arith, i.visited x);
      found = λ x h. ground (arith, i.found x, In-append applications x result id);
      only = λ x h. ground (arith, i.only x, In-append_origin applications x result id h);
    }

    visit-waits :
        (id x : ApplicationId) (children stack sorted seen : List ApplicationId)
        → (In applications x seen → In applications x (id ∷ stack) ⊎ In applications x sorted)
        → In applications x (id ∷ seen)
        → In applications x (push_unseen applications (id ∷ seen) children (id ∷ stack))
          ⊎ In applications x sorted
    unfolding member
    visit-waits id x children stack sorted seen i h =
        ground (arith, i, push_unseen-keeps applications x (id ∷ seen) children (id ∷ stack))

    visit-required :
        (id g c : ApplicationId) (app : UserApplicationDescription)
        (stack sorted seen result : List ApplicationId)
        → described applications extra registry id ≡ ok app
        → Covered (id ∷ stack) sorted seen result
        → In applications g (id ∷ seen)
        → Requires g c
        → In applications c
            (push_unseen applications (id ∷ seen) app.required_application_ids (id ∷ stack))
          ⊎ In applications c sorted
    visit-required id g c app stack sorted seen result d i h (app', d', m) =
        elim (In-cons g id seen h) [
          | inl same ↦
              let one : app' ≡ app =
                ok_inj (sym d' ∙ ap (described applications extra registry) (sym same) ∙ d) in
              elim (push_unseen-child c (id ∷ seen) app.required_application_ids (id ∷ stack)
                (subst (λ a. In applications c a.required_application_ids) one m)) [
                  | inl s ↦
                      visit-waits id c app.required_application_ids stack sorted seen (i.waits c) s
                  | inr p ↦ inl p
                ]
          | inr old ↦ elim (i.required g c old (app', d', m)) [
            | inl p ↦ inl (
                push_unseen-keeps applications c (id ∷ seen) app.required_application_ids
                  (id ∷ stack) p)
            | inr s ↦ inr s
          ]
        ]

    visit-Covered :
        (id : ApplicationId) (app : UserApplicationDescription)
        (stack sorted seen result : List ApplicationId)
        → described applications extra registry id ≡ ok app
        → Covered (id ∷ stack) sorted seen result
        → Covered
            (push_unseen applications (id ∷ seen) app.required_application_ids (id ∷ stack))
            sorted
            (id ∷ seen)
            result
    unfolding member
    visit-Covered id app stack sorted seen result d i = record {
      waits = λ x h. visit-waits id x app.required_application_ids stack sorted seen (i.waits x) h;
      required = λ g c h r. visit-required id g c app stack sorted seen result d i h r;
      visited = λ x h. ground (arith, i.visited x);
      found = i.found;
      only = i.only;
    }

    search-closed :
        (n : ℕ) (stack sorted seen result ids : List ApplicationId)
        → Covered stack sorted seen result
        → search applications extra registry n stack sorted seen result ≡ ok ids
        → (g c : ApplicationId) → In applications g ids
        → Requires g c
        → In applications c ids
    unfolding search
    search-closed n [] sorted seen result ids i = λ h.
        subst
          (λ l. (g c : ApplicationId) → In applications g l → Requires g c → In applications c l)
          (ok_inj h)
          λ g c m r. elim (i.required g c (i.visited g (i.only g m)) r) [
            | inl s ↦ not-In_nil c s
            | inr s ↦ i.found c s
          ]
    search-closed zero (id ∷ stack) sorted seen result ids i = λ h. cc
    search-closed (suc n) (id ∷ stack) sorted seen result ids i =
        elim (Bool-cases (member applications id sorted)) [
          | inl s ↦ rw s (
              search-closed n stack sorted seen result ids
                (skip-Covered id stack sorted seen result s i))
          | inr s ↦ elim (Bool-cases (member applications id seen)) [
            | inl t ↦
                rw (s, t)
                  (search-closed n stack (id ∷ sorted) seen (result ++ id ∷ []) ids
                    (finish-Covered id stack sorted seen result t i))
            | inr t ↦ elim (Result-cases (described applications extra registry id)) [
              | inl (app, d) ↦
                  rw (s, t, d)
                    (search-closed n
                      (push_unseen applications (id ∷ seen) app.required_application_ids
                        (id ∷ stack))
                      sorted (id ∷ seen) result ids
                      (visit-Covered id app stack sorted seen result d i))
              | inr (e, d) ↦ rw (s, t, d) λ h. cc
            ]
          ]
        ]

    -- With an application, the search finds all that it requires.
    pub find_dependencies-closed :
        (stack ids : List ApplicationId)
        → find_dependencies applications stack extra registry ≡ ok ids
        → (g c : ApplicationId) → In applications g ids
        → Requires g c
        → In applications c ids
    unfolding find_dependencies
    find_dependencies-closed stack ids h =
        search-closed (rounds applications extra registry stack) stack [] [] [] ids
          (new-Covered stack) h
