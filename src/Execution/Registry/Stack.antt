-- ===== src/Execution/Registry/Stack.antt =====
-- The stack of the search of dependencies, and what holds of it in every round where the
-- requirements have no cycle.
use linera_protocol.Prelude.{
  ℕ, ◌<◌, ◌≡◌, sym, ap, subst, ◌∙◌, ok_inj, true, false, List, [], ◌∷◌, ◌++◌, ok, arith, inl, inr,
  ◌⊎◌,
}
use linera_protocol.Base.Identifiers.{ApplicationId}
use linera_protocol.Base.Maps.{Key, member}
use linera_protocol.Execution.Messages.{UserApplicationDescription}
use linera_protocol.Execution.Registry.{Applications, ApplicationRegistry, described, push_unseen}

module _ (applications : Key ApplicationId) where
  abbrev pub In : ApplicationId → List ApplicationId → Type 0
  In x l = member applications x l ≡ true

  -- What stands above the first occurrence of an entry of the stack.
  pub above : ApplicationId → List ApplicationId → List ApplicationId
  above g [] = []
  above g (x ∷ rest) =
      let later = above g rest in elim (applications.same x g) [ yes _ ↦ [] | no _ ↦ x ∷ later ]

  above-push_old :
      (g x : ApplicationId) (seen children stack : List ApplicationId)
      → In g seen
      → In x (above g (push_unseen applications seen children stack))
      → In x children ⊎ In x (above g stack)
  unfolding above push_unseen member
  above-push_old g x seen [] stack s h = inr h
  above-push_old g x seen (c ∷ rest) stack s h =
      ground (arith, above-push_old g x seen rest stack s)

  above-push_keep :
      (g x : ApplicationId) (seen children stack : List ApplicationId)
      → In g seen
      → In x (above g stack)
      → In x (above g (push_unseen applications seen children stack))
  unfolding above push_unseen member
  above-push_keep g x seen [] stack s h = h
  above-push_keep g x seen (c ∷ rest) stack s h =
      ground (arith, above-push_keep g x seen rest stack s)

  above-push_child :
      (g x : ApplicationId) (seen children stack : List ApplicationId)
      → In g seen
      → member applications x seen ≡ false
      → In x children
      → In x (above g (push_unseen applications seen children stack))
  unfolding above push_unseen member
  above-push_child g x seen [] stack s n h = cc
  above-push_child g x seen (c ∷ rest) stack s n h =
      ground (arith, above-push_child g x seen rest stack s n)

  pub push_unseen-keeps :
      (x : ApplicationId) (seen children stack : List ApplicationId)
      → In x stack
      → In x (push_unseen applications seen children stack)
  unfolding push_unseen member
  push_unseen-keeps x seen [] stack h = h
  push_unseen-keeps x seen (c ∷ rest) stack h =
      ground (arith, push_unseen-keeps x seen rest stack h)

  pub push_unseen-origin :
      (x : ApplicationId) (seen children stack : List ApplicationId)
      → In x (push_unseen applications seen children stack)
      → In x children ⊎ In x stack
  unfolding push_unseen member
  push_unseen-origin x seen [] stack h = inr h
  push_unseen-origin x seen (c ∷ rest) stack h =
      ground (arith, push_unseen-origin x seen rest stack)

  pub In-cons : (x y : ApplicationId) (ys : List ApplicationId) → In x (y ∷ ys) → (y ≡ x) ⊎ In x ys
  unfolding member
  In-cons x y ys h = ground arith

  pub In-append_origin :
      (x : ApplicationId) (ids : List ApplicationId) (id : ApplicationId)
      → In x (ids ++ id ∷ [])
      → In x ids ⊎ (id ≡ x)
  unfolding member
  In-append_origin x [] id h = ground arith
  In-append_origin x (y ∷ ids) id h = ground (arith, In-append_origin x ids id)

  -- The requirements have no cycle: each application ranks above those that it requires.
  unfoldable pub IsRanked : Applications → ApplicationRegistry → (ApplicationId → ℕ) → Type 0
  IsRanked extra registry rank =
      (id child : ApplicationId) (app : UserApplicationDescription)
      → described applications extra registry id ≡ ok app
      → In child app.required_application_ids
      → rank child < rank id

  module _ (extra : Applications) (registry : ApplicationRegistry) (rank : ApplicationId → ℕ) where
    -- What holds of the sets and the stack in each round: an application that has been seen and is
    -- not sorted yet waits on the stack, below the ones it requires and above none of a higher rank.
    pub record Searching (stack sorted seen : List ApplicationId) : Type 0 where
      pub known : (x : ApplicationId) → In x sorted → In x seen
      pub waiting :
          (g : ApplicationId) → In g seen → member applications g sorted ≡ false → In g stack
      pub lower :
          (g x : ApplicationId)
          → In g seen
          → member applications g sorted ≡ false
          → In x (above g stack)
          → rank x < rank g
      pub required :
          (g c : ApplicationId) (app : UserApplicationDescription)
          → In g seen
          → member applications g sorted ≡ false
          → described applications extra registry g ≡ ok app
          → In c app.required_application_ids
          → In c sorted ⊎ In c (above g stack)

    pub skip-Searching :
        (id : ApplicationId) (stack sorted seen : List ApplicationId)
        → In id sorted
        → Searching (id ∷ stack) sorted seen
        → Searching stack sorted seen
    unfolding above member
    skip-Searching id stack sorted seen s inv = record {
      known = inv.known;
      waiting = λ g a b. ground (arith, inv.waiting g a b);
      lower = λ g x a b h. ground (arith, inv.lower g x a b);
      required = λ g c app a b d h. ground (arith, inv.required g c app a b d h);
    }

    -- What the top of the stack requires is sorted when it is taken for the second time.
    pub required-sorted :
        (id c : ApplicationId) (app : UserApplicationDescription)
        (stack sorted seen : List ApplicationId)
        → In id seen
        → member applications id sorted ≡ false
        → described applications extra registry id ≡ ok app
        → In c app.required_application_ids
        → Searching (id ∷ stack) sorted seen
        → In c sorted
    unfolding above member
    required-sorted id c app stack sorted seen a b d h inv =
        ground (arith, inv.required id c app a b d h)

    pub finish-Searching :
        (id : ApplicationId) (stack sorted seen : List ApplicationId)
        → In id seen
        → Searching (id ∷ stack) sorted seen
        → Searching stack (id ∷ sorted) seen
    unfolding above member
    finish-Searching id stack sorted seen s inv = record {
      known = λ x a. ground (arith, inv.known x);
      waiting = λ g a b. ground (arith, inv.waiting g a);
      lower = λ g x a b h. ground (arith, inv.lower g x a);
      required = λ g c app a b d h. ground (arith, inv.required g c app a);
    }

    -- An application that is required by one that is seen for the first time is sorted or not seen.
    required-first :
        IsRanked extra registry rank
        → (id c : ApplicationId) (app : UserApplicationDescription)
          (stack sorted seen : List ApplicationId)
        → member applications id seen ≡ false
        → described applications extra registry id ≡ ok app
        → In c app.required_application_ids
        → Searching (id ∷ stack) sorted seen
        → In c sorted ⊎ (member applications c (id ∷ seen) ≡ false)
    unfolding above member IsRanked
    required-first ranked id c app stack sorted seen n d h inv =
        ground (arith, ranked id c app d h, inv.lower c id)

    pub visit-Searching :
        IsRanked extra registry rank
        → (id : ApplicationId) (app : UserApplicationDescription)
          (stack sorted seen : List ApplicationId)
        → member applications id seen ≡ false
        → described applications extra registry id ≡ ok app
        → Searching (id ∷ stack) sorted seen
        → Searching
            (push_unseen applications (id ∷ seen) app.required_application_ids (id ∷ stack))
            sorted
            (id ∷ seen)
    unfolding above member IsRanked
    visit-Searching ranked id app stack sorted seen n d inv =
        let seen' = id ∷ seen in
        let req = app.required_application_ids in
        record {
          known = λ x a. ground (arith, inv.known x a);
          waiting =
              λ g a b. push_unseen-keeps g seen' req (id ∷ stack) (ground (arith, inv.waiting g));
          lower = λ g x a b h. ground (
            arith,
            above-push_old g x seen' req (id ∷ stack) a h,
            ranked id x app d,
            inv.lower g x,
            inv.lower g id,
          );
          required = λ g c app' a b d' h. elim (applications.same id g) [
            | yes p ↦
                let e : app ≡ app' =
                  ok_inj (sym d ∙ ap (described applications extra registry) p ∙ d') in
                let h' : In c req = subst (λ x. In c x.required_application_ids) (sym e) h in
                elim (required-first ranked id c app stack sorted seen n d h' inv) [
                  | inl s ↦ inl s
                  | inr u ↦ inr (
                      subst (λ x. In c (above x (push_unseen applications seen' req (id ∷ stack))))
                        p (above-push_child id c seen' req (id ∷ stack) (ground arith) u h'))
                ]
            | no f ↦ ground (
              arith,
              inv.required g c app' (ground arith) b d' h,
              above-push_keep g c seen' req (id ∷ stack) a,
            )
          ];
        }

    -- The search starts with nothing seen.
    pub new-Searching : (stack : List ApplicationId) → Searching stack [] []
    unfolding member
    new-Searching stack = record {
      known = λ x h. h;
      waiting = λ g h n. cc;
      lower = λ g x h n m. cc;
      required = λ g c app h n d m. cc;
    }
