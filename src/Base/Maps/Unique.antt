-- ===== src/Base/Maps/Unique.antt =====
-- Maps whose keys are unique, and the sum of a weight over the values of a map.
use linera_protocol.Prelude.{
  ℕ, ◌+◌, ◌≡◌, ◌≢◌, refl, sym, subst, ◌∙◌, true, false, [], ◌∷◌, Option, none, some, arith, inl,
  inr, Option-cases,
}
use linera_protocol.Base.Maps.{Key, Entries, delete, find, place, put, replace}
use linera_protocol.Base.Maps.Laws.{find-delete_ne, find-place_ne, find-replace_ne}

-- Each key has one entry.
unfoldable pub Unique : {K V : Type 0} → Key K → Entries K V → Type 0
Unique key [] = Unit
Unique key ((k, v) ∷ m) = (find key k m ≡ none) × Unique key m

-- The sum of a weight over the values.
unfoldable pub weigh : {K V : Type 0} → (V → ℕ) → Entries K V → ℕ
weigh f [] = 0
weigh f ((_, v) ∷ m) = f v + weigh f m

abbrev pub weight_at : {V : Type 0} → (V → ℕ) → Option V → ℕ
weight_at f none = 0
weight_at f (some v) = f v

module _ {K V : Type 0} (key : Key K) where
  find-cons_ne :
      (k k' : K) (v : V) (m : Entries K V) → k' ≢ k → find key k ((k', v) ∷ m) ≡ find key k m
  unfolding find
  find-cons_ne k k' v m n = ground arith

  not-first : (k k' : K) (v : V) (m : Entries K V) → find key k ((k', v) ∷ m) ≡ none → k' ≢ k
  unfolding find
  not-first k k' v m h = ground arith

  place-Unique :
      (k : K) (v : V) (m : Entries K V)
      → find key k m ≡ none
      → Unique key m
      → Unique key (place key k v m)
  unfolding Unique find
  place-Unique k v [] h u = (refl, tt)
  place-Unique k v ((k', v') ∷ m) h (n, u) =
      let ne : k' ≢ k = not-first k k' v' m h in
      elim (key.before k k')
        as (λ b.
          Unique key
            (elim b [ true ↦ (k, v) ∷ (k', v') ∷ m | false ↦ (k', v') ∷ place key k v m ])) [
              | true ↦ (h, (n, u))
              | false ↦ (
                find-place_ne key k k' v m (λ p. ne (sym p)) ∙ n,
                place-Unique k v m (sym (find-cons_ne k k' v' m ne) ∙ h) u,
              )
            ]

  replace-Unique : (k : K) (v : V) (m : Entries K V) → Unique key m → Unique key (replace key k v m)
  unfolding Unique
  replace-Unique k v [] u = tt
  replace-Unique k v ((k', v') ∷ m) (n, u) =
      elim (key.same k' k)
        as (λ d. Unique key (elim d [ yes _ ↦ (k, v) ∷ m | no _ ↦ (k', v') ∷ replace key k v m ])) [
          | yes p ↦ (subst (λ x. find key x m ≡ none) p n, u)
          | no ne ↦ (find-replace_ne key k k' v m (λ p. ne (sym p)) ∙ n, replace-Unique k v m u)
        ]

  pub put-Unique : (k : K) (v : V) (m : Entries K V) → Unique key m → Unique key (put key k v m)
  unfolding put
  put-Unique k v m u = elim (Option-cases (find key k m)) [
    | inl e ↦ rw e (place-Unique k v m e u)
    | inr (w, e) ↦ rw e (replace-Unique k v m u)
  ]

  pub delete-Unique : (k : K) (m : Entries K V) → Unique key m → Unique key (delete key k m)
  unfolding Unique delete
  delete-Unique k [] u = tt
  delete-Unique k ((k', v) ∷ m) (n, u) =
      elim (key.same k' k)
        as (λ d. Unique key (elim d [ yes _ ↦ delete key k m | no _ ↦ (k', v) ∷ delete key k m ])) [
          | yes p ↦ delete-Unique k m u
          | no ne ↦ (find-delete_ne key k k' m (λ p. ne (sym p)) ∙ n, delete-Unique k m u)
        ]

  weigh-replace :
      (f : V → ℕ) (k : K) (v w : V) (m : Entries K V)
      → find key k m ≡ some w
      → weigh f (replace key k v m) + f w ≡ weigh f m + f v
  unfolding weigh find
  weigh-replace f k v w [] h = cc
  weigh-replace f k v w ((k', v') ∷ m) h = ground (arith, weigh-replace f k v w m)

  weigh-place :
      (f : V → ℕ) (k : K) (v : V) (m : Entries K V) → weigh f (place key k v m) ≡ weigh f m + f v
  unfolding weigh
  weigh-place f k v [] = omega arith
  weigh-place f k v ((k', v') ∷ m) = ground (arith, weigh-place f k v m)

  pub weigh-put :
      (f : V → ℕ) (k : K) (v : V) (m : Entries K V)
      → weigh f (put key k v m) + weight_at f (find key k m) ≡ weigh f m + f v
  unfolding put
  weigh-put f k v m = elim (Option-cases (find key k m)) [
    | inl e ↦ rw e (ground (arith, weigh-place f k v m))
    | inr (w, e) ↦ rw e (weigh-replace f k v w m e)
  ]

  delete_absent : (k : K) (m : Entries K V) → find key k m ≡ none → delete key k m ≡ m
  unfolding find delete
  delete_absent k [] h = refl
  delete_absent k ((k', v) ∷ m) h = ground (arith, delete_absent k m)

  moved : (k k' : K) (m : Entries K V) → find key k' m ≡ none → k' ≡ k → find key k m ≡ none
  moved k k' m n p = subst (λ x. find key x m ≡ none) p n

  pub weigh-delete :
      (f : V → ℕ) (k : K) (m : Entries K V)
      → Unique key m
      → weigh f (delete key k m) + weight_at f (find key k m) ≡ weigh f m
  unfolding Unique weigh find delete
  weigh-delete f k [] u = omega arith
  weigh-delete f k ((k', v) ∷ m) (n, u) =
      ground (arith, delete_absent k m, weigh-delete f k m u, moved k k' m n)
