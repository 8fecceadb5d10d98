-- ===== src/Base/Maps/Laws.antt =====
-- What a key reads after each operation of a map, and the sum of the values of a map of numbers.
use linera_protocol.Prelude.{
  ℕ, ◌+◌, ◌≡◌, ◌≢◌, refl, [], ◌∷◌, none, some, arith, inl, inr, Option-cases,
}
use linera_protocol.Base.Maps.{Key, Entries, default, find, put, place, replace, delete}

module _ {K V : Type 0} (key : Key K) where
  pub find-replace_self :
      (k : K) (v w : V) (m : Entries K V)
      → find key k m ≡ some w
      → find key k (replace key k v m) ≡ some v
  unfolding find
  find-replace_self k v w [] h = cc
  find-replace_self k v w ((k', v') ∷ m) h = ground (arith, find-replace_self k v w m)

  pub find-place_self :
      (k : K) (v : V) (m : Entries K V)
      → find key k m ≡ none
      → find key k (place key k v m) ≡ some v
  unfolding find
  find-place_self k v [] h = ground arith
  find-place_self k v ((k', v') ∷ m) h = ground (arith, find-place_self k v m)

  pub find-put_self : (k : K) (v : V) (m : Entries K V) → find key k (put key k v m) ≡ some v
  unfolding put
  find-put_self k v m = elim (Option-cases (find key k m)) [
    | inl e ↦ rw e (find-place_self k v m e)
    | inr (w, e) ↦ rw e (find-replace_self k v w m e)
  ]

  pub find-replace_ne :
      (k k' : K) (v : V) (m : Entries K V)
      → k ≢ k'
      → find key k' (replace key k v m) ≡ find key k' m
  unfolding find
  find-replace_ne k k' v [] n = refl
  find-replace_ne k k' v ((k'', v') ∷ m) n = ground (arith, find-replace_ne k k' v m n)

  pub find-place_ne :
      (k k' : K) (v : V) (m : Entries K V) → k ≢ k' → find key k' (place key k v m) ≡ find key k' m
  unfolding find
  find-place_ne k k' v [] n = ground arith
  find-place_ne k k' v ((k'', v') ∷ m) n = ground (arith, find-place_ne k k' v m n)

  pub find-put_ne :
      (k k' : K) (v : V) (m : Entries K V) → k ≢ k' → find key k' (put key k v m) ≡ find key k' m
  unfolding put
  find-put_ne k k' v m n = ground (arith, find-replace_ne k k' v m n, find-place_ne k k' v m n)

  pub find-delete_self : (k : K) (m : Entries K V) → find key k (delete key k m) ≡ none
  unfolding find delete
  find-delete_self k [] = refl
  find-delete_self k ((k', v) ∷ m) = ground (arith, find-delete_self k m)

  pub find-delete_ne :
      (k k' : K) (m : Entries K V) → k ≢ k' → find key k' (delete key k m) ≡ find key k' m
  unfolding find delete
  find-delete_ne k k' [] n = refl
  find-delete_ne k k' ((k'', v) ∷ m) n = ground (arith, find-delete_ne k k' m n)

-- The sum of the values.
pub total : {K : Type 0} → Entries K ℕ → ℕ
total [] = 0
total ((_, n) ∷ rest) = n + total rest

module _ {K : Type 0} (key : Key K) where
  total-replace :
      (k : K) (v w : ℕ) (m : Entries K ℕ)
      → find key k m ≡ some w
      → total (replace key k v m) + w ≡ total m + v
  unfolding find total
  total-replace k v w [] h = cc
  total-replace k v w ((k', v') ∷ m) h = ground (arith, total-replace k v w m)

  total-place : (k : K) (v : ℕ) (m : Entries K ℕ) → total (place key k v m) ≡ total m + v
  unfolding total
  total-place k v [] = omega arith
  total-place k v ((k', v') ∷ m) = ground (arith, total-place k v m)

  pub total-put :
      (k : K) (v : ℕ) (m : Entries K ℕ)
      → total (put key k v m) + default 0 (find key k m) ≡ total m + v
  unfolding put
  total-put k v m = elim (Option-cases (find key k m)) [
    | inl e ↦ rw e (ground (arith, total-place k v m))
    | inr (w, e) ↦ rw e (total-replace k v w m e)
  ]
