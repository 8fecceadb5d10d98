-- ===== src/Base/Maps/Ascending.antt =====
-- Maps with numbers as keys: their entries stand by increasing key.
use linera_protocol.Prelude.{
  ℕ, ◌+◌, ◌<◌, ◌≤◌, ◌≡◌, refl, [], ◌∷◌, none, arith, inl, inr, Option-cases,
}
use linera_protocol.Base.Maps.{Entries, delete, find, nat_key, place, put, replace}

-- The keys increase, from `lo` on.
unfoldable pub Ascending : {V : Type 0} → ℕ → Entries ℕ V → Type 0
Ascending lo [] = Unit
Ascending lo ((k, _) ∷ m) = (lo ≤ k) × Ascending (k + 1) m

module _ {V : Type 0} where
  Ascending-weaken : (lo hi : ℕ) (m : Entries ℕ V) → lo ≤ hi → Ascending hi m → Ascending lo m
  unfolding Ascending
  Ascending-weaken lo hi [] le a = tt
  Ascending-weaken lo hi ((k, v) ∷ m) le (b, a) = (omega arith, a)

  pub find_below : (lo h : ℕ) (m : Entries ℕ V) → h < lo → Ascending lo m → find nat_key h m ≡ none
  unfolding Ascending find
  find_below lo h [] lt a = refl
  find_below lo h ((k, v) ∷ m) lt (b, a) = ground (arith, find_below (k + 1) h m (omega arith) a)

  place-Ascending :
      (lo k : ℕ) (v : V) (m : Entries ℕ V)
      → lo ≤ k
      → find nat_key k m ≡ none
      → Ascending lo m
      → Ascending lo (place nat_key k v m)
  unfolding Ascending find
  place-Ascending lo k v [] le n a = (le, tt)
  place-Ascending lo k v ((k', v') ∷ m) le n (b, a) = ground (arith, place-Ascending (k' + 1) k v m)

  replace-Ascending :
      (lo k : ℕ) (v : V) (m : Entries ℕ V) → Ascending lo m → Ascending lo (replace nat_key k v m)
  unfolding Ascending
  replace-Ascending lo k v [] a = tt
  replace-Ascending lo k v ((k', v') ∷ m) (b, a) =
      ground (arith, replace-Ascending (k' + 1) k v m a)

  pub put-Ascending :
      (k : ℕ) (v : V) (m : Entries ℕ V) → Ascending 0 m → Ascending 0 (put nat_key k v m)
  unfolding put
  put-Ascending k v m a = elim (Option-cases (find nat_key k m)) [
    | inl e ↦ rw e (place-Ascending 0 k v m (omega arith) e a)
    | inr (w, e) ↦ rw e (replace-Ascending 0 k v m a)
  ]

  pub delete-Ascending :
      (lo k : ℕ) (m : Entries ℕ V) → Ascending lo m → Ascending lo (delete nat_key k m)
  unfolding Ascending delete
  delete-Ascending lo k [] a = tt
  delete-Ascending lo k ((k', v) ∷ m) (b, a) =
      ground
        (arith, delete-Ascending (k' + 1) k m a, Ascending-weaken lo (k' + 1) (delete nat_key k m))
