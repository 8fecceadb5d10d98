-- ===== src/Views/Queue/Batches.antt =====
-- What the store of a queue holds after the batch of a flush is written.
use linera_protocol.Prelude.{
  ℕ, ◌+◌, ◌-◌, ◌≤◌, ◌<◌, ◌≡◌, ◌⊎◌, inl, inr, refl, subst, suc, zero, List, [], ◌∷◌, ◌++◌, Option,
  some, Bool, true, false, arith, length, if◌then◌else◌,
}
use linera_protocol.Base.Identifiers.{CryptoHash}
use linera_protocol.Views.Queue.{
  Range, Store, WriteOperation, set_value, deletions, digest_change, flush_digest, puts, saved,
  write_batch,
}

module _ {T : Type 0} where
  abbrev pub drop : ℕ → List T → List T
  drop zero l = l
  drop (suc n) [] = []
  drop (suc n) (v ∷ l) = drop n l

  -- The values from an index on.
  abbrev pub Holds : (ℕ → Option T) → ℕ → List T → Type 0
  Holds values i [] = Unit
  Holds values i (v ∷ l) = (values i ≡ some v) × Holds values (suc i) l

  pub Holds-drop :
      (n : ℕ) (values : ℕ → Option T) (i : ℕ) (l : List T)
      → n ≤ length l
      → Holds values i l
      → Holds values (i + n) (drop n l)
  Holds-drop zero values i l h k = subst (λ j. Holds values j l) (omega arith) k
  Holds-drop (suc n) values i [] h k = tt
  Holds-drop (suc n) values i (v ∷ l) h (e, k) =
      subst (λ j. Holds values j (drop n l)) (omega arith)
        (Holds-drop n values (suc i) l (omega arith) k)

  pub length-drop : (n : ℕ) (l : List T) → length (drop n l) ≡ length l - n
  length-drop zero l = omega arith
  length-drop (suc n) [] = omega arith
  length-drop (suc n) (v ∷ l) = omega (arith, length-drop n l)

  pub Holds-append :
      (values : ℕ → Option T) (i : ℕ) (a b : List T)
      → Holds values i a
      → Holds values (i + length a) b
      → Holds values i (a ++ b)
  Holds-append values i [] b h k = subst (λ j. Holds values j b) (omega arith) k
  Holds-append values i (v ∷ a) b (e, h) k =
      (e, Holds-append values (suc i) a b h (subst (λ j. Holds values j b) (omega arith) k))

  Holds-assign_below :
      (j : ℕ) (o : Option T) (values : ℕ → Option T) (i : ℕ) (l : List T)
      → j < i
      → Holds values i l
      → Holds (set_value j o values) i l
  Holds-assign_below j o values i [] h k = tt
  Holds-assign_below j o values i (v ∷ l) h (e, k) =
      (ground arith, Holds-assign_below j o values (suc i) l (omega arith) k)

  Holds-assign_above :
      (j : ℕ) (o : Option T) (values : ℕ → Option T) (i : ℕ) (l : List T)
      → i + length l ≤ j
      → Holds values i l
      → Holds (set_value j o values) i l
  Holds-assign_above j o values i [] h k = tt
  Holds-assign_above j o values i (v ∷ l) h (e, k) =
      (ground arith, Holds-assign_above j o values (suc i) l (omega arith) k)

  pub write_batch-append :
      (a b : List (WriteOperation T)) (s : Store T)
      → write_batch (a ++ b) s ≡ write_batch b (write_batch a s)
  write_batch-append [] b s = refl
  write_batch-append (o ∷ a) b s = write_batch-append a b _

  pub deletions-keep :
      (i n : ℕ) (s : Store T) (j : ℕ) (l : List T)
      → i + n ≤ j
      → Holds s.values j l
      → Holds (write_batch (deletions i n) s).values j l
  deletions-keep i zero s j l h k = k
  deletions-keep i (suc n) s j l h k =
      deletions-keep (suc i) n _ j l (omega arith)
        (Holds-assign_below i Option.none s.values j l (omega arith) k)

  pub puts-keep :
      (i : ℕ) (vs : List T) (s : Store T) (j : ℕ) (l : List T)
      → j + length l ≤ i
      → Holds s.values j l
      → Holds (write_batch (puts i vs) s).values j l
  puts-keep i [] s j l h k = k
  puts-keep i (v ∷ vs) s j l h k =
      puts-keep (suc i) vs _ j l (omega arith) (Holds-assign_above i (some v) s.values j l h k)

  pub Holds-puts :
      (i : ℕ) (vs : List T) (s : Store T) → Holds (write_batch (puts i vs) s).values i vs
  Holds-puts i [] s = tt
  Holds-puts i (v ∷ vs) s = (
    (puts-keep (suc i) vs _ i (v ∷ []) (omega arith) (ground arith, tt)).0,
    Holds-puts (suc i) vs _,
  )

  pub deletions-indices :
      (i n : ℕ) (s : Store T)
      → ((write_batch (deletions i n) s).indices ≡ s.indices)
        × ((write_batch (deletions i n) s).digest ≡ s.digest)
  deletions-indices i zero s = (refl, refl)
  deletions-indices i (suc n) s = deletions-indices (suc i) n _

  pub puts-indices :
      (i : ℕ) (vs : List T) (s : Store T)
      → ((write_batch (puts i vs) s).indices ≡ s.indices)
        × ((write_batch (puts i vs) s).digest ≡ s.digest)
  puts-indices i [] s = (refl, refl)
  puts-indices i (v ∷ vs) s = puts-indices (suc i) vs _

  -- The end of the batch: the indices, if they are saved, and the digest.
  digest_change-result :
      (o : Option CryptoHash) (s : Store T)
      → write_batch (digest_change o) s ≡ record s { digest = o }
  digest_change-result Option.none s = refl
  digest_change-result (some h) s = refl

  flush_digest-cases :
      (a h : Option CryptoHash)
      → ((flush_digest {T = T} a h ≡ []) × (a ≡ h)) ⊎ (flush_digest {T = T} a h ≡ digest_change h)
  flush_digest-cases a h = ground arith

  flush_digest-result :
      (h : Option CryptoHash) (s : Store T)
      → write_batch (flush_digest s.digest h) s ≡ record s { digest = h }
  flush_digest-result h s = elim (flush_digest-cases s.digest h) [
    | inl (e, p) ↦ rw (e, p) refl
    | inr e ↦ rw e (digest_change-result h s)
  ]

  pub saved-result :
      (save : Bool) (r : Range) (h : Option CryptoHash) (s : Store T)
      → write_batch (saved save r ++ flush_digest s.digest h) s
        ≡ record s { indices = if save then some r else s.indices; digest = h }
  saved-result true r h s = flush_digest-result h (record s { indices = some r })
  saved-result false r h s = flush_digest-result h s
