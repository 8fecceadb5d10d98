-- ===== src/Views/Queue/Refinement.antt =====
-- A queue view stands for two lists: the values with the staged changes, and those that are stored.
use linera_protocol.Prelude.{
  ℕ, ◌+◌, ◌≤◌, ◌≡◌, ◌⊎◌, inl, inr, refl, sym, ap, subst, ◌∙◌, min, ◌||◌, not, List, [], ◌∷◌, ◌++◌,
  some, Bool, true, false, Bool-cases, arith, length, length-append, if◌then◌else◌,
}
use linera_protocol.Views.Queue.{
  QueueView, Range, Store, WriteOperation, range_len, range_or_default, no_range, stored_count,
  flush_front, flush, puts, saved, flush_digest, write_batch, has_none, deletions, delete_values,
}
use linera_protocol.Views.Queue.Batches.{
  Holds, Holds-append, Holds-drop, Holds-puts, drop, length-drop, deletions-indices, deletions-keep,
  puts-indices, puts-keep, saved-result, write_batch-append,
}
use mathlib.Core.List.{append-nil}

-- The values with the staged changes, and the stored values.
pub record Contents (T : Type 0) : Type 0 where
  pub current : List T
  pub stored : List T

plus_zero : (n : ℕ) → n ≡ n + 0
plus_zero n = omega arith

module _ {T : Type 0} where
  -- The stored values that are left, once the staged deletions are made.
  abbrev pub remainder : QueueView T → List T → List T
  remainder q stored = if q.was_cleared then [] else drop q.front_delete_count stored

  pub record Represents (s : Store T) (q : QueueView T) (c : Contents T) : Type 0 where
    pub indices : range_or_default s.indices ≡ q.stored_indices
    pub digest : s.digest ≡ q.stored_hash
    pub bounded : q.stored_indices.end ≡ q.stored_indices.start + length c.stored
    pub holds : Holds s.values q.stored_indices.start c.stored
    pub few : q.front_delete_count ≤ length c.stored
    pub staged : c.current ≡ remainder q c.stored ++ q.new_back_values

  pub stored_count-length :
      (s : Store T) (q : QueueView T) (c : Contents T)
      → Represents s q c
      → stored_count q ≡ length (remainder q c.stored)
  stored_count-length s q c p = elim (Bool-cases q.was_cleared) [
    | inl e ↦ rw e refl
    | inr e ↦ rw e (omega (arith, p.bounded, length-drop q.front_delete_count c.stored))
  ]

  pub length-zero : (l : List T) → length l ≡ 0 → l ≡ []
  length-zero [] h = refl
  length-zero (v ∷ l) h = ground arith

  flush_front-cases :
      (q : QueueView T)
      → ((stored_count q ≡ 0) × (flush_front q ≡ (no_range, delete_values ∷ [], true)))
        ⊎ ((q.was_cleared ≡ false)
            × (flush_front q ≡ (
              record q.stored_indices { start = q.stored_indices.start + q.front_delete_count },
              deletions q.stored_indices.start
                  (min q.front_delete_count (range_len q.stored_indices)),
              true,
            )))
        ⊎ ((q.was_cleared ≡ false)
            × (q.front_delete_count ≡ 0)
            × (flush_front q ≡ (q.stored_indices, [], false)))
  unfolding flush_front
  flush_front-cases q = ground arith

  -- The store after the deletions of a flush, with the range and the values that are left.
  record IsCut (s : Store T) (q : QueueView T) (r : Range) (deleted : List (WriteOperation T))
      (save : Bool) (left : List T) : Type 0 where
    kept : Holds (write_batch deleted s).values r.start left
    range : r.end ≡ r.start + length left
    unsaved : (save ≡ true) ⊎ (range_or_default (write_batch deleted s).indices ≡ r)
    digest : (write_batch deleted s).digest ≡ s.digest

  flush_front-IsCut :
      (s : Store T) (q : QueueView T) (c : Contents T)
      → Represents s q c
      → IsCut s q (flush_front q).0 (flush_front q).1 (flush_front q).2 (remainder q c.stored)
  flush_front-IsCut s q c p =
      let n = stored_count-length s q c p in
      elim (flush_front-cases q) [
        | inl (z, e) ↦
            rw (e, length-zero (remainder q c.stored) (omega arith))
              (record { kept = tt; range = refl; unsaved = inl refl; digest = refl })
        | inr (inl (w, e)) ↦
            let m = min q.front_delete_count (range_len q.stored_indices) in
            rw (e, w)
              (record {
                kept =
                    deletions-keep q.stored_indices.start m s
                      (q.stored_indices.start + q.front_delete_count)
                      (drop q.front_delete_count c.stored) (omega arith)
                      (Holds-drop q.front_delete_count s.values q.stored_indices.start c.stored
                        p.few p.holds);
                range = omega (arith, p.bounded, p.few, length-drop q.front_delete_count c.stored);
                unsaved = inl refl;
                digest = (deletions-indices q.stored_indices.start m s).1;
              })
        | inr (inr (w, f, e)) ↦
            rw (e, w, f)
              (record { kept = p.holds; range = p.bounded; unsaved = inr p.indices; digest = refl })
      ]

  abbrev flushed_range : Range → QueueView T → Range
  flushed_range r q = record r { end = r.end + length q.new_back_values }

  abbrev flush_batch :
      QueueView T → Range → List (WriteOperation T) → Bool → List (WriteOperation T)
  flush_batch q r deleted save =
      deleted
      ++ (puts r.end q.new_back_values
          ++ (saved (save || not (has_none q.new_back_values)) (flushed_range r q)
              ++ flush_digest q.stored_hash q.hash))

  flushed_store :
      (s : Store T) (q : QueueView T) (r : Range) (deleted : List (WriteOperation T)) (save : Bool)
      → (write_batch deleted s).digest ≡ q.stored_hash
      → let s2 = write_batch (puts r.end q.new_back_values) (write_batch deleted s) in
        write_batch (flush_batch q r deleted save) s ≡ record s2 {
          indices =
              if save || not (has_none q.new_back_values)
              then some (flushed_range r q)
              else s2.indices;
          digest = q.hash;
        }
  flushed_store s q r deleted save e =
      let s1 = write_batch deleted s in
      let d = (puts-indices r.end q.new_back_values s1).1 ∙ e in
      let end =
        saved (save || not (has_none q.new_back_values)) (flushed_range r q)
        ++ flush_digest q.stored_hash q.hash in
      write_batch-append deleted (puts r.end q.new_back_values ++ end) s
      ∙ write_batch-append (puts r.end q.new_back_values) end s1
      ∙ rw (sym d) (
          saved-result _ (flushed_range r q) q.hash (write_batch (puts r.end q.new_back_values) s1))

  flushed_indices :
      (s : Store T) (r : Range) (save : Bool) (vs : List T)
      → (save ≡ true) ⊎ (range_or_default s.indices ≡ r)
      → let kept = record r { end = r.end + length vs } in
        range_or_default
          (if save || not (has_none vs) then some kept else (write_batch (puts r.end vs) s).indices)
        ≡ kept
  flushed_indices s r true vs h = refl
  flushed_indices s r false (v ∷ vs) h = refl
  flushed_indices s r false [] (inl e) = cc
  flushed_indices s r false [] (inr e) = e ∙ ap (λ n. record r { end = n }) (plus_zero r.end)

  -- What is left and what is added are stored one after the other.
  flushed_values :
      (s : Store T) (q : QueueView T) (r : Range) (deleted : List (WriteOperation T)) (save : Bool)
      (left : List T)
      → IsCut s q r deleted save left
      → Holds
          (write_batch (puts r.end q.new_back_values) (write_batch deleted s)).values
          r.start
          (left ++ q.new_back_values)
  flushed_values s q r deleted save left cut =
      Holds-append _ r.start left q.new_back_values
        (puts-keep r.end q.new_back_values _ r.start left (omega (arith, cut.range)) cut.kept)
        (subst
          (λ i.
            Holds (write_batch (puts r.end q.new_back_values) (write_batch deleted s)).values i
              q.new_back_values)
          cut.range (Holds-puts r.end q.new_back_values _))

  -- A flush stores the values with their staged changes.
  pub flush-Represents :
      (s : Store T) (q : QueueView T) (c : Contents T)
      → Represents s q c
      → Represents
          (write_batch (flush q).1 s)
          (flush q).0
          (record { current = c.current; stored = c.current })
  unfolding flush
  flush-Represents s q c p =
      let cut = flush_front-IsCut s q c p in
      let r = (flush_front q).0 in
      let deleted = (flush_front q).1 in
      let save = (flush_front q).2 in
      rw (flushed_store s q r deleted save (cut.digest ∙ p.digest), p.staged)
        (record {
          indices = flushed_indices (write_batch deleted s) r save q.new_back_values cut.unsaved;
          digest = refl;
          bounded =
              omega (arith, cut.range, length-append (remainder q c.stored) q.new_back_values);
          holds = flushed_values s q r deleted save (remainder q c.stored) cut;
          few = omega arith;
          staged = sym (append-nil _);
        })
