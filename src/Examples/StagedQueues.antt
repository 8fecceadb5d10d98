-- ===== src/Examples/StagedQueues.antt =====
-- A queue view over a store, in a run that flushes, rolls back and loads again.
use linera_protocol.Prelude.{ℕ, ◌+◌, ◌*◌, ◌≡◌, refl, List, [], ◌∷◌, some, Result, ok, ◌>>=◌}
use linera_protocol.Views.Queue.{
  QueueView, Store, ViewError, push_back, load_all, back, count, front, hash_mut, load, read_front,
}
use linera_protocol.Views.Queue.Digests.{run-digest}
use linera_protocol.Views.Queue.Steps.{
  Call, changes, clears, deletes, flushes, hashes, pushes, reloads, rolls_back,
}
use linera_protocol.Views.Queue.Runs.{empty_store, run, run-reads}

abbrev digest_of : List ℕ → ℕ
digest_of [] = 1
digest_of (v ∷ l) = v + 10 * digest_of l

-- The queue is left with 5 and 6 stored, of which the first is deleted, and 7 staged.
abbrev kept_calls : List (Call ℕ)
kept_calls =
    pushes 4
    ∷ pushes 5
    ∷ flushes
    ∷ hashes
    ∷ pushes 6
    ∷ deletes
    ∷ flushes
    ∷ hashes
    ∷ clears
    ∷ rolls_back
    ∷ reloads
    ∷ deletes
    ∷ pushes 7
    ∷ []

abbrev changed_calls : List (Call ℕ)
changed_calls = pushes 4 ∷ pushes 5 ∷ flushes ∷ deletes ∷ changes (λ v. v + 1) ∷ pushes 9 ∷ []

run-reads_example :
    (s : Store ℕ) × (q : QueueView ℕ) × (run digest_of changed_calls (empty_store, load empty_store)
      ≡ ok (s, q))
    × ((count q ≡ 2)
        × (front s q ≡ some 6)
        × (back s q ≡ some 9)
        × (read_front s q 5 ≡ ok (6 ∷ 9 ∷ [])))
run-reads_example = run-reads digest_of changed_calls 5

run-digest_example :
    (s : Store ℕ) × (q : QueueView ℕ) × (q' : QueueView ℕ) × (run digest_of kept_calls
        (empty_store, load empty_store)
      ≡ ok (s, q))
    × (hash_mut digest_of s q ≡ ok (q', 176))
run-digest_example = run-digest digest_of kept_calls (
  refl,
  (
    refl,
    (refl, (refl, (refl, (refl, (refl, (refl, (refl, (refl, (refl, (refl, (refl, tt))))))))))),
  ),
)

abbrev digest_after : List (Call ℕ) → Result ViewError ℕ
unfolding hash_mut load
digest_after calls = run digest_of calls (empty_store, load empty_store) >>= λ state.
    hash_mut digest_of state.0 state.1 >>= λ r. ok r.1

-- A change through `iter_mut` leaves the digest that was kept, that of the value 4.
stale_digest :
    digest_after (pushes 4 ∷ hashes ∷ changes (λ v. v + 1) ∷ []) ≡ ok (digest_of (4 ∷ []))
unfolding digest_after push_back read_front load_all
stale_digest = refl
