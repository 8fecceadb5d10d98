-- ===== src/Views/Queue/Runs.antt =====
-- Runs of a queue view over a store: what the calls do to the two lists that it stands for.
use linera_protocol.Prelude.{ℕ, none, ◌≡◌, refl, List, [], ◌∷◌, arith, length, Result, ok, ◌>>=◌}
use linera_protocol.Base.Identifiers.{CryptoHash}
use linera_protocol.Views.Queue.{
  QueueView, Store, count, hash_mut, front, first_of, back, last_of, read_front, take_first,
  ViewError, clear, delete_front, flush, load, load_all, push_back, rollback, write_batch,
}
use linera_protocol.Views.Queue.Refinement.{Contents, Represents, flush-Represents}
use linera_protocol.Views.Queue.Reads.{
  back-last_of, count-length, front-first_of, read_front-take_first,
}
use linera_protocol.Views.Queue.Steps.{
  Call, Gives, pushes, deletes, clears, rolls_back, flushes, reloads, changes, hashes, change,
  expect, expect_all, push_back-Represents, delete_front-Represents, clear-Represents,
  rollback-Represents, load-Represents, changes-Represents, hashes-Represents,
}

module _ {T : Type 0} where
  abbrev pub empty_store : Store T
  empty_store = record { indices = none; values = λ i. none; digest = none }

  abbrev pub empty_contents : Contents T
  empty_contents = record { current = []; stored = [] }

  pub loaded_empty : Represents empty_store (load empty_store) empty_contents
  unfolding load
  loaded_empty = record {
    indices = refl;
    digest = refl;
    bounded = refl;
    holds = tt;
    few = omega arith;
    staged = refl;
  }

module _ {T : Type 0} (compute_hash : List T → CryptoHash) where
  abbrev pub step : Call T → Store T × QueueView T → Result ViewError (Store T × QueueView T)
  step (pushes v) (s, q) = ok (s, push_back v q)
  step deletes (s, q) = ok (s, delete_front q)
  step clears (s, q) = ok (s, clear q)
  step rolls_back (s, q) = ok (s, rollback q)
  step flushes (s, q) = ok (write_batch (flush q).1 s, (flush q).0)
  step reloads (s, q) = ok (s, load s)
  step hashes (s, q) = hash_mut compute_hash s q >>= λ r. ok (s, r.0)
  step (changes f) (s, q) = load_all s q >>= λ q'. ok (s, change f q')

  abbrev pub run : List (Call T) → Store T × QueueView T → Result ViewError (Store T × QueueView T)
  run [] state = ok state
  run (call ∷ rest) state = step call state >>= run rest

  pub step-Represents :
      (call : Call T) (s : Store T) (q : QueueView T) (c : Contents T)
      → Represents s q c
      → Gives (step call (s, q)) (expect call c)
  step-Represents (pushes v) s q c p = (s, push_back v q, refl, push_back-Represents v s q c p)
  step-Represents deletes s q c p = (s, delete_front q, refl, delete_front-Represents s q c p)
  step-Represents clears s q c p = (s, clear q, refl, clear-Represents s q c p)
  step-Represents rolls_back s q c p = (s, rollback q, refl, rollback-Represents s q c p)
  step-Represents flushes s q c p = (_, _, refl, flush-Represents s q c p)
  step-Represents reloads s q c p = (s, load s, refl, load-Represents s q c p)
  step-Represents hashes s q c p = hashes-Represents compute_hash s q c p
  step-Represents (changes f) s q c p = changes-Represents f s q c p

  pub run-Represents :
      (calls : List (Call T)) (s : Store T) (q : QueueView T) (c : Contents T)
      → Represents s q c
      → Gives (run calls (s, q)) (expect_all calls c)
  run-Represents [] s q c p = (s, q, refl, p)
  run-Represents (call ∷ rest) s q c p =
      let (s1, q1, e, p1) = step-Represents call s q c p in
      let (s2, q2, d, p2) = run-Represents rest s1 q1 (expect call c) p1 in (s2, q2, rw e d, p2)

  -- After any calls on a queue that is loaded from an empty store, which push, delete, clear, change,
  -- hash, flush, roll back and load again in any order, the calls have succeeded and the queue reads as the
  -- list on which the same calls are made: its length, its front, its back, and as many values from
  -- the front as are wanted.
  pub run-reads :
      (calls : List (Call T)) (n : ℕ)
      → (s : Store T) × (q : QueueView T) × (run calls (empty_store, load empty_store) ≡ ok (s, q))
        × (let l = (expect_all calls empty_contents).current in
            (count q ≡ length l)
            × (front s q ≡ first_of l)
            × (back s q ≡ last_of l)
            × (read_front s q n ≡ ok (take_first n l)))
  run-reads calls n =
      let (s, q, e, p) =
        run-Represents calls empty_store (load empty_store) empty_contents loaded_empty in
      let c = expect_all calls empty_contents in
      (
        s,
        q,
        e,
        (
          count-length s q c p,
          front-first_of s q c p,
          back-last_of s q c p,
          read_front-take_first s q c n p,
        ),
      )
