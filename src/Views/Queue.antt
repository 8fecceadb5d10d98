-- ===== src/Views/Queue.antt =====
-- linera-views/src/queue_view.rs: a FIFO queue that stages its changes over a key-value store, the
-- batch that a flush fills, and what a store holds under the keys of the view once a batch is written.
pub mod Batches
pub mod Refinement
pub mod Reads
pub mod Steps
pub mod Runs
pub mod Digests
use linera_protocol.Prelude.{
  ℕ, ◌+◌, ◌-◌, suc, zero, min, ltb, leb, ◌==◌, ◌||◌, not, is_eq, if◌then◌else◌, Bool, true, false,
  List, [], ◌∷◌, ◌++◌, Option, none, some, Result, ok, err, ◌>>=◌, length, ℕ_discrete,
}
use linera_protocol.Base.Identifiers.{CryptoHash}

-- `Range<usize>`.
pub record Range : Type 0 where
  pub start : ℕ
  pub end : ℕ

abbrev pub no_range : Range
no_range = record { start = 0; end = 0 }

abbrev pub range_len : Range → ℕ
range_len r = r.end - r.start

abbrev pub range_or_default : Option Range → Range
range_or_default none = no_range
range_or_default (some r) = r

pub data ViewError : Type 0 where
  missing_entries : ViewError

pub Hash-discrete : Discrete (Option CryptoHash)
Hash-discrete = hlevel ℕ_discrete

-- What the store holds under the keys of the view: under `KeyTag::Store`, under `KeyTag::Index`
-- with an index, and under `KeyTag::Hash`.
pub record Store (T : Type 0) : Type 0 where
  pub indices : Option Range
  pub values : ℕ → Option T
  pub digest : Option CryptoHash

-- The operations of a batch, on these keys.
pub data WriteOperation (T : Type 0) : Type 0 where
  put_indices : Range → WriteOperation T
  put_value : ℕ → T → WriteOperation T
  delete_value : ℕ → WriteOperation T
  delete_values : WriteOperation T
  put_digest : CryptoHash → WriteOperation T
  delete_digest : WriteOperation T

pub record QueueView (T : Type 0) : Type 0 where
  pub stored_indices : Range
  pub front_delete_count : ℕ
  pub was_cleared : Bool
  pub new_back_values : List T
  pub stored_hash : Option CryptoHash
  pub hash : Option CryptoHash

module _ {T : Type 0} where
  abbrev pub set_value : ℕ → Option T → (ℕ → Option T) → ℕ → Option T
  set_value i v values j = if j == i then v else values j

  abbrev pub write : WriteOperation T → Store T → Store T
  write (put_indices r) s = record s { indices = some r }
  write (put_value i v) s = record s { values = set_value i (some v) s.values }
  write (delete_value i) s = record s { values = set_value i none s.values }
  write delete_values s = record s { values = λ i. none }
  write (put_digest h) s = record s { digest = some h }
  write delete_digest s = record s { digest = none }

  abbrev pub write_batch : List (WriteOperation T) → Store T → Store T
  write_batch [] s = s
  write_batch (o ∷ rest) s = write_batch rest (write o s)

  unfoldable pub load : Store T → QueueView T
  load s = record {
    stored_indices = range_or_default s.indices;
    front_delete_count = 0;
    was_cleared = false;
    new_back_values = [];
    stored_hash = s.digest;
    hash = s.digest;
  }

  unfoldable pub rollback : QueueView T → QueueView T
  rollback q = record q {
    was_cleared = false;
    front_delete_count = 0;
    new_back_values = [];
    hash = q.stored_hash;
  }

  unfoldable pub clear : QueueView T → QueueView T
  clear q = record q { was_cleared = true; new_back_values = []; hash = none }

  abbrev pub stored_count : QueueView T → ℕ
  stored_count q = if q.was_cleared then 0 else range_len q.stored_indices - q.front_delete_count

  -- The loop over `deletion_range`, of `n` indices from `i` on.
  abbrev pub deletions : ℕ → ℕ → List (WriteOperation T)
  deletions i zero = []
  deletions i (suc n) = delete_value i ∷ deletions (suc i) n

  -- The loop over `new_back_values`, from the end of the stored indices on.
  abbrev pub puts : ℕ → List T → List (WriteOperation T)
  puts i [] = []
  puts i (v ∷ rest) = put_value i v ∷ puts (suc i) rest

  -- The deletions of a flush: the indices left, what is put in the batch, and `save_stored_indices`.
  unfoldable pub flush_front : QueueView T → Range × List (WriteOperation T) × Bool
  flush_front q =
      let r = q.stored_indices in
      if stored_count q == 0
      then (no_range, delete_values ∷ [], true)
      else if ltb 0 q.front_delete_count
      then (
        record r { start = r.start + q.front_delete_count },
        deletions r.start (min q.front_delete_count (range_len r)),
        true,
      )
      else (r, [], false)

  abbrev pub has_none : List T → Bool
  has_none [] = true
  has_none (v ∷ rest) = false

  abbrev pub saved : Bool → Range → List (WriteOperation T)
  saved save r = if save then put_indices r ∷ [] else []

  abbrev pub digest_change : Option CryptoHash → List (WriteOperation T)
  digest_change none = delete_digest ∷ []
  digest_change (some h) = put_digest h ∷ []

  abbrev pub flush_digest : Option CryptoHash → Option CryptoHash → List (WriteOperation T)
  flush_digest stored_hash hash =
      if is_eq Hash-discrete stored_hash hash then [] else digest_change hash

  unfoldable pub flush : QueueView T → QueueView T × List (WriteOperation T)
  unfolding flush_front
  flush q =
      let (r, deleted, save) = flush_front q in
      let added = puts r.end q.new_back_values in
      let kept = record r { end = r.end + length q.new_back_values } in
      (
        record {
          stored_indices = kept;
          front_delete_count = 0;
          was_cleared = false;
          new_back_values = [];
          stored_hash = q.hash;
          hash = q.hash;
        },
        deleted
            ++ (added
                ++ (saved (save || not (has_none q.new_back_values)) kept
                    ++ flush_digest q.stored_hash q.hash)),
      )

  abbrev pub first_of : List T → Option T
  first_of [] = none
  first_of (v ∷ rest) = some v

  abbrev pub rest_of : List T → List T
  rest_of [] = []
  rest_of (v ∷ rest) = rest

  abbrev pub last_of : List T → Option T
  last_of [] = none
  last_of (v ∷ []) = some v
  last_of (v ∷ w ∷ rest) = last_of (w ∷ rest)

  unfoldable pub front : Store T → QueueView T → Option T
  front s q =
      if ltb 0 (stored_count q)
      then s.values (q.stored_indices.end - stored_count q)
      else first_of q.new_back_values

  -- Of `back`, the case without staged values.
  abbrev pub stored_back : Store T → QueueView T → Option T
  stored_back s q = if ltb 0 (stored_count q) then s.values (q.stored_indices.end - 1) else none

  abbrev pub or_else : Option T → Option T → Option T
  or_else none o = o
  or_else (some v) o = some v

  unfoldable pub back : Store T → QueueView T → Option T
  back s q = or_else (last_of q.new_back_values) (stored_back s q)

  unfoldable pub delete_front : QueueView T → QueueView T
  delete_front q =
      if ltb 0 (stored_count q)
      then record q { front_delete_count = q.front_delete_count + 1; hash = none }
      else record q { new_back_values = rest_of q.new_back_values; hash = none }

  unfoldable pub push_back : T → QueueView T → QueueView T
  push_back v q = record q { new_back_values = q.new_back_values ++ v ∷ []; hash = none }

  unfoldable pub count : QueueView T → ℕ
  count q = stored_count q + length q.new_back_values

  abbrev pub cons_found : Option T → Result ViewError (List T) → Result ViewError (List T)
  cons_found none rest = err missing_entries
  cons_found (some v) rest = rest >>= λ vs. ok (v ∷ vs)

  -- The `n` values from index `i` on.
  abbrev pub read_context : Store T → ℕ → ℕ → Result ViewError (List T)
  read_context s i zero = ok []
  read_context s i (suc n) = cons_found (s.values i) (read_context s (suc i) n)

  -- `range(0..n)` of the staged values.
  abbrev pub take_first : ℕ → List T → List T
  take_first zero vs = []
  take_first (suc n) [] = []
  take_first (suc n) (v ∷ vs) = v ∷ take_first n vs

  -- `read_front` once the count is bounded; `stored` values are stored, from `start` on.
  abbrev pub read_bounded : Store T → QueueView T → ℕ → ℕ → ℕ → Result ViewError (List T)
  read_bounded s q start stored n =
      if n == 0
      then ok []
      else if q.was_cleared
      then ok (take_first n q.new_back_values)
      else if leb n stored
      then read_context s start n
      else read_context s start stored >>= λ vs.
          ok (vs ++ take_first (n - stored) q.new_back_values)

  unfoldable pub read_front : Store T → QueueView T → ℕ → Result ViewError (List T)
  unfolding count
  read_front s q wanted =
      read_bounded s q (q.stored_indices.end - stored_count q) (stored_count q)
        (if ltb (count q) wanted then count q else wanted)

  unfoldable pub elements : Store T → QueueView T → Result ViewError (List T)
  unfolding count
  elements s q = read_front s q (count q)

  -- The values are all staged: a change through `iter_mut` then reaches the store.
  unfoldable pub load_all : Store T → QueueView T → Result ViewError (QueueView T)
  load_all s q =
      let stored = stored_count q in
      if q.was_cleared
      then ok q
      else read_context s (q.stored_indices.end - stored) stored >>= λ vs.
          ok (record q { new_back_values = vs ++ q.new_back_values; was_cleared = true })

  module _ (compute_hash : List T → CryptoHash) where
    -- `hash_mut`, and what `hash` does under its lock: the digest is computed once and kept.
    unfoldable pub hash_mut : Store T → QueueView T → Result ViewError (QueueView T × CryptoHash)
    unfolding elements
    hash_mut s q = elim q.hash [
      | some h ↦ ok (q, h)
      | none ↦
          elements s q >>= λ vs. ok (record q { hash = some (compute_hash vs) }, compute_hash vs)
    ]
