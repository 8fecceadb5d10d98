-- ===== src/Views/Queue/Steps.antt =====
-- The calls on a queue view, and what each does to the two lists that the view stands for.
use linera_protocol.Prelude.{
  ℕ, suc, zero, inl, inr, ◌+◌, ◌<◌, ◌≡◌, refl, sym, ap, ◌∙◌, List, [], ◌∷◌, ◌++◌, true, false,
  Bool-cases, Option-cases, some, arith, length, map, ltb, Result, ok, ◌>>=◌,
}
use linera_protocol.Base.Identifiers.{CryptoHash}
use linera_protocol.Views.Queue.{
  QueueView, Store, count, elements, hash_mut, read_front, take_first, ViewError, clear,
  delete_front, load, load_all, push_back, rest_of, rollback, stored_count,
}
use linera_protocol.Views.Queue.Batches.{length-drop, drop}
use linera_protocol.Views.Queue.Refinement.{
  length-zero, Contents, Represents, remainder, stored_count-length,
}
use linera_protocol.Views.Queue.Reads.{
  read_front-take_first, Holds-remainder, read_context-Holds, take_first-length,
}
use mathlib.Core.List.{append_assoc, append-nil}

-- The calls; `reloads` makes a new view from the store, and `changes` is what is done with the values
-- that `iter_mut` gives.
pub data Call (T : Type 0) : Type 0 where
  pushes : T → Call T
  deletes : Call T
  clears : Call T
  rolls_back : Call T
  flushes : Call T
  reloads : Call T
  changes : (T → T) → Call T
  hashes : Call T

plus_one : (n : ℕ) → n + 1 ≡ suc n
plus_one n = omega arith

some_counted : (n : ℕ) → ltb 0 n ≡ true → 0 < n
some_counted n h = ground arith

none_counted : (n : ℕ) → ltb 0 n ≡ false → n ≡ 0
none_counted n h = ground arith

module _ {T : Type 0} where
  abbrev pub change : (T → T) → QueueView T → QueueView T
  change f q = record q { new_back_values = map f q.new_back_values }

  abbrev pub expect : Call T → Contents T → Contents T
  expect (pushes v) c = record c { current = c.current ++ v ∷ [] }
  expect deletes c = record c { current = rest_of c.current }
  expect clears c = record c { current = [] }
  expect rolls_back c = record c { current = c.stored }
  expect flushes c = record c { stored = c.current }
  expect reloads c = record c { current = c.stored }
  expect hashes c = c
  expect (changes f) c = record c { current = map f c.current }

  abbrev pub expect_all : List (Call T) → Contents T → Contents T
  expect_all [] c = c
  expect_all (call ∷ rest) c = expect_all rest (expect call c)

  abbrev pub Gives : Result ViewError (Store T × QueueView T) → Contents T → Type 0
  Gives r c = (s : Store T) × (q : QueueView T) × (r ≡ ok (s, q)) × Represents s q c

  rest_of-drop : (n : ℕ) (l : List T) → rest_of (drop n l) ≡ drop (suc n) l
  rest_of-drop zero [] = refl
  rest_of-drop zero (v ∷ l) = refl
  rest_of-drop (suc n) [] = refl
  rest_of-drop (suc n) (v ∷ l) = rest_of-drop n l

  rest_of-append : (a b : List T) → 0 < length a → rest_of (a ++ b) ≡ rest_of a ++ b
  rest_of-append [] b h = ground arith
  rest_of-append (v ∷ a) b h = refl

  counted-kept : (q : QueueView T) → ltb 0 (stored_count q) ≡ true → q.was_cleared ≡ false
  counted-kept q h = ground arith

  remainder-kept :
      (q : QueueView T) (l : List T)
      → q.was_cleared ≡ false
      → remainder q l ≡ drop q.front_delete_count l
  remainder-kept q l w = rw w refl

  pub push_back-Represents :
      (v : T) (s : Store T) (q : QueueView T) (c : Contents T)
      → Represents s q c
      → Represents s (push_back v q) (expect (pushes v) c)
  unfolding push_back
  push_back-Represents v s q c p = record {
    indices = p.indices;
    digest = p.digest;
    bounded = p.bounded;
    holds = p.holds;
    few = p.few;
    staged = rw p.staged (append_assoc (remainder q c.stored) q.new_back_values (v ∷ []));
  }

  pub delete_front-Represents :
      (s : Store T) (q : QueueView T) (c : Contents T)
      → Represents s q c
      → Represents s (delete_front q) (expect deletes c)
  unfolding delete_front
  delete_front-Represents s q c p = elim (Bool-cases (ltb 0 (stored_count q))) [
    | inl h ↦
        let left = drop q.front_delete_count c.stored in
        let w = counted-kept q h in
        let n = stored_count-length s q c p in
        let kept = remainder-kept q c.stored w in
        let size = ap length kept in
        let positive = some_counted (stored_count q) h in
        rw h (record {
          indices = p.indices;
          digest = p.digest;
          bounded = p.bounded;
          holds = p.holds;
          few = omega (arith, n, size, positive, length-drop q.front_delete_count c.stored);
          staged =
              rw
                (
                  p.staged,
                  kept,
                  w,
                  plus_one q.front_delete_count,
                  sym (rest_of-drop q.front_delete_count c.stored),
                )
                (rest_of-append left q.new_back_values (omega (arith, n, size, positive)));
        })
    | inr h ↦
        let none_left =
          length-zero (remainder q c.stored)
            (sym (stored_count-length s q c p) ∙ none_counted (stored_count q) h) in
        rw h (record {
          indices = p.indices;
          digest = p.digest;
          bounded = p.bounded;
          holds = p.holds;
          few = p.few;
          staged = rw (p.staged, none_left) refl;
        })
  ]

  pub clear-Represents :
      (s : Store T) (q : QueueView T) (c : Contents T)
      → Represents s q c
      → Represents s (clear q) (expect clears c)
  unfolding clear
  clear-Represents s q c p = record {
    indices = p.indices;
    digest = p.digest;
    bounded = p.bounded;
    holds = p.holds;
    few = p.few;
    staged = refl;
  }

  pub rollback-Represents :
      (s : Store T) (q : QueueView T) (c : Contents T)
      → Represents s q c
      → Represents s (rollback q) (expect rolls_back c)
  unfolding rollback
  rollback-Represents s q c p = record {
    indices = p.indices;
    digest = p.digest;
    bounded = p.bounded;
    holds = p.holds;
    few = omega arith;
    staged = sym (append-nil c.stored);
  }

  pub load-Represents :
      (s : Store T) (q : QueueView T) (c : Contents T)
      → Represents s q c
      → Represents s (load s) (expect reloads c)
  unfolding load
  load-Represents s q c p = record {
    indices = refl;
    digest = refl;
    bounded = rw p.indices p.bounded;
    holds = rw p.indices p.holds;
    few = omega arith;
    staged = sym (append-nil c.stored);
  }

  pub changes-Represents :
      (f : T → T) (s : Store T) (q : QueueView T) (c : Contents T)
      → Represents s q c
      → Gives (load_all s q >>= λ q'. ok (s, change f q')) (expect (changes f) c)
  unfolding load_all
  changes-Represents f s q c p = elim (Bool-cases q.was_cleared) [
    | inl w ↦ (
      s,
      change f q,
      rw w refl,
      record {
        indices = p.indices;
        digest = p.digest;
        bounded = p.bounded;
        holds = p.holds;
        few = p.few;
        staged = rw (p.staged, w) refl;
      },
    )
    | inr w ↦
        let read =
          read_context-Holds s _ (length (remainder q c.stored)) (remainder q c.stored)
            (omega arith) (Holds-remainder s q c p) in
        (
          s,
          record q {
            was_cleared = true;
            new_back_values = map f (remainder q c.stored ++ q.new_back_values);
          },
          rw
              (
                stored_count-length s q c p,
                read,
                take_first-length (length (remainder q c.stored)) (remainder q c.stored)
                    (omega arith),
                w,
              )
              refl,
          record {
            indices = p.indices;
            digest = p.digest;
            bounded = p.bounded;
            holds = p.holds;
            few = p.few;
            staged = rw p.staged refl;
          },
        )
  ]

  pub hashes-Represents :
      (compute_hash : List T → CryptoHash) (s : Store T) (q : QueueView T) (c : Contents T)
      → Represents s q c
      → Gives (hash_mut compute_hash s q >>= λ r. ok (s, r.0)) (expect hashes c)
  unfolding hash_mut elements read_front
  hashes-Represents compute_hash s q c p = elim (Option-cases q.hash) [
    | inr (h, e) ↦ (s, q, rw e refl, p)
    | inl e ↦ (
      s,
      record q { hash = some (compute_hash (take_first (count q) c.current)) },
      rw (e, read_front-take_first s q c (count q) p) refl,
      record {
        indices = p.indices;
        digest = p.digest;
        bounded = p.bounded;
        holds = p.holds;
        few = p.few;
        staged = p.staged;
      },
    )
  ]
