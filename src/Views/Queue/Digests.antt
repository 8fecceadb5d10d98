-- ===== src/Views/Queue/Digests.antt =====
-- The digest that a queue view keeps is that of its values, unless they are changed by `iter_mut`.
use linera_protocol.Prelude.{
  ◌≡◌, refl, sym, subst, ap, ◌∙◌, inl, inr, List, [], ◌∷◌, Bool, true, false, Bool-cases,
  Option-cases, ltb, some, All, ok, ok_inj, some_inj, arith, >>=-ok,
}
use linera_protocol.Base.Identifiers.{CryptoHash}
use linera_protocol.Views.Queue.{
  QueueView, Store, clear, delete_front, flush, load, push_back, rollback, stored_count, hash_mut,
  elements, count, read_front,
}
use linera_protocol.Views.Queue.Refinement.{Contents, Represents}
use linera_protocol.Views.Queue.Reads.{count-length, read_front-take_first, take_first-length}
use linera_protocol.Views.Queue.Steps.{
  Call, changes, clears, deletes, expect, expect_all, flushes, hashes, pushes, reloads, rolls_back,
}
use linera_protocol.Views.Queue.Runs.{
  empty_contents, empty_store, loaded_empty, run, step, step-Represents,
}

abbrev pub is_change : {T : Type 0} → Call T → Bool
is_change (changes f) = true
is_change _ = false

module _ {T : Type 0} (compute_hash : List T → CryptoHash) where
  record IsFresh (q : QueueView T) (c : Contents T) : Type 0 where
    now : (h : CryptoHash) → q.hash ≡ some h → h ≡ compute_hash c.current
    before : (h : CryptoHash) → q.stored_hash ≡ some h → h ≡ compute_hash c.stored

  elements-ok :
      (s : Store T) (q : QueueView T) (c : Contents T)
      → Represents s q c
      → elements s q ≡ ok c.current
  unfolding elements
  elements-ok s q c p =
      read_front-take_first s q c (count q) p
      ∙ ap ok (take_first-length (count q) c.current (omega (arith, count-length s q c p)))

  -- The digest is that of the values, whether it is kept or computed.
  hash_mut-fresh :
      (s : Store T) (q : QueueView T) (c : Contents T)
      → Represents s q c
      → IsFresh q c
      → hash_mut compute_hash s q
        ≡ ok (record q { hash = some (compute_hash c.current) }, compute_hash c.current)
  unfolding hash_mut read_front
  hash_mut-fresh s q c p f = elim (Option-cases q.hash) [
    | inr (h, e) ↦ rw (e, sym (f.now h e)) refl
    | inl e ↦ rw (e, elements-ok s q c p) refl
  ]

  delete_front-IsFresh :
      (q : QueueView T) (c : Contents T) → IsFresh q c → IsFresh (delete_front q) (expect deletes c)
  unfolding delete_front
  delete_front-IsFresh q c f = elim (Bool-cases (ltb 0 (stored_count q))) [
    | inl e ↦ rw e (record { now = λ h e. cc; before = f.before })
    | inr e ↦ rw e (record { now = λ h e. cc; before = f.before })
  ]

  step-IsFresh :
      (call : Call T) (s s' : Store T) (q q' : QueueView T) (c : Contents T)
      → is_change call ≡ false
      → Represents s q c
      → IsFresh q c
      → step compute_hash call (s, q) ≡ ok (s', q')
      → IsFresh q' (expect call c)
  unfolding push_back clear rollback flush load
  step-IsFresh (pushes v) s s' q q' c k p f e =
      subst (λ r. IsFresh r.1 (expect (pushes v) c)) (ok_inj e)
        (record { now = λ h e. cc; before = f.before })
  step-IsFresh deletes s s' q q' c k p f e =
      subst (λ r. IsFresh r.1 (expect deletes c)) (ok_inj e) (delete_front-IsFresh q c f)
  step-IsFresh clears s s' q q' c k p f e =
      subst (λ r. IsFresh r.1 (expect clears c)) (ok_inj e)
        (record { now = λ h e. cc; before = f.before })
  step-IsFresh rolls_back s s' q q' c k p f e =
      subst (λ r. IsFresh r.1 (expect rolls_back c)) (ok_inj e)
        (record { now = f.before; before = f.before })
  step-IsFresh flushes s s' q q' c k p f e =
      subst (λ r. IsFresh r.1 (expect flushes c)) (ok_inj e)
        (record { now = f.now; before = f.now })
  step-IsFresh reloads s s' q q' c k p f e =
      subst (λ r. IsFresh r.1 (expect reloads c)) (ok_inj e)
        (rw p.digest (record { now = f.before; before = f.before }))
  step-IsFresh (changes g) s s' q q' c k p f e = cc
  step-IsFresh hashes s s' q q' c k p f e =
      let (r, e1, e2) = >>=-ok (hash_mut compute_hash s q) (λ r. ok (s, r.0)) e in
      let kept = sym (hash_mut-fresh s q c p f) ∙ e1 in
      subst (λ r. IsFresh r.1 c) (ok_inj e2)
        (subst (λ r. IsFresh r.0 c) (ok_inj kept)
          (record { now = λ h e. sym (some_inj e); before = f.before }))

  run-IsFresh :
      (calls : List (Call T)) (s : Store T) (q : QueueView T) (c : Contents T)
      → All (λ call. is_change call ≡ false) calls
      → Represents s q c
      → IsFresh q c
      → (s' : Store T) × (q' : QueueView T) × (run compute_hash calls (s, q) ≡ ok (s', q'))
        × Represents s' q' (expect_all calls c)
        × IsFresh q' (expect_all calls c)
  run-IsFresh [] s q c k p f = (s, q, refl, p, f)
  run-IsFresh (call ∷ rest) s q c (k, ks) p f =
      let (s1, q1, e, p1) = step-Represents compute_hash call s q c p in
      let f1 = step-IsFresh call s s1 q q1 c k p f e in
      let (s2, q2, d, p2, f2) = run-IsFresh rest s1 q1 (expect call c) ks p1 f1 in
      (s2, q2, rw e d, p2, f2)

  empty-IsFresh : IsFresh (load empty_store) empty_contents
  unfolding load
  empty-IsFresh = record { now = λ h e. cc; before = λ h e. cc }

  -- After any calls on a queue that is loaded from an empty store, none of them a change through
  -- `iter_mut`, the digest is that of the values that the list has after the same calls, whether it
  -- was kept, stored and loaded again, or is computed now.
  pub run-digest :
      (calls : List (Call T))
      → All (λ call. is_change call ≡ false) calls
      → (s : Store T) × (q : QueueView T) × (q' : QueueView T) × (run compute_hash calls
            (empty_store, load empty_store)
          ≡ ok (s, q))
        × (hash_mut compute_hash s q
            ≡ ok (q', compute_hash (expect_all calls empty_contents).current))
  run-digest calls k =
      let (s, q, e, p, f) =
        run-IsFresh calls empty_store (load empty_store) empty_contents k loaded_empty
          empty-IsFresh in
      (s, q, _, e, hash_mut-fresh s q (expect_all calls empty_contents) p f)
