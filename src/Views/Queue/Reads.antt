-- ===== src/Views/Queue/Reads.antt =====
-- What the reads of a queue view give.
use linera_protocol.Prelude.{
  ℕ, ◌+◌, ◌-◌, ◌≤◌, ◌≡◌, inl, inr, refl, sym, ap, subst, ◌∙◌, suc, zero, ltb, leb, ◌==◌, List, [],
  ◌∷◌, ◌++◌, Option, some, none, true, false, Bool-cases, Option-cases, arith, leb→le, length,
  length-append, if◌then◌else◌, ok,
}
use mathlib.Core.List.{append-nil}
use linera_protocol.Views.Queue.{
  QueueView, Store, read_front, read_bounded, read_context, count, front, back, take_first,
  first_of, last_of,
}
use linera_protocol.Views.Queue.Batches.{Holds, Holds-drop, drop, length-drop}
use linera_protocol.Views.Queue.Refinement.{Contents, Represents, remainder, stored_count-length}

suc_minus : (n m : ℕ) → n - m ≡ suc n - suc m
suc_minus n m = omega arith

suc_test : (n : ℕ) → (suc n == 0) ≡ false
suc_test n = ground arith

zero_before : (n : ℕ) → ltb 0 (suc n) ≡ true
zero_before n = ground arith

above : (n m : ℕ) → leb n m ≡ false → m ≤ n
above n m h = ground arith

ltb-le : (n m : ℕ) → ltb n m ≡ true → n ≤ m
ltb-le n m h = ground arith

module _ {T : Type 0} where
  remainder_fits :
      (s : Store T) (q : QueueView T) (c : Contents T)
      → Represents s q c
      → q.stored_indices.end - length (remainder q c.stored) + length (remainder q c.stored)
        ≡ q.stored_indices.end
  remainder_fits s q c p = elim (Bool-cases q.was_cleared) [
    | inl w ↦ rw w (omega arith)
    | inr w ↦ rw w (omega (arith, p.bounded, p.few, length-drop q.front_delete_count c.stored))
  ]

  pub Holds-remainder :
      (s : Store T) (q : QueueView T) (c : Contents T)
      → Represents s q c
      → Holds s.values (q.stored_indices.end - length (remainder q c.stored)) (remainder q c.stored)
  Holds-remainder s q c p = elim (Bool-cases q.was_cleared) [
    | inl w ↦ rw w tt
    | inr w ↦ rw w (
        subst (λ i. Holds s.values i (drop q.front_delete_count c.stored))
          (omega (arith, p.bounded, p.few, length-drop q.front_delete_count c.stored))
          (Holds-drop q.front_delete_count s.values q.stored_indices.start c.stored p.few p.holds))
  ]

  pub read_context-Holds :
      (s : Store T) (i n : ℕ) (l : List T)
      → n ≤ length l
      → Holds s.values i l
      → read_context s i n ≡ ok (take_first n l)
  read_context-Holds s i zero l h k = refl
  read_context-Holds s i (suc n) [] h k = ground arith
  read_context-Holds s i (suc n) (v ∷ l) h (e, k) =
      rw (e, read_context-Holds s (suc i) n l (omega arith) k) refl

  pub take_first-length : (n : ℕ) (l : List T) → length l ≤ n → take_first n l ≡ l
  take_first-length zero [] h = refl
  take_first-length zero (v ∷ l) h = ground arith
  take_first-length (suc n) [] h = refl
  take_first-length (suc n) (v ∷ l) h = rw (take_first-length n l (omega arith)) refl

  take_within : (n : ℕ) (a b : List T) → n ≤ length a → take_first n (a ++ b) ≡ take_first n a
  take_within zero a b h = refl
  take_within (suc n) [] b h = ground arith
  take_within (suc n) (v ∷ a) b h = rw (take_within n a b (omega arith)) refl

  take_beyond :
      (n : ℕ) (a b : List T)
      → length a ≤ n
      → take_first n (a ++ b) ≡ a ++ take_first (n - length a) b
  take_beyond n [] b h = ap (λ m. take_first m b) (omega arith)
  take_beyond zero (v ∷ a) b h = ground arith
  take_beyond (suc n) (v ∷ a) b h =
      rw (take_beyond n a b (omega arith), suc_minus n (length a)) refl

  take_bounded :
      (n : ℕ) (l : List T)
      → take_first (if ltb (length l) n then length l else n) l ≡ take_first n l
  take_bounded n l = elim (Bool-cases (ltb (length l) n)) [
    | inl h ↦
        rw
          (
            h,
            take_first-length (length l) l (omega arith),
            take_first-length n l (ltb-le (length l) n h),
          )
          refl
    | inr h ↦ rw h refl
  ]

  -- A queue counts its values.
  pub count-length :
      (s : Store T) (q : QueueView T) (c : Contents T)
      → Represents s q c
      → count q ≡ length c.current
  unfolding count
  count-length s q c p =
      rw (stored_count-length s q c p, p.staged)
        (sym (length-append (remainder q c.stored) q.new_back_values))

  read_bounded-take_first :
      (s : Store T) (q : QueueView T) (start : ℕ) (left : List T) (n : ℕ)
      → Holds s.values start left
      → (q.was_cleared ≡ true → left ≡ [])
      → read_bounded s q start (length left) n ≡ ok (take_first n (left ++ q.new_back_values))
  read_bounded-take_first s q start left zero k e = refl
  read_bounded-take_first s q start left (suc n) k e = elim (Bool-cases q.was_cleared) [
    | inl w ↦ rw (suc_test n, w, e w) refl
    | inr w ↦ elim (Bool-cases (leb (suc n) (length left))) [
      | inl h ↦
          let le = leb→le (suc n) (length left) h in
          rw
            (
              suc_test n,
              w,
              h,
              read_context-Holds s start (suc n) left le k,
              take_within (suc n) left q.new_back_values le,
            )
            refl
      | inr h ↦
          let all = read_context-Holds s start (length left) left (omega arith) k in
          rw
            (
              suc_test n,
              w,
              h,
              all,
              take_first-length (length left) left (omega arith),
              take_beyond (suc n) left q.new_back_values (above (suc n) (length left) h),
            )
            refl
    ]
  ]

  -- The values at the front of a queue are read, stored ones and staged ones, as many as wanted or as
  -- there are.
  pub read_front-take_first :
      (s : Store T) (q : QueueView T) (c : Contents T) (n : ℕ)
      → Represents s q c
      → read_front s q n ≡ ok (take_first n c.current)
  unfolding read_front
  read_front-take_first s q c n p =
      let left = remainder q c.stored in
      let bound = if ltb (length c.current) n then length c.current else n in
      rw (count-length s q c p, stored_count-length s q c p)
        (read_bounded-take_first s q _ left bound (Holds-remainder s q c p) (λ w. rw w refl)
          ∙ ap ok (rw (sym p.staged) (take_bounded n c.current)))

  first_cases :
      (s : Store T) (start : ℕ) (left added : List T)
      → Holds s.values start left
      → (if ltb 0 (length left) then s.values start else first_of added) ≡ first_of (left ++ added)
  first_cases s start [] added k = refl
  first_cases s start (v ∷ left) added (e, k) = ground arith

  pub front-first_of :
      (s : Store T) (q : QueueView T) (c : Contents T)
      → Represents s q c
      → front s q ≡ first_of c.current
  unfolding front
  front-first_of s q c p =
      rw
        (
          p.staged,
          sym (first_cases s _ _ q.new_back_values (Holds-remainder s q c p)),
          stored_count-length s q c p,
        )
        refl

  last_of-none : (l : List T) → last_of l ≡ none → l ≡ []
  last_of-none [] h = refl
  last_of-none (v ∷ []) h = cc
  last_of-none (v ∷ w ∷ l) h = ground (arith, last_of-none (w ∷ l) h)

  last_of-append : (a b : List T) (v : T) → last_of b ≡ some v → last_of (a ++ b) ≡ some v
  last_of-append [] b v h = h
  last_of-append (x ∷ []) (w ∷ b) v h = h
  last_of-append (x ∷ []) [] v h = cc
  last_of-append (x ∷ y ∷ a) b v h = last_of-append (y ∷ a) b v h

  Holds-last_of :
      (values : ℕ → Option T) (i end : ℕ) (l : List T)
      → i + length l ≡ end
      → Holds values i l
      → (if ltb 0 (length l) then values (end - 1) else none) ≡ last_of l
  Holds-last_of values i end [] h k = refl
  Holds-last_of values i end (v ∷ []) h (e, k) = subst (λ j. values j ≡ some v) (omega arith) e
  Holds-last_of values i end (v ∷ w ∷ l) h (e, k) =
      let further = Holds-last_of values (suc i) end (w ∷ l) (omega arith) k in
      rw (sym further, zero_before (length l), zero_before (suc (length l))) refl

  -- The value at the back of a queue is its last value.
  pub back-last_of :
      (s : Store T) (q : QueueView T) (c : Contents T)
      → Represents s q c
      → back s q ≡ last_of c.current
  unfolding back
  back-last_of s q c p = elim (Option-cases (last_of q.new_back_values)) [
    | inr (v, e) ↦
        rw (p.staged, e, last_of-append (remainder q c.stored) q.new_back_values v e) refl
    | inl e ↦
        let left = remainder q c.stored in
        let n = stored_count-length s q c p in
        let fits = remainder_fits s q c p in
        rw (p.staged, last_of-none q.new_back_values e, append-nil left, n)
          (Holds-last_of s.values _ q.stored_indices.end left fits (Holds-remainder s q c p))
  ]
