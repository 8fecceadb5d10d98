-- ===== src/Chain/Inbox/Invariant.antt =====
-- linera-chain/src/inbox.rs: how the two cursors and the two queues of an inbox fit together.
use linera_protocol.Prelude.{◌≡◌, ◌≢◌, ◌⊎◌, inl, inr, refl, sym, subst, ◌∙◌, List, [], ◌∷◌, ◌++◌}
use linera_protocol.Chain.DataTypes.{Event}
use linera_protocol.Chain.Inbox.{Cursor, Inbox, add_event, cursor_of, remove_event}
use linera_protocol.Chain.Inbox.Order.{Le, Lt, Run, next, next-Le}
use linera_protocol.Chain.Inbox.Steps.{
  Added, Removed, Skipped, Succeeds, add_event-Added, remove_event-Removed,
}

abbrev pub IsValid : Inbox → Type 0
IsValid s =
    ((s.removed_events ≡ []) × Run s.next_cursor_to_remove s.added_events s.next_cursor_to_add)
    ⊎ ((s.added_events ≡ []) × Run s.next_cursor_to_add s.removed_events s.next_cursor_to_remove)

Run-snoc :
    (lo hi : Cursor) (events : List Event) (e : Event)
    → Run lo events hi
    → Le hi (cursor_of e)
    → Run lo (events ++ e ∷ []) (next (cursor_of e))
Run-snoc lo hi [] e run le = (subst (λ x. Le x (cursor_of e)) (sym run) le, refl)
Run-snoc lo hi (x ∷ rest) e run le = (run.0, Run-snoc (next (cursor_of x)) hi rest e run.1 le)

-- What follows a prefix still reaches to the end.
Run-append :
    (lo hi : Cursor) (skipped left : List Event)
    → Run lo (skipped ++ left) hi
    → (mid : Cursor) × Run mid left hi
Run-append lo hi [] left run = (lo, run)
Run-append lo hi (x ∷ rest) left run = Run-append (next (cursor_of x)) hi rest left run.1

-- Past skipped events below a cursor, nothing is left only if the end is not above the cursor.
Run-Skipped :
    (lo hi cursor : Cursor) (skipped : List Event)
    → Le lo cursor
    → Run lo (skipped ++ []) hi
    → Skipped cursor skipped
    → Le hi cursor
Run-Skipped lo hi cursor [] le run all = subst (λ x. Le x cursor) run le
Run-Skipped lo hi cursor (x ∷ rest) le run all =
    Run-Skipped (next (cursor_of x)) hi cursor rest (next-Le (cursor_of x) cursor all.0.1) run.1
      all.1

pub append-ne-nil : (xs : List Event) (e : Event) (ys : List Event) → [] ≢ xs ++ e ∷ ys
append-ne-nil [] e ys h = cc
append-ne-nil (x ∷ xs) e ys h = cc

module _ (s : Inbox) (e : Event) (skipped : List Event) (all : Skipped (cursor_of e) skipped) where
  kept-IsValid :
      IsValid s
      → Le s.next_cursor_to_remove (cursor_of e)
      → s.added_events ≡ skipped ++ []
      → IsValid (record s {
        added_events = [];
        removed_events = s.removed_events ++ e ∷ [];
        next_cursor_to_remove = next (cursor_of e);
      })
  kept-IsValid (inl (none_removed, run)) le split =
      let add = s.next_cursor_to_add in
      let remove = s.next_cursor_to_remove in
      let past =
        Run-Skipped remove add (cursor_of e) skipped le (subst (λ x. Run remove x add) split run)
          all in
      inr (
        refl,
        subst (λ x. Run add (x ++ e ∷ []) (next (cursor_of e))) (sym none_removed) (past, refl),
      )
  kept-IsValid (inr (_, run)) le split =
      inr (refl, Run-snoc s.next_cursor_to_add s.next_cursor_to_remove s.removed_events e run le)

  matched-IsValid :
      (rest : List Event)
      → IsValid s
      → s.added_events ≡ skipped ++ e ∷ rest
      → IsValid (record s { added_events = rest; next_cursor_to_remove = next (cursor_of e) })
  matched-IsValid rest (inl (none_removed, run)) split =
      let (mid, run') =
        Run-append s.next_cursor_to_remove s.next_cursor_to_add skipped (e ∷ rest)
          (subst (λ x. Run s.next_cursor_to_remove x s.next_cursor_to_add) split run) in
      inl (none_removed, run'.1)
  matched-IsValid rest (inr (none_added, _)) split =
      absurd (append-ne-nil skipped e rest (sym none_added ∙ split))

Removed-IsValid : (s : Inbox) (e : Event) (s' : Inbox) → IsValid s → Removed s e s' → IsValid s'
Removed-IsValid s e s' v (le, skipped, left, split, all, inl (left_nil, eq)) =
    subst IsValid (sym eq) (
      kept-IsValid s e skipped all v le (subst (λ x. s.added_events ≡ skipped ++ x) left_nil split))
Removed-IsValid s e s' v (le, skipped, left, split, all, inr (rest, left_cons, eq)) =
    subst IsValid (sym eq) (
      matched-IsValid s e skipped all rest v
        (subst (λ x. s.added_events ≡ skipped ++ x) left_cons split))

-- A successful removal of an event keeps the inbox valid: one queue at most holds events, their cursors
-- increase, and they reach from the one next cursor to the other.
pub remove_event-IsValid :
    (s : Inbox) (e : Event) {s' : Inbox} → IsValid s → Succeeds (remove_event s e) s' → IsValid s'
remove_event-IsValid s e {s'} v h = Removed-IsValid s e s' v (remove_event-Removed s e h)

waiting-IsValid :
    (s : Inbox) (e : Event)
    → IsValid s
    → Le s.next_cursor_to_add (cursor_of e)
    → s.removed_events ≡ []
    → IsValid (record s {
      added_events = s.added_events ++ e ∷ [];
      next_cursor_to_add = next (cursor_of e);
    })
waiting-IsValid s e (inl (none_removed, run)) le none =
    inl
      (none_removed, Run-snoc s.next_cursor_to_remove s.next_cursor_to_add s.added_events e run le)
waiting-IsValid s e (inr (none_added, run)) le none =
    let add = s.next_cursor_to_add in
    let remove = s.next_cursor_to_remove in
    let same : add ≡ remove = subst (λ x. Run add x remove) none run in
    inl (
      none,
      subst (λ x. Run remove (x ++ e ∷ []) (next (cursor_of e))) (sym none_added)
          (subst (λ x. Le x (cursor_of e)) same le, refl),
    )

-- What remains to be added after the first event removed ahead of time was added, or after an
-- event before it.
ahead-IsValid :
    (s : Inbox) (e first : Event) (rest : List Event)
    → IsValid s
    → s.removed_events ≡ first ∷ rest
    → IsValid (record s { removed_events = rest; next_cursor_to_add = next (cursor_of first) })
      × (Lt (cursor_of e) (cursor_of first)
          → IsValid (record s { next_cursor_to_add = next (cursor_of e) }))
ahead-IsValid s e first rest (inl (none_removed, _)) cons = cc
ahead-IsValid s e first rest (inr (none_added, run)) cons =
    let add = s.next_cursor_to_add in
    let remove = s.next_cursor_to_remove in
    let run' = subst (λ x. Run add x remove) cons run in
    (
      inr (none_added, run'.1),
      λ before. inr (
        none_added,
        subst (λ x. Run (next (cursor_of e)) x remove) (sym cons)
            (next-Le (cursor_of e) (cursor_of first) before, run'.1),
      ),
    )

Added-IsValid : (s : Inbox) (e : Event) (s' : Inbox) → IsValid s → Added s e s' → IsValid s'
Added-IsValid s e s' v (le, inl (none, eq)) = subst IsValid (sym eq) (waiting-IsValid s e v le none)
Added-IsValid s e s' v (le, inr (inl (rest, cons, eq))) =
    subst IsValid (sym eq) (ahead-IsValid s e e rest v cons).0
Added-IsValid s e s' v (le, inr (inr (first, rest, cons, before, skippable, eq))) =
    subst IsValid (sym eq) ((ahead-IsValid s e first rest v cons).1 before)

-- A successful addition of an event keeps the inbox valid: one queue at most holds events, their cursors
-- increase, and they reach from the one next cursor to the other.
pub add_event-IsValid :
    (s : Inbox) (e : Event) {s' : Inbox} → IsValid s → Succeeds (add_event s e) s' → IsValid s'
add_event-IsValid s e {s'} v h = Added-IsValid s e s' v (add_event-Added s e h)
