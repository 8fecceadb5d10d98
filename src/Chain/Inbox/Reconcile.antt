-- ===== src/Chain/Inbox/Reconcile.antt =====
-- linera-chain/src/inbox.rs: the history of an inbox, as the events that were received (added) and the
-- events that were executed (removed).
use mathlib.Core.List.{append_assoc, append-nil}
use linera_protocol.Prelude.{◌≡◌, inl, inr, refl, sym, subst, ap, ◌∙◌, true, List, [], ◌∷◌, ◌++◌}
use linera_protocol.Chain.DataTypes.{Event}
use linera_protocol.Chain.Inbox.{Cursor, Inbox, add_event, cursor_of, empty, remove_event}
use linera_protocol.Chain.Inbox.Steps.{
  Added, Removed, Skipped, Succeeds, add_event-Added, remove_event-Removed,
}
use linera_protocol.Chain.Inbox.Invariant.{
  IsValid, add_event-IsValid, append-ne-nil, remove_event-IsValid,
}

-- The inboxes that successful operations reach from the empty one, with all events added and all
-- events removed so far, oldest first.
pub data Reach : List Event → List Event → Inbox → Type 0 where
  start : Reach [] [] empty
  adds :
      {added removed : List Event} {s s' : Inbox} (e : Event)
      → Reach added removed s
      → Succeeds (add_event s e) s'
      → Reach (added ++ e ∷ []) removed s'
  removes :
      {added removed : List Event} {s s' : Inbox} (e : Event)
      → Reach added removed s
      → Succeeds (remove_event s e) s'
      → Reach added (removed ++ e ∷ []) s'

-- The second list is the first without some skippable events.
pub data Skips : List Event → List Event → Type 0 where
  done : Skips [] []
  take : {xs ys : List Event} (e : Event) → Skips xs ys → Skips (e ∷ xs) (e ∷ ys)
  skip : {xs ys : List Event} (e : Event) → e.is_skippable ≡ true → Skips xs ys → Skips (e ∷ xs) ys

Skips-append : {xs ys us vs : List Event} → Skips xs ys → Skips us vs → Skips (xs ++ us) (ys ++ vs)
Skips-append done b = b
Skips-append (take e a) b = take e (Skips-append a b)
Skips-append (skip e s a) b = skip e s (Skips-append a b)

Skips-Skipped : (cursor : Cursor) (xs : List Event) → Skipped cursor xs → Skips xs []
Skips-Skipped cursor [] all = done
Skips-Skipped cursor (x ∷ xs) all = skip x all.0.0 (Skips-Skipped cursor xs all.1)

-- The events added are the settled ones and those that wait in the inbox; the events removed are the
-- consumed ones and those that are to be added yet; and what was settled is what was consumed, but
-- for skippable events.
pub record Reconciled (added removed : List Event) (s : Inbox) : Type 0 where
  pub settled : List Event
  pub consumed : List Event
  pub added_eq : added ≡ settled ++ s.added_events
  pub removed_eq : removed ≡ consumed ++ s.removed_events
  pub agree : Skips settled consumed
  pub valid : IsValid s

module _ {added removed : List Event} (s : Inbox) (e : Event) (r : Reconciled added removed s) where
  waiting :
      (s' : Inbox)
      → s'.added_events ≡ s.added_events ++ e ∷ []
      → s'.removed_events ≡ s.removed_events
      → IsValid s'
      → Reconciled (added ++ e ∷ []) removed s'
  waiting s' a m v = record {
    settled = r.settled;
    consumed = r.consumed;
    added_eq = simp (a, r.added_eq, append_assoc);
    removed_eq = simp (m, r.removed_eq);
    agree = r.agree;
    valid = v;
  }

  -- The event was expected: it is settled and consumed.
  expected :
      (s' : Inbox) (rest : List Event)
      → s.added_events ≡ []
      → s.removed_events ≡ e ∷ rest
      → s'.added_events ≡ s.added_events
      → s'.removed_events ≡ rest
      → IsValid s'
      → Reconciled (added ++ e ∷ []) removed s'
  expected s' rest none cons a m v = record {
    settled = r.settled ++ e ∷ [];
    consumed = r.consumed ++ e ∷ [];
    added_eq = simp (a, r.added_eq, none, append_assoc, append-nil);
    removed_eq = simp (m, r.removed_eq, cons, append_assoc);
    agree = Skips-append r.agree (take e done);
    valid = v;
  }

  -- A later event was removed ahead of time: this one is settled and was never consumed.
  passed_over :
      (s' : Inbox)
      → s.added_events ≡ []
      → e.is_skippable ≡ true
      → s'.added_events ≡ s.added_events
      → s'.removed_events ≡ s.removed_events
      → IsValid s'
      → Reconciled (added ++ e ∷ []) removed s'
  passed_over s' none skippable a m v = record {
    settled = r.settled ++ e ∷ [];
    consumed = r.consumed;
    added_eq = simp (a, r.added_eq, none, append_assoc, append-nil);
    removed_eq = simp (m, r.removed_eq);
    agree =
        subst (Skips (r.settled ++ e ∷ [])) (append-nil r.consumed)
          (Skips-append r.agree (skip e skippable done));
    valid = v;
  }

  -- Nothing that was added is left: the event is kept until it is added.
  anticipated :
      (s' : Inbox) (skipped : List Event)
      → s.added_events ≡ skipped ++ []
      → Skips skipped []
      → s'.added_events ≡ []
      → s'.removed_events ≡ s.removed_events ++ e ∷ []
      → IsValid s'
      → Reconciled added (removed ++ e ∷ []) s'
  anticipated s' skipped split all a m v = record {
    settled = r.settled ++ skipped;
    consumed = r.consumed;
    added_eq = simp (a, r.added_eq, split, append_assoc, append-nil);
    removed_eq = simp (m, r.removed_eq, append_assoc);
    agree = subst (Skips (r.settled ++ skipped)) (append-nil r.consumed) (Skips-append r.agree all);
    valid = v;
  }

  -- The event is the next one that was added.
  matched :
      (s' : Inbox) (skipped rest : List Event)
      → s.added_events ≡ skipped ++ e ∷ rest
      → Skips skipped []
      → s.removed_events ≡ []
      → s'.added_events ≡ rest
      → s'.removed_events ≡ s.removed_events
      → IsValid s'
      → Reconciled added (removed ++ e ∷ []) s'
  matched s' skipped rest split all none a m v = record {
    settled = r.settled ++ (skipped ++ e ∷ []);
    consumed = r.consumed ++ e ∷ [];
    added_eq = simp (a, r.added_eq, split, append_assoc);
    removed_eq = simp (m, r.removed_eq, none, append_assoc, append-nil);
    agree = Skips-append r.agree (Skips-append all (take e done));
    valid = v;
  }

  none_added :
      (first : Event) (rest : List Event) → s.removed_events ≡ first ∷ rest → s.added_events ≡ []
  none_added first rest cons = elim r.valid [ inl (none_removed, _) ↦ cc | inr (none, _) ↦ none ]

  none_removed :
      (skipped rest : List Event) → s.added_events ≡ skipped ++ e ∷ rest → s.removed_events ≡ []
  none_removed skipped rest split = elim r.valid [
    | inl (none, _) ↦ none
    | inr (none, _) ↦ absurd (append-ne-nil skipped e rest (sym none ∙ split))
  ]

  added-Reconciled :
      (s' : Inbox) → IsValid s' → Added s e s' → Reconciled (added ++ e ∷ []) removed s'
  added-Reconciled s' v (le, inl (none, eq)) =
      waiting s' (ap (λ x. x.added_events) eq) (ap (λ x. x.removed_events) eq) v
  added-Reconciled s' v (le, inr (inl (rest, cons, eq))) =
      expected s' rest (none_added e rest cons) cons (ap (λ x. x.added_events) eq)
        (ap (λ x. x.removed_events) eq) v
  added-Reconciled s' v (le, inr (inr (first, rest, cons, before, skippable, eq))) =
      passed_over s' (none_added first rest cons) skippable (ap (λ x. x.added_events) eq)
        (ap (λ x. x.removed_events) eq) v

  removed-Reconciled :
      (s' : Inbox) → IsValid s' → Removed s e s' → Reconciled added (removed ++ e ∷ []) s'
  removed-Reconciled s' v (le, skipped, left, split, all, inl (left_nil, eq)) =
      anticipated s' skipped (subst (λ x. s.added_events ≡ skipped ++ x) left_nil split)
        (Skips-Skipped (cursor_of e) skipped all) (ap (λ x. x.added_events) eq)
        (ap (λ x. x.removed_events) eq) v
  removed-Reconciled s' v (le, skipped, left, split, all, inr (rest, left_cons, eq)) =
      let split' = subst (λ x. s.added_events ≡ skipped ++ x) left_cons split in
      matched s' skipped rest split' (Skips-Skipped (cursor_of e) skipped all)
        (none_removed skipped rest split') (ap (λ x. x.added_events) eq)
        (ap (λ x. x.removed_events) eq) v

-- After any successful operations, in any order: what was received and what was executed agree, but
-- for skippable events that were not executed and for what waits in the one queue that is not empty.
pub Reach-Reconciled :
    {added removed : List Event} {s : Inbox} → Reach added removed s → Reconciled added removed s
Reach-Reconciled start = record {
  settled = [];
  consumed = [];
  added_eq = refl;
  removed_eq = refl;
  agree = done;
  valid = inl (refl, refl);
}
Reach-Reconciled (adds {s = s} {s' = s'} e reach h) =
    let r = Reach-Reconciled reach in
    added-Reconciled s e r s' (add_event-IsValid s e r.valid h) (add_event-Added s e h)
Reach-Reconciled (removes {s = s} {s' = s'} e reach h) =
    let r = Reach-Reconciled reach in
    removed-Reconciled s e r s' (remove_event-IsValid s e r.valid h) (remove_event-Removed s e h)
