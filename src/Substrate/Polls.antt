-- ===== src/Substrate/Polls.antt =====
-- That the polls of `PostgresControlEventRepository` (src/storage/postgres_substrate.py) share the events
-- out.
use financial_control_engine.Base.{
  ℕ, String, ◌==◌, ◌≡◌, refl, ap, ◌∙◌, Bool, true, false, ◌||◌, List, [], ◌∷◌, map, any, keep, inl,
  inr, Bool-cases, All,
}
use financial_control_engine.Base.Sorting.{sort_by, All-take, All-mapped, All-sort_by, All-map}
use financial_control_engine.Substrate.Events.{
  EventRow, has_event_id, waits, started, selected, start_row, poll_pending_events, oldest_first,
}

-- The ids of the events that a poll returned.
abbrev pub is_polled : List EventRow → String → Bool
is_polled polled id = any (λ (x : EventRow). id == x.event_id) polled

module _ (chosen : List EventRow) (now : ℕ) where
  -- A row that was chosen is not waiting any more, and the others are as they were.
  waiting_left :
      (r : EventRow)
      → waits (start_row chosen now r) ≡ true
      → any (λ (x : EventRow). has_event_id x.event_id r) chosen ≡ false
  waiting_left r h = elim (Bool-cases (any (λ (x : EventRow). has_event_id x.event_id r) chosen)) [
    | inl e ↦ absurd (cc (rw e at h))
    | inr e ↦ e
  ]

  left_waiting :
      (rows : List EventRow)
      → All
          (λ (r : EventRow). any (λ (x : EventRow). has_event_id x.event_id r) chosen ≡ false)
          (keep waits (map (start_row chosen now) rows))
  left_waiting [] = tt
  left_waiting (r ∷ rows) = elim (Bool-cases (waits (start_row chosen now r))) [
    | inr e ↦ rw e (left_waiting rows)
    | inl e ↦ let n = waiting_left r e in rw e (rw (n, n) (refl, left_waiting rows))
  ]

any-started :
    (id : String) (now : ℕ) (chosen : List EventRow)
    → is_polled (map (started now) chosen) id ≡ is_polled chosen id
any-started id now [] = refl
any-started id now (x ∷ xs) = ap (λ b. (id == x.event_id) || b) (any-started id now xs)

-- No event that a poll returned is returned by the next poll, by whichever worker and at whatever time.
pub polled_once :
    (limit limit' now now' : ℕ) (rows : List EventRow)
    → let (polled, after) = poll_pending_events limit now rows in
      All
        (λ (e : EventRow). is_polled polled e.event_id ≡ false)
        (poll_pending_events limit' now' after).0
unfolding poll_pending_events
polled_once limit limit' now now' rows =
    let chosen = selected limit rows in
    let after = map (start_row chosen now) rows in
    let P = λ (e : EventRow). is_polled (map (started now) chosen) e.event_id ≡ false in
    All-mapped P (started now') (selected limit' after) (
      All-take P limit' (sort_by oldest_first (keep waits after)) (
        All-sort_by oldest_first P (keep waits after) (
          All-map (λ e h. any-started e.event_id now chosen ∙ h) (keep waits after)
            (left_waiting chosen now rows))))
