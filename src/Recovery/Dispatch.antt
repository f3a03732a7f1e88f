-- ===== src/Recovery/Dispatch.antt =====
-- What the outbox of src/recovery/outbox.py sends, and that it sends no action twice.
use financial_control_engine.Base.{
  ℕ, String, ◌==◌, ◌≡◌, refl, ap, ◌∙◌, Bool, true, false, ◌&&◌, List, [], ◌∷◌, ◌++◌, any, map, ok,
  if◌then◌else◌, inl, inr, All, All-append, Bool-cases, arith, eq_iff, eq_refl, ok_injective,
}
use financial_control_engine.Recovery.Outbox.{
  Action, OutboxMessage, OutboxStatus, Outbox, is_executable, is_pending, prevents, new_message,
  publish_action, get_pending_messages, update_status, Dispatched, status_after, process_message,
  process_messages, process_pending,
}

-- The ids are keys of the dictionary.
abbrev pub DistinctMessages : Outbox → Type 0
DistinctMessages [] = Unit
DistinctMessages (m ∷ ms) =
    All (λ (x : OutboxMessage). m.message_id == x.message_id ≡ false) ms × DistinctMessages ms

-- A pending message is sent once, and gets the status that the outcome says.
abbrev pub sent : (Action → Dispatched) → OutboxMessage → OutboxMessage
sent dispatch_action m =
    if is_pending m.status then record m { status = status_after (dispatch_action m.action) } else m

module _ (dispatch_action : Action → Dispatched) where
  process_message_other :
      (m x : OutboxMessage) (ms : Outbox)
      → (x.message_id == m.message_id) ≡ false
      → process_message dispatch_action m (x ∷ ms) ≡ x ∷ process_message dispatch_action m ms
  unfolding update_status
  process_message_other m x ms h = rw (h, h) refl

  process_messages_other :
      (x : OutboxMessage) (l : List OutboxMessage) (ms : Outbox)
      → All (λ (m : OutboxMessage). x.message_id == m.message_id ≡ false) l
      → process_messages dispatch_action l (x ∷ ms) ≡ x ∷ process_messages dispatch_action l ms
  unfolding process_messages
  process_messages_other x [] ms h = refl
  process_messages_other x (m ∷ l) ms h =
      rw (process_message_other m x ms h.0)
        (process_messages_other x l (process_message dispatch_action m ms) h.1)

  process_message_own :
      (m : OutboxMessage) (ms : Outbox)
      → process_message dispatch_action m (m ∷ ms)
        ≡ record m { status = status_after (dispatch_action m.action) } ∷ ms
  unfolding update_status
  process_message_own m ms = rw (eq_refl m.message_id, eq_refl m.message_id) refl

  kept_apart :
      (x : OutboxMessage) (l : List OutboxMessage)
      → All (λ (m : OutboxMessage). x.message_id == m.message_id ≡ false) l
      → All (λ (m : OutboxMessage). x.message_id == m.message_id ≡ false) (get_pending_messages l)
  kept_apart x [] h = tt
  kept_apart x (m ∷ l) h = elim (Bool-cases (is_pending m.status)) [
    | inl e ↦ rw e (h.0, kept_apart x l h.1)
    | inr e ↦ rw e (kept_apart x l h.1)
  ]

  -- With distinct ids, processing sends each pending message once and gives it the status of its
  -- outcome, DISPATCHED, RETRYABLE or AMBIGUOUS, and changes no other message.
  pub process_pending-sent :
      (outbox : Outbox)
      → DistinctMessages outbox
      → process_pending dispatch_action outbox ≡ map (sent dispatch_action) outbox
  unfolding process_pending
  process_pending-sent [] d = refl
  process_pending-sent (m ∷ ms) d = elim (Bool-cases (is_pending m.status)) [
    | inl e ↦ rw e (
        ap (process_messages dispatch_action (get_pending_messages ms)) (process_message_own m ms)
        ∙ process_messages_other (record m { status = status_after (dispatch_action m.action) })
            (get_pending_messages ms) ms (kept_apart m ms d.0)
        ∙ ap (λ l. record m { status = status_after (dispatch_action m.action) } ∷ l)
            (process_pending-sent ms d.1))
    | inr e ↦ rw e (
        process_messages_other m (get_pending_messages ms) ms (kept_apart m ms d.0)
        ∙ ap (λ l. m ∷ l) (process_pending-sent ms d.1))
  ]

-- Both messages are executable and for the same type and key.
abbrev pub collides : OutboxMessage → OutboxMessage → Bool
collides m x = is_executable m.status && prevents m.action x

-- No two executable messages are for the same type and key.
abbrev pub Exclusive : Outbox → Type 0
Exclusive [] = Unit
Exclusive (m ∷ ms) = All (λ (x : OutboxMessage). collides m x ≡ false) ms × Exclusive ms

not_prevented :
    (a : Action) (m : OutboxMessage) (message_id : String) (now : ℕ)
    → prevents a m ≡ false
    → collides m (new_message a message_id now) ≡ false
not_prevented a m message_id now h = ground (
  arith,
  eq_iff m.action.idempotency_key a.idempotency_key,
  eq_iff a.idempotency_key m.action.idempotency_key,
)

append-Exclusive :
    (a : Action) (message_id : String) (now : ℕ) (l : Outbox)
    → any (prevents a) l ≡ false
    → Exclusive l
    → Exclusive (l ++ new_message a message_id now ∷ [])
append-Exclusive a message_id now [] h x = (tt, tt)
append-Exclusive a message_id now (m ∷ ms) h x = elim (Bool-cases (prevents a m)) [
  | inl e ↦ absurd (cc (rw e at h))
  | inr e ↦ (
    All-append (λ y. collides m y ≡ false) ms (new_message a message_id now ∷ []) x.0
        (not_prevented a m message_id now e, tt),
    append-Exclusive a message_id now ms (rw e at h) x.1,
  )
]

-- After `publish_action` returned, still no two executable messages are for the same type and key.
pub publish_action-Exclusive :
    (a : Action) (message_id : String) (now : ℕ) (outbox : Outbox) {after : Outbox}
    → Exclusive outbox
    → publish_action a message_id now outbox ≡ ok after
    → Exclusive after
unfolding publish_action
publish_action-Exclusive a message_id now outbox {after} x h =
    elim (Bool-cases (any (prevents a) outbox)) [
      | inl e ↦ absurd (cc (rw e at h))
      | inr e ↦ rw (ok_injective (rw e at h)) (append-Exclusive a message_id now outbox e x)
    ]

pending_executable : (s : OutboxStatus) → is_pending s ≡ true → is_executable s ≡ true
pending_executable s h = ground arith

sent_executable :
    (d : Action → Dispatched) (m : OutboxMessage)
    → is_executable (sent d m).status ≡ true
    → is_executable m.status ≡ true
sent_executable d m h = elim (Bool-cases (is_pending m.status)) [
  | inl e ↦ pending_executable m.status e
  | inr e ↦ rw e at h
]

sent_action : (d : Action → Dispatched) (m : OutboxMessage) → (sent d m).action ≡ m.action
sent_action d m = elim (Bool-cases (is_pending m.status)) [ inl e ↦ rw e refl | inr e ↦ rw e refl ]

sent_apart :
    (d : Action → Dispatched) (m x : OutboxMessage)
    → collides m x ≡ false
    → collides (sent d m) (sent d x) ≡ false
sent_apart d m x h =
    rw (sent_action d m, sent_action d x)
      (ground (arith, h, sent_executable d m, sent_executable d x))

All-sent :
    (d : Action → Dispatched) (m : OutboxMessage) (l : Outbox)
    → All (λ (x : OutboxMessage). collides m x ≡ false) l
    → All (λ (x : OutboxMessage). collides (sent d m) x ≡ false) (map (sent d) l)
All-sent d m [] h = tt
All-sent d m (x ∷ l) h = (sent_apart d m x h.0, All-sent d m l h.1)

sent-Exclusive : (d : Action → Dispatched) (l : Outbox) → Exclusive l → Exclusive (map (sent d) l)
sent-Exclusive d [] x = tt
sent-Exclusive d (m ∷ l) x = (All-sent d m l x.0, sent-Exclusive d l x.1)

-- Whatever the provider answers, no two executable messages are for the same type and key after
-- `publish_action` returned and `process_pending` ran, if none were before and the ids are distinct.
pub outbox-Exclusive :
    (d : Action → Dispatched) (a : Action) (message_id : String) (now : ℕ) (outbox : Outbox)
    {after : Outbox}
    → Exclusive outbox
    → publish_action a message_id now outbox ≡ ok after
    → DistinctMessages after
    → Exclusive after × Exclusive (process_pending d after)
outbox-Exclusive d a message_id now outbox {after} x h i =
    let kept = publish_action-Exclusive a message_id now outbox x h in
    (kept, rw (process_pending-sent d after i) (sent-Exclusive d after kept))
