-- ===== src/Worker/Sent.antt =====
-- No idempotency key is sent twice by the runs of src/engine/worker.py, since the claim of the gate is
-- committed before the mutation is sent.
use financial_control_engine.Base.{
  ℕ, String, ◌==◌, ◌≡◌, refl, Bool, true, false, List, [], ◌∷◌, ◌++◌, any, ok, inl, inr, All,
  All-append, Bool-cases, arith, ok_injective, write_first, eq_iff, eq_refl,
}
use financial_control_engine.Base.Sorting.{All-map}
use financial_control_engine.Core.Models.{RecoveryIntent}
use financial_control_engine.Core.Actuation.{ActuationRecord}
use financial_control_engine.Governance.Gate.{is_taken, pending_record}
use financial_control_engine.Governance.Claims.{allowed_claims}
use financial_control_engine.Substrate.Actuations.{
  has_key_of, has_record_id, outcome_of, save_actuation,
}
use financial_control_engine.Worker.Runs.{World, Mutation}
use financial_control_engine.Worker.Services.{Services}
use financial_control_engine.Worker.Actuator.{mutation_of}
use financial_control_engine.Worker.Process.{Task, decide, request, process_investigation}
use financial_control_engine.Worker.Stages.{process-Keeps}
use financial_control_engine.Worker.Loop.{Worker, poll_and_process}
use financial_control_engine.Worker.Polling.{poll-Keeps}
use financial_control_engine.Worker.Logic.{Keeps, meets_world}
use financial_control_engine.Worker.Steady.{Over}
use financial_control_engine.Worker.Sending.{Property, Sends, Sends-Steps}

abbrev pub same_key : Mutation → Mutation → Bool
same_key x y = y.idempotency_key == x.idempotency_key

-- No two of the mutations have the same key.
abbrev pub SentOnce : List Mutation → Type 0
SentOnce [] = Unit
SentOnce (x ∷ xs) = All (λ y. same_key x y ≡ false) xs × SentOnce xs

abbrev pub is_claimed : List ActuationRecord → Mutation → Bool
is_claimed records m = any (has_key_of m.idempotency_key) records

-- Each mutation was sent once, after a record with its key had been committed.
abbrev pub Claimed : Property
Claimed m a p = SentOnce m × All (λ (x : Mutation). is_claimed a x ≡ true) m

any_more : {A : Type 0} (p : A → Bool) (xs ys : List A) → any p xs ≡ true → any p (xs ++ ys) ≡ true
any_more p [] ys h = cc
any_more p (x ∷ xs) ys h = ground (arith, any_more p xs ys)

pub any_last :
    {A : Type 0} (p : A → Bool) (xs : List A) (y : A) → p y ≡ true → any p (xs ++ y ∷ []) ≡ true
any_last p [] y h = ground arith
any_last p (x ∷ xs) y h = ground (arith, any_last p xs y h)

kept_key :
    (key : String) (x : ActuationRecord) (a : List ActuationRecord)
    → any (has_key_of key) (write_first (has_record_id x.record_id) (outcome_of x) a)
      ≡ any (has_key_of key) a
kept_key key x [] = refl
kept_key key x (r ∷ a) = elim (Bool-cases (has_record_id x.record_id r)) [
  | inl e ↦ rw e refl
  | inr e ↦ rw (e, kept_key key x a) refl
]

pub saved_key :
    (key : String) (x : ActuationRecord) (a b : List ActuationRecord)
    → save_actuation x a ≡ ok b
    → any (has_key_of key) a ≡ true
    → any (has_key_of key) b ≡ true
unfolding save_actuation
saved_key key x a b h k = elim (Bool-cases (any (has_record_id x.record_id) a)) [
  | inl e ↦ rw (ok_injective (rw e at h), kept_key key x a) k
  | inr e ↦ elim (Bool-cases (any (has_key_of x.idempotency_key) a)) [
    | inl g ↦ absurd (cc (rw (e, g) at h))
    | inr g ↦ rw (ok_injective (rw (e, g) at h)) (any_more (has_key_of key) a (x ∷ []) k)
  ]
]

append-SentOnce :
    (m : Mutation) (l : List Mutation)
    → All (λ x. same_key x m ≡ false) l
    → SentOnce l
    → SentOnce (l ++ m ∷ [])
append-SentOnce m [] h k = (tt, tt)
append-SentOnce m (x ∷ xs) h k =
    (All-append (λ y. same_key x y ≡ false) xs (m ∷ []) k.0 (h.0, tt), append-SentOnce m xs h.1 k.1)

taken_key :
    (x : ActuationRecord) (a : List ActuationRecord)
    → any (is_taken x) a ≡ false
    → any (has_key_of x.idempotency_key) a ≡ false
taken_key x [] h = refl
taken_key x (r ∷ a) h = ground (arith, taken_key x a)

unsent_key :
    (x : ActuationRecord) (a : List ActuationRecord) (y : Mutation) (i : RecoveryIntent)
    → any (is_taken x) a ≡ false
    → is_claimed a y ≡ true
    → same_key y (mutation_of i x) ≡ false
unsent_key x a y i h k = elim (Bool-cases (x.idempotency_key == y.idempotency_key)) [
  | inr e ↦ e
  | inl e ↦
      let same = (eq_iff x.idempotency_key y.idempotency_key).0 e in
      absurd (cc (rw same at (taken_key x a h), k))
]

-- After the claim: the key is recorded, and not sent yet.
claimed_by : Services → Task → RecoveryIntent → ℕ → Property
claimed_by s t i n m a p =
    let x = mutation_of i (pending_record s.encoders (request s t i n)) in
    Claimed m a p × (is_claimed a x ≡ true) × All (λ y. same_key y x ≡ false) m

claimed-Sends :
    (s : Services) (t : Task) (i : RecoveryIntent) → Sends s t i Claimed (claimed_by s t i) Claimed
unfolding claimed_by
claimed-Sends s t i = record {
  unsent = λ m a p h. h;
  claims = λ n m db h g.
      let x = pending_record s.encoders (request s t i n) in
      let c = allowed_claims s.encoders (request s t i n) db g in
      (
        (
          h.0,
          All-map (λ y k. any_more (has_key_of y.idempotency_key) db.actuations (x ∷ []) k) m h.1,
        ),
        any_last (has_key_of x.idempotency_key) db.actuations x (eq_refl x.idempotency_key),
        All-map (λ y k. unsent_key x db.actuations y i c.fresh k) m h.1,
      );
  claimed = λ n m a p h. h.0;
  sends = λ n m a p h.
      let x = mutation_of i (pending_record s.encoders (request s t i n)) in
      (
        append-SentOnce x m h.2 h.0.0,
        All-append (λ (y : Mutation). is_claimed a y ≡ true) m (x ∷ []) h.0.1 (h.1, tt),
      );
  records =
      λ x m a b p h save. (h.0, All-map (λ y k. saved_key y.idempotency_key x a b save k) m h.1);
}

investigation-Keeps : (s : Services) (t : Task) → Keeps (Over Claimed) (process_investigation s t)
investigation-Keeps s t = process-Keeps (λ start.
    Sends-Steps {T = Claimed} {V = Claimed} (λ m a p k. k)
      (λ c l e o k n. (claimed_by s t (decide s t c l), claimed-Sends s t (decide s t c l))))

-- A poll by a worker, with what it is answered.
pub record Poll : Type 0 where
  pub services : Services
  pub worker : Worker
  pub limit : ℕ

-- The polls of workers, one after the other.
unfoldable pub polls : List Poll → World → World
unfolding poll_and_process
polls [] w = w
polls (x ∷ xs) w = polls xs (poll_and_process x.services x.worker x.limit w).1

-- Whatever the polls of any workers are answered, and however they end, no idempotency key is sent to
-- an external system twice, and each key that was sent is that of an actuation record, if both held
-- before.
pub polls-Claimed : (xs : List Poll) (w : World) → Over Claimed w → Over Claimed (polls xs w)
unfolding polls
polls-Claimed [] w h = h
polls-Claimed (x ∷ xs) w h = polls-Claimed xs (poll_and_process x.services x.worker x.limit w).1 (
    meets_world (poll-Keeps Claimed x.services x.worker (investigation-Keeps x.services) x.limit) w
      h)
