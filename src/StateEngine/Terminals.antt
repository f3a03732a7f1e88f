-- ===== src/StateEngine/Terminals.antt =====
-- Two different terminal statuses among the observations (src/state/engine.py, `seen_terminals`).
use financial_control_engine.Base.{
  ◌≡◌, refl, ◌≢◌, inl, inr, subst, Bool, true, List, [], ◌∷◌, Option, none, some, ok, any,
  Bool-cases, arith, ltb, length, String, ◌==◌, eq_iff, eq_refl, upper, if◌then◌else◌,
}
use mathlib.Core.List.{Memᴰ}
use financial_control_engine.Base.Int.{ℤ}
use financial_control_engine.StateEngine.Models.{
  contradicted, EntityType, ProviderObservation, ReconstructedState,
}
use financial_control_engine.StateEngine.Ordering.{insert_observation, sort_observations, key_le}
use financial_control_engine.StateEngine.Reconstruct.{
  is_terminal_text, add_text, add_terminal, terminals_of, scope_error, conclude, reconstruct_state,
}
use financial_control_engine.StateEngine.Execution.{after_scope_ok}

-- The terminal status that an observation reports, in capitals.
abbrev pub terminal_text : Option String → Option String
terminal_text none = none
terminal_text (some s) = if is_terminal_text (upper s) then some (upper s) else none

abbrev holds : String → List String → Bool
holds s = any (λ t. t == s)

add_text-holds : (s t : String) (l : List String) → holds s l ≡ true → holds s (add_text t l) ≡ true
add_text-holds s t l h = elim (Bool-cases (holds t l)) [
  | inl e ↦ rw e h
  | inr e ↦ rw e (ground arith)
]

add_terminal-holds :
    (s : String) (o : Option String) (l : List String)
    → holds s l ≡ true
    → holds s (add_terminal o l) ≡ true
add_terminal-holds s none l h = h
add_terminal-holds s (some t) l h = elim (Bool-cases (is_terminal_text (upper t))) [
  | inl e ↦ rw e (add_text-holds s (upper t) l h)
  | inr e ↦ rw e h
]

add_text_self : (s : String) (l : List String) → holds s (add_text s l) ≡ true
add_text_self s l = elim (Bool-cases (holds s l)) [
  | inl e ↦ rw e e
  | inr e ↦ rw e (ground (arith, eq_refl s))
]

add_terminal_self :
    (o : Option String) {s : String} (l : List String)
    → terminal_text o ≡ some s
    → holds s (add_terminal o l) ≡ true
add_terminal_self none l h = cc
add_terminal_self (some t) {s} l h = elim (Bool-cases (is_terminal_text (upper t))) [
  | inl e ↦ let f : upper t ≡ s = cc (rw e at h) in rw (e, ← f) (add_text_self (upper t) l)
  | inr e ↦ cc (rw e at h)
]

terminals_of-holds :
    (s : String) (seen : List String) (l : List ProviderObservation)
    → holds s seen ≡ true
    → holds s (terminals_of seen l) ≡ true
unfolding terminals_of
terminals_of-holds s seen [] h = h
terminals_of-holds s seen (o ∷ os) h =
    terminals_of-holds s (add_terminal o.payload.status seen) os
      (add_terminal-holds s o.payload.status seen h)

terminals_of-mem :
    (a : ProviderObservation) {s : String} (seen : List String) {l : List ProviderObservation}
    → Memᴰ a l
    → terminal_text a.payload.status ≡ some s
    → holds s (terminals_of seen l) ≡ true
unfolding terminals_of
terminals_of-mem a {s} seen (Memᴰ.head {x} {xs} e) h =
    terminals_of-holds s (add_terminal x.payload.status seen) xs (
      add_terminal_self x.payload.status seen
        (subst (λ (o : ProviderObservation). terminal_text o.payload.status ≡ some s) e h))
terminals_of-mem a seen (Memᴰ.tail {x} {xs} m) h =
    terminals_of-mem a (add_terminal x.payload.status seen) m h

-- A list that holds two different texts is longer than one.
two_held :
    (s t : String) (l : List String)
    → s ≢ t
    → holds s l ≡ true
    → holds t l ≡ true
    → ltb 1 (length l) ≡ true
two_held s t [] n hs ht = cc
two_held s t (x ∷ []) n hs ht = ground (arith, eq_iff x s, eq_iff x t)
two_held s t (x ∷ y ∷ l) n hs ht = ground arith

-- Membership in a list with one element moved back behind its head.
mem_behind :
    {a x y : ProviderObservation} {ys zs : List ProviderObservation}
    → (Memᴰ a (x ∷ ys) → Memᴰ a zs)
    → Memᴰ a (x ∷ y ∷ ys)
    → Memᴰ a (y ∷ zs)
mem_behind f (Memᴰ.head e) = Memᴰ.tail (f (Memᴰ.head e))
mem_behind f (Memᴰ.tail (Memᴰ.head e)) = Memᴰ.head e
mem_behind f (Memᴰ.tail (Memᴰ.tail k)) = Memᴰ.tail (f (Memᴰ.tail k))

mem-insert_observation :
    (x : ProviderObservation) {a : ProviderObservation} (l : List ProviderObservation)
    → Memᴰ a (x ∷ l)
    → Memᴰ a (insert_observation x l)
unfolding insert_observation
mem-insert_observation x [] m = m
mem-insert_observation x (y ∷ ys) m = elim (Bool-cases (key_le x y)) [
  | inl e ↦ rw e m
  | inr e ↦ rw e (mem_behind (mem-insert_observation x ys) m)
]

mem-sort_observations :
    {a : ProviderObservation} {l : List ProviderObservation}
    → Memᴰ a l
    → Memᴰ a (sort_observations l)
unfolding sort_observations
mem-sort_observations (Memᴰ.head {x} {xs} e) =
    mem-insert_observation x (sort_observations xs) (Memᴰ.head e)
mem-sort_observations (Memᴰ.tail {x} {xs} m) =
    mem-insert_observation x (sort_observations xs) (Memᴰ.tail (mem-sort_observations m))

not_mem_nil : {a : ProviderObservation} → ¬ Memᴰ a []
not_mem_nil m = elim m [ ]

conclude_clash :
    (t : EntityType) (i : String) (at : ℤ) (l : List ProviderObservation)
    → ltb 1 (length (terminals_of [] l)) ≡ true
    → ((conclude t i at l).knowledge_state ≡ contradicted) × ((conclude t i at l).execution ≡ none)
unfolding conclude
conclude_clash t i at l h = rw h (refl, refl)

-- If two of the observations report different terminal statuses, in whatever order they arrived, the
-- reconstructed state is CONTRADICTED and says nothing of execution.
pub terminals_contradicted :
    (entity_type : EntityType) (entity_id : String) (observations : List ProviderObservation)
    (at : ℤ) {r : ReconstructedState} (a b : ProviderObservation) {s t : String}
    → reconstruct_state entity_type entity_id observations at ≡ ok r
    → Memᴰ a observations
    → Memᴰ b observations
    → terminal_text a.payload.status ≡ some s
    → terminal_text b.payload.status ≡ some t
    → s ≢ t
    → (r.knowledge_state ≡ contradicted) × (r.execution ≡ none)
unfolding reconstruct_state
terminals_contradicted entity_type entity_id observations at {r} a b {s} {t} done ma mb ha hb n =
    elim (after_scope_ok (scope_error entity_type entity_id observations) entity_type entity_id
      observations at done).1 [
        | inl (e, f) ↦ absurd (not_mem_nil (subst (Memᴰ a) e ma))
        | inr e ↦
            let held_s = terminals_of-mem a [] (mem-sort_observations ma) ha in
            let held_t = terminals_of-mem b [] (mem-sort_observations mb) hb in
            rw e (
              conclude_clash entity_type entity_id at (sort_observations observations)
                (two_held s t _ n held_s held_t))
      ]
