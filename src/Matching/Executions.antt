-- ===== src/Matching/Executions.antt =====
-- How many executions a list of observations has (src/engine/execution_identity.py).
use financial_control_engine.Base.{
  ◌≤◌, String, ◌==◌, ◌≡◌, refl, sym, ap, ◌∙◌, Bool, true, false, not, List, [], ◌∷◌, ◌++◌, any,
  length, inl, inr, Bool-cases, arith, eq_iff,
}
use financial_control_engine.Core.Models.{Observation}
use financial_control_engine.Matching.Grouping.{
  ExecutionGroup, exec_id, add_observation, add_all, group_by_execution,
}

-- Some observation has another execution identity than the first.
abbrev pub has_several : List Observation → Bool
has_several [] = false
has_several (o ∷ os) = any (λ (x : Observation). not (exec_id x == exec_id o)) os

append_one {ℓ} :
    {A : Type ℓ} (xs : List A) (y : A) (ys : List A) → (xs ++ y ∷ []) ++ ys ≡ xs ++ y ∷ ys
append_one [] y ys = refl
append_one (x ∷ xs) y ys = ap (λ l. x ∷ l) (append_one xs y ys)

append_nil {ℓ} : {A : Type ℓ} (xs : List A) → xs ++ [] ≡ xs
append_nil [] = refl
append_nil (x ∷ xs) = ap (λ l. x ∷ l) (append_nil xs)

length-add_observation :
    (o : Observation) (gs : List ExecutionGroup) → length gs ≤ length (add_observation o gs)
unfolding add_observation
length-add_observation o [] = ground arith
length-add_observation o (g ∷ gs) = ground (arith, length-add_observation o gs)

length-add_all :
    (gs : List ExecutionGroup) (os : List Observation) → length gs ≤ length (add_all gs os)
unfolding add_all
length-add_all gs [] = omega arith
length-add_all gs (o ∷ os) =
    omega (arith, length-add_observation o gs, length-add_all (add_observation o gs) os)

abbrev pub group : String → List Observation → ExecutionGroup
group i os = record { execution_identity = i; observations = os }

add_all_same :
    (i : String) (xs os : List Observation)
    → any (λ (x : Observation). not (exec_id x == i)) os ≡ false
    → add_all (group i xs ∷ []) os ≡ group i (xs ++ os) ∷ []
unfolding add_all
add_all_same i xs [] h = rw (append_nil xs) refl
add_all_same i xs (o ∷ os) h = elim (Bool-cases (exec_id o == i)) [
  | inr e ↦ absurd (cc (rw e at h))
  | inl e ↦
      let k : i ≡ exec_id o = sym ((eq_iff (exec_id o) i).0 e) in
      rw ((eq_iff i (exec_id o)).1 k) (
        add_all_same i (xs ++ o ∷ []) os (rw e at h)
        ∙ ap (λ l. group i l ∷ []) (append_one xs o os))
]

-- At least two groups.
abbrev pub AtLeastTwo : List ExecutionGroup → Type 0
AtLeastTwo gs =
    (g : ExecutionGroup) × ((h : ExecutionGroup) × ((rest : List ExecutionGroup) × (gs
          ≡ g ∷ h ∷ rest)))

two_of_length : (gs : List ExecutionGroup) → 2 ≤ length gs → AtLeastTwo gs
two_of_length [] h = absurd (omega (arith, h))
two_of_length (g ∷ []) h = absurd (omega (arith, h))
two_of_length (g ∷ h ∷ gs) k = (g, (h, (gs, refl)))

length-add_all_other :
    (i : String) (xs os : List Observation)
    → any (λ (x : Observation). not (exec_id x == i)) os ≡ true
    → 2 ≤ length (add_all (group i xs ∷ []) os)
unfolding add_all
length-add_all_other i xs [] h = cc
length-add_all_other i xs (o ∷ os) h = elim (Bool-cases (exec_id o == i)) [
  | inl e ↦
      let k : i ≡ exec_id o = sym ((eq_iff (exec_id o) i).0 e) in
      rw ((eq_iff i (exec_id o)).1 k) (length-add_all_other i (xs ++ o ∷ []) os (rw e at h))
  | inr e ↦ elim (Bool-cases (i == exec_id o)) [
    | inl g ↦ absurd (cc ((eq_iff (exec_id o) i).1 (sym ((eq_iff i (exec_id o)).0 g)), e))
    | inr g ↦ rw g (
        length-add_all
          (group i xs ∷ record { execution_identity = exec_id o; observations = o ∷ [] } ∷ []) os)
  ]
]

-- Observations of one execution are grouped as they are.
pub group_same :
    (o : Observation) (os : List Observation)
    → has_several (o ∷ os) ≡ false
    → group_by_execution (o ∷ os) ≡ group (exec_id o) (o ∷ os) ∷ []
unfolding group_by_execution
group_same o os h = add_all_same (exec_id o) (o ∷ []) os h

-- Observations of several executions are in at least two groups.
pub group_several :
    (os : List Observation) → has_several os ≡ true → AtLeastTwo (group_by_execution os)
unfolding group_by_execution
group_several [] h = cc
group_several (o ∷ os) h =
    two_of_length (add_all (group (exec_id o) (o ∷ []) ∷ []) os)
      (length-add_all_other (exec_id o) (o ∷ []) os h)
