-- ===== src/Matching/Latest.antt =====
-- The latest observations that the controls of src/engine/reconciliation_controls.py compare.
use mathlib.Core.List.{Memᴰ}
use financial_control_engine.Base.{
  String, ◌≡◌, refl, true, false, List, [], ◌∷◌, some, inl, inr, All, Bool-cases, arith,
  some_injective,
}
use financial_control_engine.Base.Int.{ℤ, ◌≤ℤ◌, leb_ℤ, int_laws}
use financial_control_engine.Base.Sorting.{
  insert_by, sort_by, All-insert_by, All-sort_by, All-sorted_by, All-map, All-Memᴰ, member_all,
}
use financial_control_engine.Core.Models.{Observation}
use financial_control_engine.Matching.Grouping.{seen_at, not_later, last, get_latest_observation}

-- Each is not later than those behind it.
abbrev Ascending : List Observation → Type 0
Ascending [] = Unit
Ascending (x ∷ xs) = All (λ y. seen_at x ≤ℤ seen_at y) xs × Ascending xs

le_step : (a b c : ℤ) → a ≤ℤ b → b ≤ℤ c → a ≤ℤ c
le_step a b c h k = omega int_laws

le_itself : (a : ℤ) → a ≤ℤ a
le_itself a = omega int_laws

before_or_after : (a b : ℤ) → (leb_ℤ a b ≡ true → a ≤ℤ b) × (leb_ℤ a b ≡ false → b ≤ℤ a)
before_or_after a b = (λ h. ground arith, λ h. ground arith)

insert_by-Ascending :
    (o : Observation) (l : List Observation) → Ascending l → Ascending (insert_by not_later o l)
insert_by-Ascending o [] d = (tt, tt)
insert_by-Ascending o (x ∷ xs) d = elim (Bool-cases (not_later o x)) [
  | inl e ↦
      let low = (before_or_after (seen_at o) (seen_at x)).0 e in
      rw e ((low, All-map (λ y h. le_step (seen_at o) (seen_at x) (seen_at y) low h) xs d.0), d)
  | inr e ↦ rw e (
    All-insert_by not_later (λ y. seen_at x ≤ℤ seen_at y) o xs
        ((before_or_after (seen_at o) (seen_at x)).1 e) d.0,
    insert_by-Ascending o xs d.1,
  )
]

sort_by-Ascending : (l : List Observation) → Ascending (sort_by not_later l)
sort_by-Ascending [] = tt
sort_by-Ascending (x ∷ xs) = insert_by-Ascending x (sort_by not_later xs) (sort_by-Ascending xs)

last-Ascending :
    (l : List Observation) {o : Observation}
    → Ascending l
    → last l ≡ some o
    → All (λ x. seen_at x ≤ℤ seen_at o) l × Memᴰ o l
last-Ascending [] a h = cc
last-Ascending (x ∷ []) {o} a h =
    let s : o ≡ x = some_injective h in rw s ((le_itself (seen_at x), tt), Memᴰ.head refl)
last-Ascending (x ∷ y ∷ ys) {o} a h =
    let (low, there) = last-Ascending (y ∷ ys) a.1 h in
    ((le_step (seen_at x) (seen_at y) (seen_at o) a.0.0 low.0, low), Memᴰ.tail there)

last-some : (x : Observation) (xs : List Observation) → (o : Observation) × (last (x ∷ xs) ≡ some o)
last-some x [] = (x, refl)
last-some x (y ∷ ys) = last-some y ys

insert_some :
    (o : Observation) (l : List Observation)
    → (x : Observation) × ((xs : List Observation) × (insert_by not_later o l ≡ x ∷ xs))
insert_some o [] = (o, ([], refl))
insert_some o (y ∷ ys) = elim (Bool-cases (not_later o y)) [
  | inl e ↦ (o, (y ∷ ys, rw e refl))
  | inr e ↦ (y, (insert_by not_later o ys, rw e refl))
]

-- A group that is not empty has a latest observation.
pub get_latest_observation-some :
    (i : String) (o : Observation) (os : List Observation)
    → (x : Observation) × (get_latest_observation
          (record { execution_identity = i; observations = o ∷ os })
        ≡ some x)
unfolding get_latest_observation
get_latest_observation-some i o os =
    let (x, (xs, is)) = insert_some o (sort_by not_later os) in rw is (last-some x xs)

-- The latest observation of a group is one of it, and none of it is later.
pub get_latest_observation_lem :
    (i : String) (l : List Observation) {o : Observation}
    → get_latest_observation (record { execution_identity = i; observations = l }) ≡ some o
    → Memᴰ o l × All (λ x. seen_at x ≤ℤ seen_at o) l
unfolding get_latest_observation
get_latest_observation_lem i l {o} h =
    let (low, there) = last-Ascending (sort_by not_later l) (sort_by-Ascending l) h in
    let inside = All-sort_by not_later (λ x. Memᴰ x l) l (All-Memᴰ l) in
    (
      member_all (λ x. Memᴰ x l) (sort_by not_later l) there inside,
      All-sorted_by not_later (λ x. seen_at x ≤ℤ seen_at o) l low,
    )
