-- ===== src/Base/Lists.antt =====
-- Lists over the native numbers, and predicates on lists by recursion.
use Prim.Native.Nat.{ℕ, suc}
use mathlib.Core.Path.{◌≡◌, refl}
use mathlib.Core.Logic.{inl, inr}
use mathlib.Core.Bool.{Bool, true, false, ◌||◌}
use mathlib.Core.Option.{Option, none, some}
use mathlib.Core.List.{List, [], ◌∷◌, ◌++◌}
use native.Mathlib.Omega.{arith}
use financial_control_engine.Base.Tests.{if◌then◌else◌, Bool-cases}

module _ {ℓ} {A : Type ℓ} where
  abbrev pub length : List A → ℕ
  length [] = 0
  length (x ∷ xs) = suc (length xs)

  -- `[x for x in xs if p(x)]`
  abbrev pub keep : (A → Bool) → List A → List A
  keep p [] = []
  keep p (x ∷ xs) = if p x then x ∷ keep p xs else keep p xs

  -- `any(p(x) for x in xs)`
  abbrev pub any : (A → Bool) → List A → Bool
  any p [] = false
  any p (x ∷ xs) = p x || any p xs

  -- `next((x for x in xs if p(x)), None)`
  abbrev pub find : (A → Bool) → List A → Option A
  find p [] = none
  find p (x ∷ xs) = if p x then some x else find p xs

  abbrev pub All {κ} : (A → Type κ) → List A → Type κ
  All P [] = Unit
  All P (x ∷ xs) = P x × All P xs

  pub All-append {κ} : (P : A → Type κ) (xs ys : List A) → All P xs → All P ys → All P (xs ++ ys)
  All-append P [] ys hx hy = hy
  All-append P (x ∷ xs) ys hx hy = (hx.0, All-append P xs ys hx.1 hy)

  pub find-some : (p : A → Bool) (xs : List A) (x : A) → find p xs ≡ some x → p x ≡ true
  find-some p [] x h = ground arith
  find-some p (y ∷ ys) x h = ground (arith, find-some p ys x)

  -- Write the first element that passes a test.
  abbrev pub write_first : (A → Bool) → (A → A) → List A → List A
  write_first p f [] = []
  write_first p f (x ∷ xs) = if p x then f x ∷ xs else x ∷ write_first p f xs

  pub find-append :
      (q : A → Bool) (l m : List A) {r : A} → find q l ≡ some r → find q (l ++ m) ≡ some r
  find-append q [] m h = cc
  find-append q (x ∷ xs) m h = elim (Bool-cases (q x)) [
    | inl e ↦ rw e (rw e at h)
    | inr e ↦ rw e (find-append q xs m (rw e at h))
  ]

  pub find-last :
      (q : A → Bool) (l : List A) (x : A)
      → find q l ≡ none
      → q x ≡ true
      → find q (l ++ x ∷ []) ≡ some x
  find-last q [] x n h = rw h refl
  find-last q (y ∷ ys) x n h = elim (Bool-cases (q y)) [
    | inl e ↦ absurd (cc (rw e at n))
    | inr e ↦ rw e (find-last q ys x (rw e at n) h)
  ]
