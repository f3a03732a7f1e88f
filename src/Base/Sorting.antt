-- ===== src/Base/Sorting.antt =====
-- Stable sorting by insertion, by a test of what may stand before what.
use Prim.Native.Nat.{ℕ, zero, suc}
use mathlib.Core.Path.{◌≡◌, refl, sym, subst}
use mathlib.Core.Logic.{inl, inr}
use mathlib.Core.Bool.{Bool, true}
use mathlib.Core.List.{List, [], ◌∷◌, Memᴰ, map}
use financial_control_engine.Base.Tests.{if◌then◌else◌, Bool-cases}
use financial_control_engine.Base.Lists.{All, keep}

module _ {ℓ} {A : Type ℓ} (before : A → A → Bool) where
  abbrev pub insert_by : A → List A → List A
  insert_by x [] = x ∷ []
  insert_by x (y ∷ ys) = if before x y then x ∷ y ∷ ys else y ∷ insert_by x ys

  abbrev pub sort_by : List A → List A
  sort_by [] = []
  sort_by (x ∷ xs) = insert_by x (sort_by xs)

module _ {ℓ κ} {A : Type ℓ} (before : A → A → Bool) (P : A → Type κ) where
  pub All-insert_by : (x : A) (l : List A) → P x → All P l → All P (insert_by before x l)
  All-insert_by x [] h hs = (h, tt)
  All-insert_by x (y ∷ ys) h hs = elim (Bool-cases (before x y)) [
    | inl e ↦ rw e (h, hs)
    | inr e ↦ rw e (hs.0, All-insert_by x ys h hs.1)
  ]

  All-inserted_by : (x : A) (l : List A) → All P (insert_by before x l) → P x × All P l
  All-inserted_by x [] h = h
  All-inserted_by x (y ∷ ys) h = elim (Bool-cases (before x y)) [
    | inl e ↦ rw e at h
    | inr e ↦
        let k : P y × All P (insert_by before x ys) = rw e at h in
        let (a, b) = All-inserted_by x ys k.1 in (a, (k.0, b))
  ]

  pub All-sort_by : (l : List A) → All P l → All P (sort_by before l)
  All-sort_by [] h = tt
  All-sort_by (x ∷ xs) h = All-insert_by x (sort_by before xs) h.0 (All-sort_by xs h.1)

  pub All-sorted_by : (l : List A) → All P (sort_by before l) → All P l
  All-sorted_by [] h = tt
  All-sorted_by (x ∷ xs) h =
      let (a, b) = All-inserted_by x (sort_by before xs) h in (a, All-sorted_by xs b)

pub All-map {ℓ κ ι} :
    {A : Type ℓ} {P : A → Type κ} {Q : A → Type ι} (f : (x : A) → P x → Q x) (l : List A)
    → All P l
    → All Q l
All-map f [] h = tt
All-map f (x ∷ xs) h = (f x h.0, All-map f xs h.1)

pub All-Memᴰ {ℓ} : {A : Type ℓ} (l : List A) → All (λ x. Memᴰ x l) l
All-Memᴰ [] = tt
All-Memᴰ (x ∷ xs) = (Memᴰ.head refl, All-map (λ y m. Memᴰ.tail m) xs (All-Memᴰ xs))

pub member_all {ℓ κ} : {A : Type ℓ} (P : A → Type κ) (l : List A) {x : A} → Memᴰ x l → All P l → P x
member_all P [] m h = elim m [ ]
member_all P (y ∷ ys) (Memᴰ.head e) h = subst P (sym e) h.0
member_all P (y ∷ ys) (Memᴰ.tail m) h = member_all P ys m h.1

module _ {ℓ} {A : Type ℓ} (p : A → Bool) where
  pub All-keep {κ} : (P : A → Type κ) (l : List A) → All P l → All P (keep p l)
  All-keep P [] h = tt
  All-keep P (x ∷ xs) h = elim (Bool-cases (p x)) [
    | inl e ↦ rw e (h.0, All-keep P xs h.1)
    | inr e ↦ rw e (All-keep P xs h.1)
  ]

  -- What holds of all that is kept.
  pub All-kept {κ} :
      (P : A → Type κ) (l : List A) → All P (keep p l) → All (λ x. p x ≡ true → P x) l
  All-kept P [] h = tt
  All-kept P (x ∷ xs) h = elim (Bool-cases (p x)) [
    | inl e ↦ let k : P x × All P (keep p xs) = rw e at h in ((λ _. k.0), All-kept P xs k.1)
    | inr e ↦ ((λ t. cc (e, t)), All-kept P xs (rw e at h))
  ]

  -- All that is kept passes the test.
  pub kept_pass : (l : List A) → All (λ x. p x ≡ true) (keep p l)
  kept_pass [] = tt
  kept_pass (x ∷ xs) = elim (Bool-cases (p x)) [
    | inl e ↦ rw e (e, kept_pass xs)
    | inr e ↦ rw e (kept_pass xs)
  ]

-- `xs[:n]`
abbrev pub take {ℓ} : {A : Type ℓ} → ℕ → List A → List A
take zero xs = []
take (suc n) [] = []
take (suc n) (x ∷ xs) = x ∷ take n xs

pub All-take {ℓ κ} : {A : Type ℓ} (P : A → Type κ) (n : ℕ) (l : List A) → All P l → All P (take n l)
All-take P zero l h = tt
All-take P (suc n) [] h = tt
All-take P (suc n) (x ∷ xs) h = (h.0, All-take P n xs h.1)

pub All-mapped {ℓ κ ι} :
    {A : Type ℓ} {B : Type κ} (P : B → Type ι) (f : A → B) (l : List A)
    → All (λ x. P (f x)) l
    → All P (map f l)
All-mapped P f [] h = tt
All-mapped P f (x ∷ xs) h = (h.0, All-mapped P f xs h.1)
