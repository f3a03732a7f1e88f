-- ===== src/Base/Compare.antt =====
-- Lawful three-way comparisons: numbers, integers and texts in their order, and the order of tuples.
use Prim.Native.Nat.{◌+◌, compare, Ordering}
use Prim.Native.String.{String, compare as compare_text}
use Prim.Native.String.compare
use mathlib.Core.Path.{◌≡◌}
use native.Mathlib.Omega.{arith}
use text.Mathlib.TextEquality.{path_by_compare}
use financial_control_engine.Base.Int.{ℤ, pos_part, neg_part}

abbrev pub compare_ℤ : ℤ → ℤ → Ordering
compare_ℤ a b = compare (pos_part a + neg_part b) (pos_part b + neg_part a)

-- The second answer decides where the first is "equal".
abbrev pub or_else : Ordering → Ordering → Ordering
or_else Ordering.lt o = Ordering.lt
or_else Ordering.eq o = o
or_else Ordering.gt o = Ordering.gt

abbrev pub flip : Ordering → Ordering
flip Ordering.lt = Ordering.gt
flip Ordering.eq = Ordering.eq
flip Ordering.gt = Ordering.lt

pub record IsLawful {ℓ} {A : Type ℓ} (c : A → A → Ordering) : Type ℓ where
  pub swaps : (x y : A) → c y x ≡ flip (c x y)
  pub chains : (x y z : A) → c x y ≡ Ordering.lt → c y z ≡ Ordering.lt → c x z ≡ Ordering.lt
  pub agrees : (x y z : A) → c x y ≡ Ordering.eq → c x z ≡ c y z

pub compare_ℤ-IsLawful : IsLawful compare_ℤ
compare_ℤ-IsLawful = record {
  swaps = λ x y. ground arith;
  chains = λ x y z h k. ground arith;
  agrees = λ x y z h. ground arith;
}

compare_text_swaps : (s t : String) → compare_text t s ≡ flip (compare_text s t)
compare_text_swaps String.[] String.[] = ground (arith, compare.nil-nil)
compare_text_swaps String.[] (String.◌∷◌ d t) =
    ground (arith, compare.nil-cons d t, compare.cons-nil d t)
compare_text_swaps (String.◌∷◌ c s) String.[] =
    ground (arith, compare.nil-cons c s, compare.cons-nil c s)
compare_text_swaps (String.◌∷◌ c s) (String.◌∷◌ d t) =
    ground (arith, compare.cons-cons c d s t, compare.cons-cons d c t s, compare_text_swaps s t)

compare_text_chains :
    (s t u : String)
    → compare_text s t ≡ Ordering.lt
    → compare_text t u ≡ Ordering.lt
    → compare_text s u ≡ Ordering.lt
compare_text_chains String.[] String.[] u h k = k
compare_text_chains String.[] (String.◌∷◌ d t) String.[] h k = ground (arith, compare.cons-nil d t)
compare_text_chains String.[] (String.◌∷◌ d t) (String.◌∷◌ e u) h k =
    ground (arith, compare.nil-cons e u)
compare_text_chains (String.◌∷◌ c s) String.[] u h k = ground (arith, compare.cons-nil c s)
compare_text_chains (String.◌∷◌ c s) (String.◌∷◌ d t) String.[] h k =
    ground (arith, compare.cons-nil d t)
compare_text_chains (String.◌∷◌ c s) (String.◌∷◌ d t) (String.◌∷◌ e u) h k = ground (
  arith,
  compare.cons-cons c d s t,
  compare.cons-cons d e t u,
  compare.cons-cons c e s u,
  compare_text_chains s t u,
)

compare_text_agrees :
    (s t u : String) → compare_text s t ≡ Ordering.eq → compare_text s u ≡ compare_text t u
compare_text_agrees s t u h = rw (path_by_compare s t h)

pub compare_text-IsLawful : IsLawful compare_text
compare_text-IsLawful = record {
  swaps = compare_text_swaps;
  chains = compare_text_chains;
  agrees = compare_text_agrees;
}

module _ {ℓ} {A : Type ℓ} where
  -- The order of pairs.
  abbrev pub lexicographic : (A → A → Ordering) → (A → A → Ordering) → A → A → Ordering
  lexicographic c d x y = or_else (c x y) (d x y)

  pub agrees_right :
      {c : A → A → Ordering} → IsLawful c → (x y z : A) → c y z ≡ Ordering.eq → c x y ≡ c x z
  agrees_right h x y z e = ground (arith, h.swaps y x, h.swaps z x, h.agrees y z x)

  pub lexicographic-IsLawful :
      {c d : A → A → Ordering} → IsLawful c → IsLawful d → IsLawful (lexicographic c d)
  lexicographic-IsLawful {c} {d} h k = record {
    swaps = λ x y. ground (arith, h.swaps x y, k.swaps x y);
    chains = λ x y z p q.
        ground (arith, h.chains x y z, k.chains x y z, h.agrees x y z, agrees_right h x y z);
    agrees = λ x y z e. ground (arith, h.agrees x y z, k.agrees x y z);
  }

-- A comparison of keys compares what the keys are taken from.
pub on_key-IsLawful {ℓ κ} :
    {A : Type ℓ} {B : Type κ} (f : A → B) {c : B → B → Ordering}
    → IsLawful c
    → IsLawful (λ x y. c (f x) (f y))
on_key-IsLawful f h = record {
  swaps = λ x y. h.swaps (f x) (f y);
  chains = λ x y z. h.chains (f x) (f y) (f z);
  agrees = λ x y z. h.agrees (f x) (f y) (f z);
}
