-- ===== src/Flash/Wear/Choice.antt =====
-- Which part `update_wear_stats` picks, in a plane, a die, a package and the device alike.
use mnftl.Base.{
  ℕ, zero, suc, ◌+◌, ◌≤◌, ◌<◌, ◌≡◌, refl, ◌∙◌, ◌⊎◌, inl, inr, some, List, [], ◌∷◌, arith, ltb,
  ltb→lt, Bool-cases, get_elem?, All,
}
use mnftl.Flash.Wear.{max_index}

abbrev pub skip : ℕ → List ℕ → List ℕ
skip zero xs = xs
skip (suc n) [] = []
skip (suc n) (x ∷ xs) = skip n xs

-- The part that is picked: the last one with more erases left than the first part has, or the first
-- part where there is none.
abbrev pub Picked : ℕ → List ℕ → ℕ → Type 0
Picked most xs i =
    ((i ≡ 0) × All (λ x. x ≤ most) xs)
    ⊎ ((k x : ℕ) × (i ≡ suc k)
        × (get_elem? xs k ≡ some x)
        × (most < x)
        × All (λ y. y ≤ most) (skip (suc k) xs))

max_index_lem :
    (most index i : ℕ) (xs : List ℕ)
    → ((max_index most index i xs ≡ index) × All (λ x. x ≤ most) xs)
      ⊎ ((k x : ℕ) × (max_index most index i xs ≡ i + k)
          × (get_elem? xs k ≡ some x)
          × (most < x)
          × All (λ y. y ≤ most) (skip (suc k) xs))
unfolding max_index
max_index_lem most index i [] = inl (refl, tt)
max_index_lem most index i (x ∷ xs) = elim (Bool-cases (ltb most x)) [
  | inl q ↦ elim (max_index_lem most i (suc i) xs) [
    | inl (e, a) ↦ inr (zero, x, (rw q (e ∙ (omega arith))), refl, ltb→lt most x q, a)
    | inr (k, y, e, g, l, a) ↦ inr (suc k, y, (rw q (e ∙ (omega arith))), g, l, a)
  ]
  | inr q ↦ elim (max_index_lem most index (suc i) xs) [
    | inl (e, a) ↦ inl ((rw q e), (ground arith, a))
    | inr (k, y, e, g, l, a) ↦ inr (suc k, y, (rw q (e ∙ (omega arith))), g, l, a)
  ]
]

pub max_index-Picked : (most : ℕ) (xs : List ℕ) → Picked most xs (max_index most 0 1 xs)
max_index-Picked most xs = elim (max_index_lem most 0 1 xs) [
  | inl h ↦ inl h
  | inr (k, x, e, g, l, a) ↦ inr (k, x, (e ∙ (omega arith)), g, l, a)
]
