-- ===== src/Mnftl/Places.antt =====
-- The slot of a logical page in the mapping tables of mn_ftl.cpp.
use native.Mathlib.Nat.{mod-eq_of_lt}
use mathlib.Core.Bool.{false≢true}
use mnftl.Base.{
  ℕ, ◌+◌, ◌*◌, ◌/◌, ◌%◌, ◌^◌, ◌<◌, ◌≡◌, sym, ap, ◌∙◌, inl, inr, Bool, true, ◌&&◌, arith, ◌==◌,
  ==_iff, Bool-cases,
}
use mnftl.Config.{Config}
use mnftl.Mnftl.{q_of, lbn_of, pmd_index_of, map_slot_of}

-- The logical pages whose block numbers fit 32 bits.
abbrev pub Addressable : Config → ℕ → Type 0
Addressable c lpn = lpn < 2 ^ 32 * c.block_size

abbrev pub same_place : Config → ℕ → ℕ → Bool
same_place c a b =
    (lbn_of c a == lbn_of c b)
    && (pmd_index_of c a == pmd_index_of c b)
    && (map_slot_of c a == map_slot_of c b)

join_split : (n m : ℕ) → (n / m) * m + n % m ≡ n
join_split n m = omega arith

lbn_exact :
    (c : Config) (a : ℕ) → 0 < c.block_size → Addressable c a → lbn_of c a ≡ a / c.block_size
lbn_exact c a p h = mod-eq_of_lt (below a (2 ^ 32) c.block_size p h)
  where
    below : (a n m : ℕ) → 0 < m → a < n * m → a / m < n
    below a n m h k = grind arith

-- The slot of a logical page determines it.
pub place_injective :
    (c : Config) (a b : ℕ)
    → 0 < c.block_size
    → Addressable c a
    → Addressable c b
    → lbn_of c a ≡ lbn_of c b
    → pmd_index_of c a ≡ pmd_index_of c b
    → map_slot_of c a ≡ map_slot_of c b
    → a ≡ b
place_injective c a b p ha hb el ei es =
    let q = q_of c in
    let block : a / c.block_size ≡ b / c.block_size =
      sym (lbn_exact c a p ha) ∙ el ∙ lbn_exact c b p hb in
    let offset : a % c.block_size ≡ b % c.block_size =
      sym (join_split (a % c.block_size) q)
      ∙ ap (λ (n : ℕ). n * q + map_slot_of c a) ei
      ∙ ap (λ (n : ℕ). pmd_index_of c b * q + n) es
      ∙ join_split (b % c.block_size) q in
    sym (join_split a c.block_size)
    ∙ ap (λ (n : ℕ). n * c.block_size + a % c.block_size) block
    ∙ ap (λ (n : ℕ). b / c.block_size * c.block_size + n) offset
    ∙ join_split b c.block_size

-- With a page at least in a block, two addressable logical pages have the same logical block, table
-- and slot just if they are the same page.
pub same_place-eq :
    (c : Config) (a b : ℕ)
    → 0 < c.block_size
    → Addressable c a
    → Addressable c b
    → same_place c a b ≡ (a == b)
same_place-eq c a b p ha hb = elim (Bool-cases (same_place c a b)) [
  | inl e ↦ ground (arith, place_injective c a b p ha hb)
  | inr e ↦ elim (Bool-cases (a == b)) [
    | inl same ↦
        let eq : a ≡ b = (==_iff a b).0 same in
        absurd (false≢true (sym e ∙ ap (same_place c a) (sym eq) ∙ self))
    | inr other ↦ e ∙ sym other
  ]
]
  where
    self : same_place c a a ≡ true
    self = ground arith
