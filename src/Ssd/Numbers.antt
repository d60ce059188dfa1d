-- ===== src/Ssd/Numbers.antt =====
-- The blocks of the device by their numbers: the pages of block `n` have the linear page numbers from
-- `n` times the block size on.
use mnftl.Base.{
  ℕ, ◌+◌, ◌*◌, ◌/◌, ◌%◌, ◌<◌, ◌≡◌, sym, ap, ◌∙◌, inl, inr, Bool, true, ◌&&◌, arith, ◌==◌, ==_iff,
  Bool-cases, Run,
}
use native.Mathlib.Nat.{mod-eq_of_lt}
use mathlib.Core.Bool.{false≢true}
use mnftl.Config.{Config, IsSized, AddressValid}
use mnftl.Address.{Address, no_address, set_linear, set_linear_address}
use mnftl.Ssd.{Ssd}
use mnftl.Ssd.Returns.{ssd_count, in_ssd}

-- The first page of a block.
abbrev pub first_page : Config → ℕ → Address
first_page c n = set_linear c (n * c.block_size) no_address

abbrev pub blocks_of : Config → ℕ
blocks_of c = c.ssd_size * c.package_size * c.die_size * c.plane_size

-- How many pages of a block were written.
abbrev pub count_no : Config → ℕ → Ssd → Run ℕ
count_no c n d = ssd_count (first_page c n) d

block_of_page : (n k m : ℕ) → k < m → (n * m + k) / m ≡ n
block_of_page n k m h = grind arith

first_of_block : (n m : ℕ) → 0 < m → (n * m) / m ≡ n
first_of_block n m h = grind arith

pub page_of_page : (n k m : ℕ) → k < m → (n * m + k) % m ≡ k
page_of_page n k m h = grind arith

join_split : (n m : ℕ) → (n / m) * m + n % m ≡ n
join_split n m = omega arith

div_lt : (a n m : ℕ) → 0 < m → a < n * m → a / m < n
div_lt a n m h k = grind arith

join_eq : (a b m : ℕ) → a / m ≡ b / m → a % m ≡ b % m → a ≡ b
join_eq a b m p q =
    sym (join_split a m)
    ∙ ap (λ (x : ℕ). x * m + a % m) p
    ∙ ap (λ (x : ℕ). b / m * m + x) q
    ∙ join_split b m

mod_eq : (a b n : ℕ) → a < n → b < n → a % n ≡ b % n → a ≡ b
mod_eq a b n p q h = sym (mod-eq_of_lt p) ∙ h ∙ mod-eq_of_lt q

-- The test of `in_ssd`, on block numbers.
abbrev same_no : Config → ℕ → ℕ → Bool
same_no c n m =
    (m / c.plane_size / c.die_size / c.package_size % c.ssd_size
      == n / c.plane_size / c.die_size / c.package_size % c.ssd_size)
    && ((m / c.plane_size / c.die_size % c.package_size
          == n / c.plane_size / c.die_size % c.package_size)
        && ((m / c.plane_size % c.die_size == n / c.plane_size % c.die_size)
            && ((m % c.plane_size == n % c.plane_size) && true)))

same_no-injective :
    (c : Config) (n m : ℕ)
    → IsSized c
    → n < blocks_of c
    → m < blocks_of c
    → same_no c n m ≡ true
    → m ≡ n
same_no-injective c n m s hn hm e =
    let tests : (m / c.plane_size / c.die_size / c.package_size % c.ssd_size
          ≡ n / c.plane_size / c.die_size / c.package_size % c.ssd_size)
        × (m / c.plane_size / c.die_size % c.package_size
            ≡ n / c.plane_size / c.die_size % c.package_size)
        × (m / c.plane_size % c.die_size ≡ n / c.plane_size % c.die_size)
        × (m % c.plane_size ≡ n % c.plane_size) =
      (ground arith, ground arith, ground arith, ground arith) in
    let top = λ (x : ℕ) (h : x < blocks_of c).
      div_lt (x / c.plane_size / c.die_size) c.ssd_size c.package_size s.package_pos (
        div_lt (x / c.plane_size) (c.ssd_size * c.package_size) c.die_size s.die_pos
          (div_lt x (c.ssd_size * c.package_size * c.die_size) c.plane_size s.plane_pos h)) in
    let pkgs =
      mod_eq (m / c.plane_size / c.die_size / c.package_size)
        (n / c.plane_size / c.die_size / c.package_size) c.ssd_size (top m hm) (top n hn) tests.0 in
    let dies =
      join_eq (m / c.plane_size / c.die_size) (n / c.plane_size / c.die_size) c.package_size pkgs
        tests.1 in
    let planes = join_eq (m / c.plane_size) (n / c.plane_size) c.die_size dies tests.2 in
    join_eq m n c.plane_size planes tests.3

same_no-eq :
    (c : Config) (n m : ℕ)
    → IsSized c
    → n < blocks_of c
    → m < blocks_of c
    → same_no c n m ≡ (n == m)
same_no-eq c n m s hn hm = elim (Bool-cases (same_no c n m)) [
  | inl e ↦ let same = same_no-injective c n m s hn hm e in e ∙ (ground arith)
  | inr e ↦ elim (Bool-cases (n == m)) [
    | inl g ↦
        let eq : n ≡ m = (==_iff n m).0 g in
        absurd (false≢true (sym e ∙ ap (same_no c n) (sym eq) ∙ self))
    | inr g ↦ e ∙ sym g
  ]
]
  where
    self : same_no c n n ≡ true
    self = ground arith

module _ (c : Config) (s : IsSized c) where
  pub page-count :
      (n k : ℕ) (v : AddressValid) (a : Address) (d : Ssd)
      → k < c.block_size
      → ssd_count (set_linear_address c (n * c.block_size + k) v a) d ≡ count_no c n d
  unfolding set_linear_address
  page-count n k v a d h =
      rw (block_of_page n k c.block_size h, first_of_block n c.block_size s.block_pos)

  -- Two pages of one block number stand in one block, and of two numbers in two.
  pub in_ssd-eq :
      (n k m : ℕ) (v : AddressValid) (a : Address)
      → k < c.block_size
      → n < blocks_of c
      → m < blocks_of c
      → in_ssd (set_linear_address c (n * c.block_size + k) v a) (first_page c m) ≡ (n == m)
  unfolding set_linear_address set_linear
  in_ssd-eq n k m v a h hn hm =
      rw (block_of_page n k c.block_size h, first_of_block m c.block_size s.block_pos)
        (same_no-eq c n m s hn hm)
