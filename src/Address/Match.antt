-- ===== src/Address/Match.antt =====
-- `Address::check_valid` and `Address::compare` against the levels at which fields fit or agree.
use mnftl.Base.{ℕ, ◌≤◌, ◌<◌, ◌≡◌, refl, ◌↔◌, arith}
use mnftl.Config.{rank}
use mnftl.Address.{Address, check_valid, compare_address}

-- The fields of the first `k` levels are below the given sizes.
pub record Fits (k ssds pkgs dies planes blocks : ℕ) (a : Address) : Type 0 where
  pub pkg_fits : 1 ≤ k → a.pkg < ssds
  pub die_fits : 2 ≤ k → a.die < pkgs
  pub plane_fits : 3 ≤ k → a.plane < dies
  pub block_fits : 4 ≤ k → a.block < planes
  pub page_fits : 5 ≤ k → a.page < blocks

-- The fields of the first `k` levels are the same.
pub record Agree (k : ℕ) (a b : Address) : Type 0 where
  pub same_pkg : 1 ≤ k → a.pkg ≡ b.pkg
  pub same_die : 2 ≤ k → a.die ≡ b.die
  pub same_plane : 3 ≤ k → a.plane ≡ b.plane
  pub same_block : 4 ≤ k → a.block ≡ b.block
  pub same_page : 5 ≤ k → a.page ≡ b.page

-- For a level up to 5: `check_valid` reports that level or a deeper one just if the address was
-- valid to it and the fields of all levels up to it fit; of the address it changes the validity
-- only, to what it reports.
pub check_valid-Fits :
    (k ssds pkgs dies planes blocks : ℕ) (a : Address)
    → k ≤ 5
    → let (v, b) = check_valid ssds pkgs dies planes blocks a in
      ((k ≤ rank v) ↔ ((k ≤ rank a.valid) × Fits k ssds pkgs dies planes blocks a))
      × (b ≡ record a { valid = v })
unfolding check_valid
check_valid-Fits k ssds pkgs dies planes blocks a h =
    (((λ r. (ground arith, ground arith)), λ r. ground arith), refl)

-- For a level up to 5: `compare` reports that level or a deeper one just if both addresses are valid
-- to it and the fields of all levels up to it are the same.
pub compare_address-Agree :
    (k : ℕ) (a b : Address)
    → k ≤ 5
    → (k ≤ rank (compare_address a b)) ↔ ((k ≤ rank a.valid) × (k ≤ rank b.valid) × Agree k a b)
unfolding compare_address
compare_address-Agree k a b h =
    ((λ r. (ground arith, ground arith, ground arith)), λ r. ground arith)

pub compare_address_comm : (a b : Address) → compare_address a b ≡ compare_address b a
unfolding compare_address
compare_address_comm a b = ground arith
