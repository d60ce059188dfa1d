-- ===== src/Address/Linear.antt =====
-- What `Address::set_linear_address` computes, against the linear page number that it is given.
use mnftl.Base.{ℕ, ◌+◌, ◌*◌, ◌/◌, ◌%◌, ◌<◌, ◌≡◌, arith}
use mnftl.Config.{Config, IsSized, total_pages}
use mnftl.Address.{Address, set_linear}
use native.Mathlib.Nat.{mod-eq_of_lt}

-- The page number that the fields of an address stand for.
abbrev pub linear_of : Config → Address → ℕ
linear_of c a =
    (((a.pkg * c.package_size + a.die) * c.die_size + a.plane) * c.plane_size + a.block)
      * c.block_size
    + a.page

-- Every field is below the size of what it counts within.
pub record InRange (c : Config) (a : Address) : Type 0 where
  pub pkg_lt : a.pkg < c.ssd_size
  pub die_lt : a.die < c.package_size
  pub plane_lt : a.plane < c.die_size
  pub block_lt : a.block < c.plane_size
  pub page_lt : a.page < c.block_size

pub mod-lt' : (a n : ℕ) → 0 < n → a % n < n
mod-lt' a n h = omega arith

div-lt : (a n m : ℕ) → 0 < m → a < n * m → a / m < n
div-lt a n m h k = grind arith

-- Any number gives fields in range.
pub set_linear-InRange :
    (c : Config) (n : ℕ) (a : Address) → IsSized c → InRange c (set_linear c n a)
unfolding set_linear
set_linear-InRange c n a s = omega arith

-- One level of the decoding and of the encoding.
join_split : (n m : ℕ) → (n / m) * m + n % m ≡ n
join_split n m = omega arith

split_join : (q r m : ℕ) → r < m → ((q * m + r) / m ≡ q) × ((q * m + r) % m ≡ r)
split_join q r m h = grind arith

-- In a device with a part at least at each level, the fields that the number of a page of the device
-- is decoded to stand for that page.
pub linear_of-set_linear :
    (c : Config) (n : ℕ) (a : Address)
    → IsSized c
    → n < total_pages c
    → linear_of c (set_linear c n a) ≡ n
unfolding set_linear
linear_of-set_linear c n a s h =
    let blocks = n / c.block_size in
    let planes = blocks / c.plane_size in
    let dies = planes / c.die_size in
    let blocks_lt : blocks < c.ssd_size * c.package_size * c.die_size * c.plane_size =
      div-lt n _ c.block_size s.block_pos h in
    let planes_lt : planes < c.ssd_size * c.package_size * c.die_size =
      div-lt blocks _ c.plane_size s.plane_pos blocks_lt in
    let dies_lt : dies < c.ssd_size * c.package_size =
      div-lt planes _ c.die_size s.die_pos planes_lt in
    let pkgs_lt : dies / c.package_size < c.ssd_size =
      div-lt dies _ c.package_size s.package_pos dies_lt in
    rw (
      mod-eq_of_lt pkgs_lt,
      join_split dies c.package_size,
      join_split planes c.die_size,
      join_split blocks c.plane_size,
      join_split n c.block_size,
    )

-- Fields in range are what the number of the page that they stand for is decoded to.
pub set_linear-linear_of :
    (c : Config) (a b : Address)
    → InRange c a
    → let d = set_linear c (linear_of c a) b in
      (d.pkg ≡ a.pkg)
      × (d.die ≡ a.die)
      × (d.plane ≡ a.plane)
      × (d.block ≡ a.block)
      × (d.page ≡ a.page)
unfolding set_linear
set_linear-linear_of c a b h =
    let dies = a.pkg * c.package_size + a.die in
    let planes = dies * c.die_size + a.plane in
    let blocks = planes * c.plane_size + a.block in
    let (qb, rb) = split_join blocks a.page c.block_size h.page_lt in
    let (qp, rp) = split_join planes a.block c.plane_size h.block_lt in
    let (qd, rd) = split_join dies a.plane c.die_size h.plane_lt in
    let (qk, rk) = split_join a.pkg a.die c.package_size h.die_lt in
    (rw (qb, qp, qd, qk) (mod-eq_of_lt h.pkg_lt), rw (qb, qp, qd) rk, rw (qb, qp) rd, rw qb rp, rb)
