-- ===== src/Ssd/FreePage.antt =====
-- The page that `Ssd::get_free_page` finds, and how a linear page number names a page.
use native.Mathlib.Nat.{mod-eq_of_lt}
use mnftl.Base.{
  ℕ, ◌+◌, ◌^◌, ◌<◌, ◌≡◌, refl, ap, ◌∙◌, inl, inr, ◌&&◌, arith, ltb, leb, ltb→lt, Bool-cases, Every,
  Every-assert, Every-fetch,
}
use mnftl.Config.{Config, AddressValid, rank}
use mnftl.Address.{Address, set_linear_address, at}
use mnftl.Flash.Plane
use mnftl.Flash.Die
use mnftl.Flash.Package
use mnftl.Flash.Plane.{Plane}
use mnftl.Flash.Die.{Die}
use mnftl.Flash.Package.{Package}
use mnftl.Ssd.{Ssd, get_free_page}
use mnftl.Ssd.Effects.{ssd_view}

-- A page of the block of `a`, within it.
pub record FreePage (c : Config) (a x : Address) : Type 0 where
  pub linear : x ≡ set_linear_address c x.real_address AddressValid.page a
  pub near : x.real_address < a.real_address + c.block_size

module _ (c : Config) (a : Address) where
  plane_free : (p : Plane) → Every (FreePage c a) (Plane.get_free_page c a p)
  unfolding Plane.get_free_page set_linear_address
  plane_free p = Every-fetch (FreePage c a) p.blocks a.block _ λ b _.
      elim (Bool-cases (ltb b.pages_valid c.block_size)) [
        | inl q ↦ rw q (record { linear = refl; near = let l = ltb→lt _ _ q in omega arith })
        | inr q ↦ rw q tt
      ]

  die_free : (d : Die) → Every (FreePage c a) (Die.get_free_page c a d)
  unfolding Die.get_free_page
  die_free d =
      Every-assert (FreePage c a) (ltb a.plane d.size && leb 3 (rank a.valid)) _
        (Every-fetch (FreePage c a) d.planes a.plane _ λ p _. plane_free p)

  package_free : (d : Package) → Every (FreePage c a) (Package.get_free_page c a d)
  unfolding Package.get_free_page
  package_free d =
      Every-assert (FreePage c a) (ltb a.die d.size && leb 2 (rank a.valid)) _
        (Every-fetch (FreePage c a) d.dies a.die _ λ p _. die_free p)

  pub get_free_page-FreePage : (d : Ssd) → Every (FreePage c a) (get_free_page c a d)
  unfolding get_free_page
  get_free_page-FreePage d =
      Every-assert (FreePage c a) (ltb a.pkg d.size && leb 1 (rank a.valid)) _
        (Every-fetch (FreePage c a) d.packages a.pkg _ λ p _. package_free p)

-- The page of a linear page number below 2^32, by the number alone.
pub view_linear :
    (c : Config) (n : ℕ) (a : Address) (d : Ssd)
    → n < 2 ^ 32
    → ssd_view (set_linear_address c n AddressValid.page a) d
      ≡ ssd_view (at c n AddressValid.page) d
unfolding set_linear_address at
view_linear c n a d h = rw (mod-eq_of_lt h)

pub FreePage-view :
    (c : Config) (a x : Address) (d : Ssd)
    → FreePage c a x
    → x.real_address < 2 ^ 32
    → ssd_view x d ≡ ssd_view (at c x.real_address AddressValid.page) d
FreePage-view c a x d f h = ap (λ y. ssd_view y d) f.linear ∙ view_linear c x.real_address a d h
