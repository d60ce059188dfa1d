-- ===== src/Ssd/Wear.antt =====
-- What the four `update_wear_stats` methods store: ssd_plane.cpp, ssd_die.cpp, ssd_package.cpp and
-- ssd_ssd.cpp.
use mnftl.Base.{
  ℕ, suc, ◌≡◌, refl, sym, ap, ◌∙◌, inl, inr, some, List, [], ◌∷◌, map, arith, ok, ◌>>=◌, Every,
  Every-bind, Every_ok, Every-trivial, length, get_elem?, get_elem?-lt, get_elem?_total,
}
use mnftl.Address.{Address}
use mnftl.Flash.Wear.{max_index, wear_stats}
use mnftl.Flash.Wear.Choice.{Picked, max_index-Picked}
use mnftl.Flash.Block.{Block}
use mnftl.Flash.Plane
use mnftl.Flash.Plane.{Plane}
use mnftl.Flash.Die
use mnftl.Flash.Die.{Die}
use mnftl.Flash.Package
use mnftl.Flash.Package.{Package}
use mnftl.Ssd
use mnftl.Ssd.{Ssd}

-- The part that is picked, by the erases left of the first part and of the others.
abbrev pub IsPicked {ℓ} : {A : Type ℓ} → List A → ℕ → List ℕ → ℕ → A → Type ℓ
IsPicked parts most xs i x = (get_elem? parts i ≡ some x) × Picked most xs i

part_at {ℓ} :
    {A : Type ℓ} (parts : List A) (most : ℕ) (xs : List ℕ) (i : ℕ)
    → length (most ∷ xs) ≡ length parts
    → Picked most xs i
    → (x : A) × (get_elem? parts i ≡ some x)
part_at parts most xs i same (inl (z, _)) = get_elem?_total parts i (omega arith)
part_at parts most xs i same (inr (k, x, e, g, _, _)) =
    let below = get_elem?-lt xs k g in get_elem?_total parts i (omega arith)

abbrev pub erases_left : List Block → List ℕ
erases_left = map (λ (b : Block). b.erases_remaining)

length-erases_left : (bs : List Block) → length (erases_left bs) ≡ length bs
length-erases_left [] = refl
length-erases_left (b ∷ bs) = ap suc (length-erases_left bs)

-- What `Plane::update_wear_stats` does, by the erases left of the first part and of the others.
abbrev pub PlaneStores : Plane → ℕ → List ℕ → Type 0
PlaneStores p most xs =
    (i : ℕ) × (x : Block) × IsPicked p.blocks most xs i x
    × (Plane.update_wear_stats p
        ≡ ok (record p {
          least_worn = i;
          erases_remaining = most;
          last_erase_time = x.last_erase_time;
        }))

plane_stored :
    (p : Plane) (most : ℕ) (xs : List ℕ) → erases_left p.blocks ≡ most ∷ xs → PlaneStores p most xs
unfolding Plane.update_wear_stats wear_stats
plane_stored p most xs h =
    let i = max_index most 0 1 xs in
    let k = max_index-Picked most xs in
    let same = ap length (sym h) ∙ length-erases_left p.blocks in
    let (x, q) = part_at p.blocks most xs i same k in (i, x, (q, k), rw (h, q) refl)

die_counted :
    (a : Address) (ps : List Plane) → Every (λ ns. length ns ≡ length ps) (Die.erases_of a ps)
unfolding Die.erases_of
die_counted a [] = refl
die_counted a (p ∷ ps) =
    Every-bind _ (λ (ns : List ℕ). length ns ≡ length (p ∷ ps)) (Plane.get_erases_remaining a p) _
      (Every-trivial _)
      λ n _.
        Every-bind (λ ns. length ns ≡ length ps) (λ (ns : List ℕ). length ns ≡ length (p ∷ ps))
          (Die.erases_of a ps) _ (die_counted a ps) λ ns e. ap suc e

-- What `Die::update_wear_stats` does, by the erases left of the first part and of the others.
abbrev pub DieStores : Address → Die → ℕ → List ℕ → Type 0
DieStores a d most xs =
    (i : ℕ) × (x : Plane) × IsPicked d.planes most xs i x
    × (Die.update_wear_stats a d ≡ (
        Plane.get_last_erase_time a x >>= λ t.
        ok (record d { least_worn = i; erases_remaining = most; last_erase_time = t })))

die_stored :
    (a : Address) (d : Die) (most : ℕ) (xs : List ℕ)
    → Die.erases_of a d.planes ≡ ok (most ∷ xs)
    → DieStores a d most xs
unfolding Die.update_wear_stats wear_stats
die_stored a d most xs h =
    let i = max_index most 0 1 xs in
    let k = max_index-Picked most xs in
    let same =
      Every_ok (λ ns. length ns ≡ length d.planes) (Die.erases_of a d.planes)
        (die_counted a d.planes) h in
    let (x, q) = part_at d.planes most xs i same k in (i, x, (q, k), rw (h, q) refl)

package_counted :
    (a : Address) (ps : List Die) → Every (λ ns. length ns ≡ length ps) (Package.erases_of a ps)
unfolding Package.erases_of
package_counted a [] = refl
package_counted a (p ∷ ps) =
    Every-bind _ (λ (ns : List ℕ). length ns ≡ length (p ∷ ps)) (Die.get_erases_remaining a p) _
      (Every-trivial _)
      λ n _.
        Every-bind (λ ns. length ns ≡ length ps) (λ (ns : List ℕ). length ns ≡ length (p ∷ ps))
          (Package.erases_of a ps) _ (package_counted a ps) λ ns e. ap suc e

-- What `Package::update_wear_stats` does, by the erases left of the first part and of the others.
abbrev pub PackageStores : Address → Package → ℕ → List ℕ → Type 0
PackageStores a d most xs =
    (i : ℕ) × (x : Die) × IsPicked d.dies most xs i x
    × (Package.update_wear_stats a d ≡ (
        Die.get_last_erase_time a x >>= λ t.
        ok (record d { least_worn = i; erases_remaining = most; last_erase_time = t })))

package_stored :
    (a : Address) (d : Package) (most : ℕ) (xs : List ℕ)
    → Package.erases_of a d.dies ≡ ok (most ∷ xs)
    → PackageStores a d most xs
unfolding Package.update_wear_stats wear_stats
package_stored a d most xs h =
    let i = max_index most 0 1 xs in
    let k = max_index-Picked most xs in
    let same =
      Every_ok (λ ns. length ns ≡ length d.dies) (Package.erases_of a d.dies)
        (package_counted a d.dies) h in
    let (x, q) = part_at d.dies most xs i same k in (i, x, (q, k), rw (h, q) refl)

ssd_counted :
    (a : Address) (ps : List Package) → Every (λ ns. length ns ≡ length ps) (Ssd.erases_of a ps)
unfolding Ssd.erases_of
ssd_counted a [] = refl
ssd_counted a (p ∷ ps) =
    Every-bind _ (λ (ns : List ℕ). length ns ≡ length (p ∷ ps)) (Package.get_erases_remaining a p) _
      (Every-trivial _)
      λ n _.
        Every-bind (λ ns. length ns ≡ length ps) (λ (ns : List ℕ). length ns ≡ length (p ∷ ps))
          (Ssd.erases_of a ps) _ (ssd_counted a ps) λ ns e. ap suc e

-- What `Ssd::update_wear_stats` does, by the erases left of the first part and of the others.
abbrev pub SsdStores : Address → Ssd → ℕ → List ℕ → Type 0
SsdStores a d most xs =
    (i : ℕ) × (x : Package) × IsPicked d.packages most xs i x
    × (Ssd.update_wear_stats a d ≡ (
        Package.get_last_erase_time a x >>= λ t.
        ok (record d { least_worn = i; erases_remaining = most; last_erase_time = t })))

ssd_stored :
    (a : Address) (d : Ssd) (most : ℕ) (xs : List ℕ)
    → Ssd.erases_of a d.packages ≡ ok (most ∷ xs)
    → SsdStores a d most xs
unfolding Ssd.update_wear_stats wear_stats
ssd_stored a d most xs h =
    let i = max_index most 0 1 xs in
    let k = max_index-Picked most xs in
    let same =
      Every_ok (λ ns. length ns ≡ length d.packages) (Ssd.erases_of a d.packages)
        (ssd_counted a d.packages) h in
    let (x, q) = part_at d.packages most xs i same k in (i, x, (q, k), rw (h, q) refl)

-- Where a plane has a block, and where every plane of a die, every die of a package and every
-- package of the device reports its erases left, one at least each: `update_wear_stats` of each of
-- the four stores as the least worn the last part that has more erases left than the first, or the
-- first where there is none; as its erases the ones of the first part; and as its time that of the
-- last erase of the part that it picked, stopping where a die, a package or the device cannot tell
-- it. It changes nothing else.
pub update_wear_stats-Picked :
    (a : Address) (p : Plane) (d : Die) (g : Package) (s : Ssd) (j k m n : ℕ) (js ks ms ns : List ℕ)
    → erases_left p.blocks ≡ j ∷ js
    → Die.erases_of a d.planes ≡ ok (k ∷ ks)
    → Package.erases_of a g.dies ≡ ok (m ∷ ms)
    → Ssd.erases_of a s.packages ≡ ok (n ∷ ns)
    → PlaneStores p j js × DieStores a d k ks × PackageStores a g m ms × SsdStores a s n ns
update_wear_stats-Picked a p d g s j k m n js ks ms ns hp hd hg hs = (
  plane_stored p j js hp,
  die_stored a d k ks hd,
  package_stored a g m ms hg,
  ssd_stored a s n ns hs,
)
