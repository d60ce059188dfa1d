-- ===== src/Flash/Package/Returns.antt =====
-- When reads, writes and replacements of a page, and the search of a free one, return in a package.
use mnftl.Base.{
  ℕ, zero, suc, ◌+◌, ◌-◌, ◌*◌, ◌%◌, ◌^◌, ◌≤◌, ◌<◌, ◌≡◌, refl, ap, Bool, false, ◌&&◌, List, arith,
  ltb, leb, ◌==◌, le→leb, ok, Returns, Returns-bind, Returns-assert, Returns-fetch, length, All,
}
use mnftl.Config.{Config, Status, AddressValid, BlockType, rank}
use mnftl.Address.{Address, set_linear_address}
use mnftl.Address.Linear.{InRange}
use mnftl.Event.{Event}
use mnftl.Flash.Page.{Memory}
use mnftl.Flash.Block.{Block}
use mnftl.Flash.Wear.{route}
use mnftl.Flash.Kept.{
  Count, count_within, Kept, IsArray, part_at, set-Kept, route-Kept, IsNew, IsArray-IsNew,
}
use mnftl.Flash.Effect.{IsUsed}
use mnftl.Flash.Die
use mnftl.Flash.Die.{Die}
use mnftl.Flash.Die.Returns
use mnftl.Flash.Die.Returns.{new_die-IsNew, IsDie, die_count, in_die}
use mnftl.Flash.Package.Effects.{package_view}
use mnftl.Flash.Package.{
  Package, new_package, new_dies, read, write, replace, modify_block, get_free_page,
}

pub record IsPackage (c : Config) (d : Package) : Type 0 where
  pub sized : d.size ≡ c.package_size
  pub parts : IsArray (IsDie c) c.package_size d.dies

abbrev pub package_count : Count Package
package_count a d = count_within (λ x. x.die) die_count a d.dies

-- The addresses of one block of the package.
abbrev pub in_package : Address → Address → Bool
in_package a x = (x.die == a.die) && in_die a x

module _ (c : Config) (d : Package) (s : IsPackage c d) where
  module _ (e : Event) (m : Memory) where
    pub read-Kept :
        InRange c e.address
        → 4 ≤ rank e.address.valid
        → Returns
            (λ o. Kept (IsPackage c) package_count (in_package e.address) 0 d o.3)
            (read c e m d)
    unfolding read
    read-Kept lt full =
        let i = e.address.die in
        let P = λ (o : Status × Event × Memory × Package).
          Kept (IsPackage c) package_count (in_package e.address) 0 d o.3 in
        let (b, q, h) = part_at (IsDie c) c.package_size i d.dies s.parts lt.die_lt in
        Returns-assert P (ltb e.address.die d.size && ltb 1 (rank e.address.valid)) _
          (let z = s.sized in let y = lt.die_lt in ground arith)
          (Returns-bind
            (λ (o : Status × Event × Memory × List Die).
              Kept (IsArray (IsDie c) c.package_size) (count_within (λ x. x.die) die_count)
                (in_package e.address) 0 d.dies o.3)
            P (route i (Die.read c e m) d.dies) _
            (route-Kept (IsDie c) die_count (λ x. x.die) (in_die e.address) 0 c.package_size i
              d.dies b s.parts q (Die.read c e m) (Returns.read-Kept c b h e m lt full))
            λ o k. record {
              shaped = record { sized = s.sized; parts = k.shaped };
              counts = k.counts;
            })

    pub write-Kept :
        c.block_size < 2 ^ 32
        → e.noop ≡ false
        → InRange c e.address
        → 4 ≤ rank e.address.valid
        → package_count e.address d ≡ ok e.address.page
        → Returns
            (λ o. Kept (IsPackage c) package_count (in_package e.address) 1 d o.3)
            (write c e m d)
    unfolding write
    write-Kept small n lt full at_end =
        let i = e.address.die in
        let P = λ (o : Status × Event × Memory × Package).
          Kept (IsPackage c) package_count (in_package e.address) 1 d o.3 in
        let (b, q, h) = part_at (IsDie c) c.package_size i d.dies s.parts lt.die_lt in
        Returns-assert P (ltb e.address.die d.size && ltb 1 (rank e.address.valid)) _
          (let z = s.sized in let y = lt.die_lt in ground arith)
          (Returns-bind
            (λ (o : Status × Event × Memory × List Die).
              Kept (IsArray (IsDie c) c.package_size) (count_within (λ x. x.die) die_count)
                (in_package e.address) 1 d.dies o.3)
            P (route i (Die.write c e m) d.dies) _
            (route-Kept (IsDie c) die_count (λ x. x.die) (in_die e.address) 1 c.package_size i
              d.dies b s.parts q (Die.write c e m)
              (Returns.write-Kept c b h e m small n lt full (rw q at at_end)))
            λ o k. record {
              shaped = record { sized = s.sized; parts = k.shaped };
              counts = k.counts;
            })

    pub replace-Kept :
        InRange c e.address
        → InRange c e.replace_address
        → IsUsed (package_view e.replace_address d)
        → Returns
            (λ o. Kept (IsPackage c) package_count (in_package e.replace_address) 0 d o.3)
            (replace e m d)
    unfolding replace
    replace-Kept at lt u =
        let i = e.replace_address.die in
        let P = λ (o : Status × Event × Memory × Package).
          Kept (IsPackage c) package_count (in_package e.replace_address) 0 d o.3 in
        let (b, q, h) = part_at (IsDie c) c.package_size i d.dies s.parts lt.die_lt in
        (Returns-bind
          (λ (o : Status × Event × Memory × List Die).
            Kept (IsArray (IsDie c) c.package_size) (count_within (λ x. x.die) die_count)
              (in_package e.replace_address) 0 d.dies o.3)
          P (route i (Die.replace e m) d.dies) _
          (route-Kept (IsDie c) die_count (λ x. x.die) (in_die e.replace_address) 0 c.package_size i
            d.dies b s.parts q (Die.replace e m) (Returns.replace-Kept c b h e m at lt (rw q at u)))
          λ o k. record {
            shaped = record { sized = s.sized; parts = k.shaped };
            counts = k.counts;
          })

  module _ (a : Address) (lt : InRange c a) (full : 3 ≤ rank a.valid) where
    pub set_type-Kept :
        (t : BlockType)
        → Returns
            (Kept (IsPackage c) package_count (in_package a) 0 d)
            (modify_block a (λ b. ok (record b { btype = t })) d)
    unfolding modify_block
    set_type-Kept t =
        let P = Kept (IsPackage c) package_count (in_package a) 0 d in
        let f = λ (b : Block). ok (record b { btype = t }) in
        let (b, q, h) = part_at (IsDie c) c.package_size a.die d.dies s.parts lt.die_lt in
        Returns-assert P (leb 2 (rank a.valid)) _ (le→leb _ _ (omega arith)) (
          Returns-fetch P d.dies a.die _ b q (
            Returns-bind (Kept (IsDie c) die_count (in_die a) 0 b) P (Die.modify_block a f b) _
              (Returns.set_type-Kept c b h a lt full t)
              λ b' r.
                let k =
                  set-Kept (IsDie c) die_count (λ x. x.die) (in_die a) 0 c.package_size a.die d.dies
                    b s.parts q b' r in
                record {
                  shaped = record { sized = s.sized; parts = k.shaped };
                  counts = k.counts;
                }))

    pub get_free_page-Returns :
        (n : ℕ)
        → n < c.block_size
        → package_count a d ≡ ok n
        → Returns
            (λ x.
              x
              ≡ set_linear_address c
                  (a.real_address + n - a.real_address % c.block_size)
                  AddressValid.page
                  a)
            (get_free_page c a d)
    unfolding get_free_page
    get_free_page-Returns n room at_end =
        let P = λ (x : Address).
          x
          ≡ set_linear_address c (a.real_address + n - a.real_address % c.block_size)
              AddressValid.page a in
        let (b, q, h) = part_at (IsDie c) c.package_size a.die d.dies s.parts lt.die_lt in
        Returns-assert P (ltb a.die d.size && leb 2 (rank a.valid)) _
          (let z = s.sized in let y = lt.die_lt in ground arith)
          (Returns-fetch P d.dies a.die _ b q
            (Returns.get_free_page-Returns c b h a lt full n room (rw q at at_end)))

-- A package as its constructor leaves it.
new_dies_lem :
    (c : Config) (n at : ℕ)
    → (length (new_dies c n at) ≡ n) × All (IsNew c (IsDie c) die_count) (new_dies c n at)
unfolding new_dies
new_dies_lem c zero at = (refl, tt)
new_dies_lem c (suc n) at =
    let rest = new_dies_lem c n (at + c.die_size * c.plane_size * c.block_size) in
    (ap suc rest.0, (new_die-IsNew c at, rest.1))

pub new_package-IsNew :
    (c : Config) (at : ℕ) → IsNew c (IsPackage c) package_count (new_package c at)
unfolding new_package
new_package-IsNew c at =
    let built = new_dies_lem c c.package_size at in
    let parts =
      IsArray-IsNew c (IsDie c) die_count (λ x. x.die) c.package_size (new_dies c c.package_size at)
        built.0 built.1 (λ a lt. lt.die_lt) in
    (record { sized = refl; parts = parts.0 }, parts.1)
