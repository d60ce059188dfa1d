-- ===== src/Flash/Die/Returns.antt =====
-- When reads, writes and replacements of a page, and the search of a free one, return in a die.
use mnftl.Base.{
  ℕ, zero, suc, ◌+◌, ◌-◌, ◌*◌, ◌%◌, ◌^◌, ◌≤◌, ◌<◌, ◌≡◌, refl, ap, Bool, false, ◌&&◌, List, arith,
  ltb, leb, ◌==◌, le→leb, ok, Returns, Returns-bind, Returns-assert, Returns-fetch, length, All,
}
use mnftl.Config.{Config, Status, AddressValid, BlockType, rank}
use mnftl.Address.{Address, set_linear_address}
use mnftl.Address.Linear.{InRange}
use mnftl.Event.{Event}
use mnftl.Flash.Page.{Memory}
use mnftl.Flash.Block.{Block}
use mnftl.Flash.Wear.{route}
use mnftl.Flash.Kept.{
  Count, count_within, Kept, IsArray, part_at, set-Kept, route-Kept, IsNew, IsArray-IsNew,
}
use mnftl.Flash.Effect.{IsUsed}
use mnftl.Flash.Plane
use mnftl.Flash.Plane.{Plane}
use mnftl.Flash.Plane.Returns
use mnftl.Flash.Plane.Returns.{new_plane-IsNew, IsPlane, plane_count, in_plane}
use mnftl.Flash.Die.Effects.{die_view}
use mnftl.Flash.Die.{Die, new_die, new_planes, read, write, replace, modify_block, get_free_page}

pub record IsDie (c : Config) (d : Die) : Type 0 where
  pub sized : d.size ≡ c.die_size
  pub parts : IsArray (IsPlane c) c.die_size d.planes

abbrev pub die_count : Count Die
die_count a d = count_within (λ x. x.plane) plane_count a d.planes

-- The addresses of one block of the die.
abbrev pub in_die : Address → Address → Bool
in_die a x = (x.plane == a.plane) && in_plane a x

module _ (c : Config) (d : Die) (s : IsDie c d) where
  module _ (e : Event) (m : Memory) where
    pub read-Kept :
        InRange c e.address
        → 4 ≤ rank e.address.valid
        → Returns (λ o. Kept (IsDie c) die_count (in_die e.address) 0 d o.3) (read c e m d)
    unfolding read
    read-Kept lt full =
        let i = e.address.plane in
        let P = λ (o : Status × Event × Memory × Die).
          Kept (IsDie c) die_count (in_die e.address) 0 d o.3 in
        let (b, q, h) = part_at (IsPlane c) c.die_size i d.planes s.parts lt.plane_lt in
        Returns-assert P (ltb e.address.plane d.size && ltb 2 (rank e.address.valid)) _
          (let z = s.sized in let y = lt.plane_lt in ground arith)
          (Returns-bind
            (λ (o : Status × Event × Memory × List Plane).
              Kept (IsArray (IsPlane c) c.die_size) (count_within (λ x. x.plane) plane_count)
                (in_die e.address) 0 d.planes o.3)
            P (route i (Plane.read c e m) d.planes) _
            (route-Kept (IsPlane c) plane_count (λ x. x.plane) (in_plane e.address) 0 c.die_size i
              d.planes b s.parts q (Plane.read c e m) (Returns.read-Kept c b h e m lt full))
            λ o k. record {
              shaped = record { sized = s.sized; parts = k.shaped };
              counts = k.counts;
            })

    pub write-Kept :
        c.block_size < 2 ^ 32
        → e.noop ≡ false
        → InRange c e.address
        → 4 ≤ rank e.address.valid
        → die_count e.address d ≡ ok e.address.page
        → Returns (λ o. Kept (IsDie c) die_count (in_die e.address) 1 d o.3) (write c e m d)
    unfolding write
    write-Kept small n lt full at_end =
        let i = e.address.plane in
        let P = λ (o : Status × Event × Memory × Die).
          Kept (IsDie c) die_count (in_die e.address) 1 d o.3 in
        let (b, q, h) = part_at (IsPlane c) c.die_size i d.planes s.parts lt.plane_lt in
        Returns-assert P (ltb e.address.plane d.size && ltb 2 (rank e.address.valid)) _
          (let z = s.sized in let y = lt.plane_lt in ground arith)
          (Returns-bind
            (λ (o : Status × Event × Memory × List Plane).
              Kept (IsArray (IsPlane c) c.die_size) (count_within (λ x. x.plane) plane_count)
                (in_die e.address) 1 d.planes o.3)
            P (route i (Plane.write c e m) d.planes) _
            (route-Kept (IsPlane c) plane_count (λ x. x.plane) (in_plane e.address) 1 c.die_size i
              d.planes b s.parts q (Plane.write c e m)
              (Returns.write-Kept c b h e m small n lt full (rw q at at_end)))
            λ o k. record {
              shaped = record { sized = s.sized; parts = k.shaped };
              counts = k.counts;
            })

    pub replace-Kept :
        InRange c e.address
        → InRange c e.replace_address
        → IsUsed (die_view e.replace_address d)
        → Returns (λ o. Kept (IsDie c) die_count (in_die e.replace_address) 0 d o.3) (replace e m d)
    unfolding replace
    replace-Kept at lt u =
        let i = e.replace_address.plane in
        let P = λ (o : Status × Event × Memory × Die).
          Kept (IsDie c) die_count (in_die e.replace_address) 0 d o.3 in
        let (b, q, h) = part_at (IsPlane c) c.die_size i d.planes s.parts lt.plane_lt in
        Returns-assert P (ltb e.address.plane d.size) _
          (let z = s.sized in let y = at.plane_lt in ground arith)
          (Returns-bind
            (λ (o : Status × Event × Memory × List Plane).
              Kept (IsArray (IsPlane c) c.die_size) (count_within (λ x. x.plane) plane_count)
                (in_die e.replace_address) 0 d.planes o.3)
            P (route i (Plane.replace e m) d.planes) _
            (route-Kept (IsPlane c) plane_count (λ x. x.plane) (in_plane e.replace_address) 0
              c.die_size i d.planes b s.parts q (Plane.replace e m)
              (Returns.replace-Kept c b h e m at lt (rw q at u)))
            λ o k. record {
              shaped = record { sized = s.sized; parts = k.shaped };
              counts = k.counts;
            })

  module _ (a : Address) (lt : InRange c a) (full : 3 ≤ rank a.valid) where
    pub set_type-Kept :
        (t : BlockType)
        → Returns
            (Kept (IsDie c) die_count (in_die a) 0 d)
            (modify_block a (λ b. ok (record b { btype = t })) d)
    unfolding modify_block
    set_type-Kept t =
        let P = Kept (IsDie c) die_count (in_die a) 0 d in
        let f = λ (b : Block). ok (record b { btype = t }) in
        let (b, q, h) = part_at (IsPlane c) c.die_size a.plane d.planes s.parts lt.plane_lt in
        Returns-assert P (leb 3 (rank a.valid)) _ (le→leb _ _ (omega arith)) (
          Returns-fetch P d.planes a.plane _ b q (
            Returns-bind (Kept (IsPlane c) plane_count (in_plane a) 0 b) P
              (Plane.modify_block a f b) _ (Returns.set_type-Kept c b h a lt t full)
              λ b' r.
                let k =
                  set-Kept (IsPlane c) plane_count (λ x. x.plane) (in_plane a) 0 c.die_size a.plane
                    d.planes b s.parts q b' r in
                record {
                  shaped = record { sized = s.sized; parts = k.shaped };
                  counts = k.counts;
                }))

    pub get_free_page-Returns :
        (n : ℕ)
        → n < c.block_size
        → die_count a d ≡ ok n
        → Returns
            (λ x.
              x
              ≡ set_linear_address c
                  (a.real_address + n - a.real_address % c.block_size)
                  AddressValid.page
                  a)
            (get_free_page c a d)
    unfolding get_free_page
    get_free_page-Returns n room at_end =
        let P = λ (x : Address).
          x
          ≡ set_linear_address c (a.real_address + n - a.real_address % c.block_size)
              AddressValid.page a in
        let (b, q, h) = part_at (IsPlane c) c.die_size a.plane d.planes s.parts lt.plane_lt in
        Returns-assert P (ltb a.plane d.size && leb 3 (rank a.valid)) _
          (let z = s.sized in let y = lt.plane_lt in ground arith)
          (Returns-fetch P d.planes a.plane _ b q
            (Returns.get_free_page-Returns c b h a lt n room (rw q at at_end)))

-- A die as its constructor leaves it.
new_planes_lem :
    (c : Config) (n at : ℕ)
    → (length (new_planes c n at) ≡ n) × All (IsNew c (IsPlane c) plane_count) (new_planes c n at)
unfolding new_planes
new_planes_lem c zero at = (refl, tt)
new_planes_lem c (suc n) at =
    let rest = new_planes_lem c n (at + c.plane_size * c.block_size) in
    (ap suc rest.0, (new_plane-IsNew c at, rest.1))

pub new_die-IsNew : (c : Config) (at : ℕ) → IsNew c (IsDie c) die_count (new_die c at)
unfolding new_die
new_die-IsNew c at =
    let built = new_planes_lem c c.die_size at in
    let parts =
      IsArray-IsNew c (IsPlane c) plane_count (λ x. x.plane) c.die_size (new_planes c c.die_size at)
        built.0 built.1 (λ a lt. lt.plane_lt) in
    (record { sized = refl; parts = parts.0 }, parts.1)
