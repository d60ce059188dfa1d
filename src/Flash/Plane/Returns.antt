-- ===== src/Flash/Plane/Returns.antt =====
-- When reads, writes and replacements of a page, and the search of a free one, return in a plane.
use mnftl.Base.{
  ℕ, zero, suc, ◌+◌, ◌-◌, ◌%◌, ◌^◌, ◌≤◌, ◌<◌, ◌≡◌, refl, ap, Bool, false, ◌&&◌, List, arith, ltb,
  leb, ◌==◌, lt→ltb, le→leb, ok, Returns, Returns-bind, Returns-assert, Returns-fetch,
  Returns-Every, length, All,
}
use mnftl.Config.{Config, Status, AddressValid, BlockType, rank}
use mnftl.Address.{Address, set_linear_address}
use mnftl.Address.Linear.{InRange}
use mnftl.Event.{Event}
use mnftl.Flash.Page.{Memory, store_payload}
use mnftl.Flash.Wear.{route}
use mnftl.Flash.Kept.{
  Count, count_within, Kept, IsArray, part_at, set-Kept, route-Kept, IsNew, IsArray-IsNew,
}
use mnftl.Flash.Effect.{IsUsed, Effect, within, route-Effect}
use mnftl.Flash.Block
use mnftl.Flash.Block.{Block, new_block}
use mnftl.Flash.Block.Effects
use mnftl.Flash.Block.Effects.{block_view}
use mnftl.Flash.Block.Returns
use mnftl.Flash.Block.Returns.{new_block-IsFilled, IsFilled, block_count, any_address}
use mnftl.Flash.Plane.Effects.{plane_view}
use mnftl.Flash.Plane.{
  Plane, read, write, replace, modify_block, get_free_page, new_plane, new_blocks,
}

pub record IsPlane (c : Config) (p : Plane) : Type 0 where
  pub sized : p.size ≡ c.plane_size
  pub ready : rank p.next_page.valid ≡ 5
  pub parts : IsArray (IsFilled c) c.plane_size p.blocks

abbrev pub plane_count : Count Plane
plane_count a p = count_within (λ x. x.block) block_count a p.blocks

-- The addresses of one block of the plane.
abbrev pub in_plane : Address → Address → Bool
in_plane a x = (x.block == a.block) && any_address x

module _ (c : Config) (p : Plane) (s : IsPlane c p) where
  module _ (e : Event) (m : Memory) where
    pub read-Kept :
        InRange c e.address
        → 4 ≤ rank e.address.valid
        → Returns (λ o. Kept (IsPlane c) plane_count (in_plane e.address) 0 p o.3) (read c e m p)
    unfolding read
    read-Kept lt full =
        let i = e.address.block in
        let P = λ (o : Status × Event × Memory × Plane).
          Kept (IsPlane c) plane_count (in_plane e.address) 0 p o.3 in
        let (b, q, h) = part_at (IsFilled c) c.plane_size i p.blocks s.parts lt.block_lt in
        Returns-assert P (ltb i p.size && ltb 3 (rank e.address.valid)) _
          (let z = s.sized in let y = lt.block_lt in ground arith)
          (Returns-bind
            (λ (o : Status × Event × Memory × List Block).
              Kept (IsArray (IsFilled c) c.plane_size) (count_within (λ x. x.block) block_count)
                (in_plane e.address) 0 p.blocks o.3)
            P (route i (Block.read c e m) p.blocks) _
            (route-Kept (IsFilled c) block_count (λ x. x.block) any_address 0 c.plane_size i
              p.blocks b s.parts q (Block.read c e m) (Returns.read-Kept c e m b h lt.page_lt))
            λ o k. record {
              shaped = record { sized = s.sized; ready = s.ready; parts = k.shaped };
              counts = k.counts;
            })

    pub write-Kept :
        c.block_size < 2 ^ 32
        → e.noop ≡ false
        → InRange c e.address
        → 4 ≤ rank e.address.valid
        → plane_count e.address p ≡ ok e.address.page
        → Returns (λ o. Kept (IsPlane c) plane_count (in_plane e.address) 1 p o.3) (write c e m p)
    unfolding write
    write-Kept small n lt full at_end =
        let i = e.address.block in
        let P = λ (o : Status × Event × Memory × Plane).
          Kept (IsPlane c) plane_count (in_plane e.address) 1 p o.3 in
        let Q = λ (o : Status × Event × Memory × List Block).
          Kept (IsArray (IsFilled c) c.plane_size) (count_within (λ x. x.block) block_count)
            (in_plane e.address) 1 p.blocks o.3 in
        let R = λ (o : Status × Event × Memory × List Block).
          Effect (within (λ x. x.block) block_view) e (store_payload c e m) p.blocks o in
        let (b, q, h) = part_at (IsFilled c) c.plane_size i p.blocks s.parts lt.block_lt in
        Returns-assert P
          (ltb i p.size && ltb 3 (rank e.address.valid) && leb 4 (rank p.next_page.valid)) _
          (let z = s.sized in let y = lt.block_lt in let w = s.ready in ground arith)
          (Returns-fetch P p.blocks i _ b q (
            Returns-bind (λ o. Q o × R o) P (route i (Block.write c e m) p.blocks) _
              (Returns-Every Q R (route i (Block.write c e m) p.blocks)
                (route-Kept (IsFilled c) block_count (λ x. x.block) any_address 1 c.plane_size i
                  p.blocks b s.parts q (Block.write c e m)
                  (Returns.write-Kept c e m b h small n lt.page_lt (rw q at at_end)))
                (route-Effect block_view (λ x. x.block) e (store_payload c e m) (Block.write c e m)
                  (Effects.write-Effect c e m) i p.blocks))
              λ o k.
                let same : o.1.address ≡ e.address = ap (λ (x : Event). x.address) k.1.later.same in
                let (b', q', h') = part_at (IsFilled c) c.plane_size i o.3 k.0.shaped lt.block_lt in
                Returns-fetch P o.3 o.1.address.block _ b' (rw same q') (record {
                  shaped = record { sized = s.sized; ready = s.ready; parts = k.0.shaped };
                  counts = k.0.counts;
                })))

    pub replace-Kept :
        InRange c e.address
        → InRange c e.replace_address
        → IsUsed (plane_view e.replace_address p)
        → Returns
            (λ o. Kept (IsPlane c) plane_count (in_plane e.replace_address) 0 p o.3)
            (replace e m p)
    unfolding replace
    replace-Kept at lt u =
        let i = e.replace_address.block in
        let P = λ (o : Status × Event × Memory × Plane).
          Kept (IsPlane c) plane_count (in_plane e.replace_address) 0 p o.3 in
        let (b, q, h) = part_at (IsFilled c) c.plane_size i p.blocks s.parts lt.block_lt in
        Returns-assert P (ltb e.address.block p.size) _
          (let z = s.sized in let y = at.block_lt in ground arith)
          (Returns-bind
            (λ (o : Status × Event × Memory × List Block).
              Kept (IsArray (IsFilled c) c.plane_size) (count_within (λ x. x.block) block_count)
                (in_plane e.replace_address) 0 p.blocks o.3)
            P (route i (Block.replace e m) p.blocks) _
            (route-Kept (IsFilled c) block_count (λ x. x.block) any_address 0 c.plane_size i
              p.blocks b s.parts q (Block.replace e m) (Returns.replace-Kept c e m b h (rw q at u)))
            λ o k. record {
              shaped = record { sized = s.sized; ready = s.ready; parts = k.shaped };
              counts = k.counts;
            })

  module _ (a : Address) (lt : InRange c a) where
    pub set_type-Kept :
        (t : BlockType)
        → 3 ≤ rank a.valid
        → Returns
            (Kept (IsPlane c) plane_count (in_plane a) 0 p)
            (modify_block a (λ b. ok (record b { btype = t })) p)
    unfolding modify_block
    set_type-Kept t full =
        let P = Kept (IsPlane c) plane_count (in_plane a) 0 p in
        let (b, q, h) = part_at (IsFilled c) c.plane_size a.block p.blocks s.parts lt.block_lt in
        let b' = record b { btype = t } in
        let k =
          set-Kept (IsFilled c) block_count (λ x. x.block) any_address 0 c.plane_size a.block
            p.blocks b s.parts q b'
            (record {
              shaped = record {
                sized = h.sized;
                pages_length = h.pages_length;
                in_block = h.in_block;
                rest_empty = h.rest_empty;
              };
              counts = λ x. ap ok (omega arith);
            }) in
        Returns-assert P (leb 3 (rank a.valid)) _ (le→leb _ _ full) (
          Returns-fetch P p.blocks a.block _ b q (record {
            shaped = record { sized = s.sized; ready = s.ready; parts = k.shaped };
            counts = k.counts;
          }))

    pub get_free_page-Returns :
        (n : ℕ)
        → n < c.block_size
        → plane_count a p ≡ ok n
        → Returns
            (λ x.
              x
              ≡ set_linear_address c
                  (a.real_address + n - a.real_address % c.block_size)
                  AddressValid.page
                  a)
            (get_free_page c a p)
    unfolding get_free_page
    get_free_page-Returns n room at_end =
        let (b, q, h) = part_at (IsFilled c) c.plane_size a.block p.blocks s.parts lt.block_lt in
        let count : block_count a b ≡ ok n = rw q at at_end in
        let full : b.pages_valid ≡ n = ground arith in
        rw (q, lt→ltb b.pages_valid c.block_size (omega arith)) (rw full refl)

-- A plane as its constructor leaves it.
new_blocks_lem :
    (c : Config) (n at : ℕ)
    → (length (new_blocks c n at) ≡ n) × All (IsNew c (IsFilled c) block_count) (new_blocks c n at)
unfolding new_blocks new_block
new_blocks_lem c zero at = (refl, tt)
new_blocks_lem c (suc n) at =
    let rest = new_blocks_lem c n (at + c.block_size) in
    (ap suc rest.0, ((new_block-IsFilled c at, λ a lt. refl), rest.1))

pub new_plane-IsNew : (c : Config) (at : ℕ) → IsNew c (IsPlane c) plane_count (new_plane c at)
unfolding new_plane
new_plane-IsNew c at =
    let built = new_blocks_lem c c.plane_size at in
    let parts =
      IsArray-IsNew c (IsFilled c) block_count (λ x. x.block) c.plane_size
        (new_blocks c c.plane_size at) built.0 built.1 (λ a lt. lt.block_lt) in
    (record { sized = refl; ready = refl; parts = parts.0 }, parts.1)
