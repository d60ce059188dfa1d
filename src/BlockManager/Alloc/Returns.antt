-- ===== src/BlockManager/Alloc/Returns.antt =====
-- When `Block_manager::get_free_block` returns under MNFTL.
use mnftl.Base.{
  ℕ, ◌+◌, ◌*◌, ◌≤◌, ◌<◌, ◌≡◌, ◌∙◌, List, arith, lt→ltb, u32, Run, ok, Returns, Returns-bind,
}
use mnftl.Config.{Config, IsSized, BlockType, data_block, AddressValid, rank}
use mnftl.Address.{Address, no_address, set_linear_address}
use mnftl.Address.Linear.{InRange, set_linear-InRange}
use mnftl.Event.{Event}
use mnftl.Flash.Kept.{Kept, raise_zero}
use mnftl.Ssd
use mnftl.Ssd.{Ssd}
use mnftl.Ssd.Returns.{IsDevice, ssd_count, in_ssd, set_type-Kept}
use mnftl.BlockManager.{Machine}
use mnftl.BlockManager.Alloc.{take_as, set_block_type, get_page_block, get_free_block}

-- The device is kept well shaped, and no page is written.
abbrev pub Unwritten : Config → Machine → Machine → Type 0
Unwritten c w w' = IsDevice c w'.ssd × ((a : Address) → ssd_count a w'.ssd ≡ ssd_count a w.ssd)

pub linear-InRange :
    (c : Config) (n : ℕ) (v : AddressValid) (a : Address)
    → IsSized c
    → InRange c (set_linear_address c n v a)
unfolding set_linear_address
linear-InRange c n v a s =
    let r = set_linear-InRange c n a s in
    record {
      pkg_lt = r.pkg_lt;
      die_lt = r.die_lt;
      plane_lt = r.plane_lt;
      block_lt = r.block_lt;
      page_lt = r.page_lt;
    }

set_block_type-Returns :
    (c : Config) (t : BlockType) (a : Address) (w : Machine)
    → InRange c a
    → 3 ≤ rank a.valid
    → IsDevice c w.ssd
    → Returns (Unwritten c w) (set_block_type t a w)
unfolding set_block_type
set_block_type-Returns c t a w lt full s =
    Returns-bind (Kept (IsDevice c) ssd_count (in_ssd a) 0 w.ssd) (Unwritten c w)
      (Ssd.modify_block a (λ b. ok (record b { btype = t })) w.ssd) _
      (set_type-Kept c w.ssd s a lt full t)
      λ d k. (k.shaped, λ x. k.counts x ∙ (ground (arith, raise_zero (ssd_count x w.ssd))))

module _ {F : Type 0} (cleanup : Event → ℕ → F → Machine → Run (Event × F × Machine))
    (order : Ssd → List ℕ) (c : Config) (s : IsSized c) where
  pub get_free_block-Returns :
      (e : Event) (f : F) (w : Machine)
      → IsDevice c w.ssd
      → w.manager.simple_current_free < w.manager.max_blocks * c.block_size
      → Returns (λ o. Unwritten c w o.3) (get_free_block cleanup order c data_block e f w)
  unfolding get_free_block get_page_block take_as set_linear_address
  get_free_block-Returns e f w shaped fresh =
      let next = w.manager.simple_current_free in
      let a = set_linear_address c next AddressValid.block no_address in
      let w1 = record w {
        manager = record w.manager {
          current_writing_block = u32 next;
          simple_current_free = next + c.block_size;
        };
      } in
      let P = λ (o : Address × Event × F × Machine). Unwritten c w o.3 in
      rw (lt→ltb next (w.manager.max_blocks * c.block_size) fresh) (
        Returns-bind (Unwritten c w) P (take_as data_block a w1) _
          (Returns-bind (Unwritten c w) (Unwritten c w) (set_block_type data_block a w1) _
            (set_block_type-Returns c data_block a w1
              (linear-InRange c next AddressValid.block no_address s) (omega arith) shaped)
            λ w2 k. k)
          λ w3 k. k)
