-- ===== src/BlockManager/Alloc.antt =====
-- The rest of ssd_bm.cpp: garbage collection and the allocation of blocks. `cleanup` is the virtual
-- `cleanup_block` of the FTL, whose state is `f`; `order` lists the blocks by invalid pages, as the
-- index `active_cost` does, the most last.
pub mod Fresh
pub mod Returns
pub mod Keeps
use mnftl.Base.{
  ℕ, zero, suc, ◌+◌, ◌-◌, ◌*◌, ◌/◌, ◌%◌, ◌^◌, ◌≤◌, ◌<◌, max, ◌≡◌, refl, sym, ap, ◌∙◌, subst, ◌≢◌,
  ◌↔◌, ◌⊎◌, inl, inr, Bool, true, false, not, ◌&&◌, ◌||◌, Option, none, some, List, [], ◌∷◌, ◌++◌,
  map, arith, ltb, leb, ◌==◌, if◌then◌else◌, ltb→lt, lt→ltb, leb→le, le→leb, ==_iff, if_cases,
  Bool-cases, Option-cases, u32, u64, Run, ok, abort, ◌>>=◌, ◌>>◌, assert, or_abort, fetch, length,
  get_elem?, set, replicate, count_if, keep_if, All, length-append, length-set, length-replicate,
  get_elem?-lt, get_elem?_total, get_elem?-set_self, get_elem?-set_ne, get_elem?-replicate,
  count_if-set, count_if-replicate, All_get, All-set,
}
use mnftl.Config.{
  Config, Status, BlockType, log_block, data_block, log_seq, AddressValid, impl_dftl, impl_bimodal,
}
use mnftl.Address.{Address, no_address, at, set_linear_address}
use mnftl.Event.{Event, incr_time_taken}
use mnftl.Flash.Block.{Block}
use mnftl.Ssd
use mnftl.Ssd.{Ssd}
use mnftl.BlockManager.{
  BlockManager, Machine, erase_at, erase_invalid, split_last, few_used, push_free, count_erase,
}

-- The block behind a pointer.
pub block_at : Config → ℕ → Ssd → Run Block
block_at c b d = Ssd.get_block_pointer (at c b AddressValid.block) d

-- `controller.get_block_pointer(address)->set_block_type(type)`
set_block_type : BlockType → Address → Machine → Run Machine
set_block_type t a w = do
  d ← Ssd.modify_block a (λ b. ok (record b { btype = t })) w.ssd
  ok (record w { ssd = d })

-- The switch of `Block_manager::get_free_block`. More log blocks than allowed throw.
pub take_as : BlockType → Address → Machine → Run Machine
unfolding set_block_type
take_as data_block a w = do
  w' ← set_block_type data_block a w
  ok (record w' { manager = record w'.manager { data_active = u64 (w'.manager.data_active + 1) } })
take_as log_block a w = do
  assert (leb w.manager.log_active w.manager.max_log_blocks)
  w' ← set_block_type log_block a w
  ok (record w' { manager = record w'.manager { log_active = u64 (w'.manager.log_active + 1) } })
take_as log_seq a w = ok w

module _ {F : Type 0} (cleanup : Event → ℕ → F → Machine → Run (Event × F × Machine))
    (order : Ssd → List ℕ) where
  -- `it = active_cost.get<1>().end(); --it;`, and one further back if that block is written to.
  pub next_victim : Machine → Run ℕ
  unfolding split_last
  next_victim w = do
    (rest, b) ← or_abort (split_last (order w.ssd))
    if w.manager.current_writing_block == b
        then (do (_, b') ← or_abort (split_last rest); ok b')
        else ok b

  -- One round of the second loop: clean the victim up and erase it, unless it is written to.
  pub collect_block : Config → ℕ → Event → F → Machine → Run (Event × F × Machine)
  collect_block c b e f w = if w.manager.current_writing_block == b then ok (e, f, w) else (do
    (e1, f1, w1) ← cleanup e b f w
    (erase_event, w2) ← erase_at c (at c b AddressValid.block) e1.start_time e1 w1
    ok (incr_time_taken erase_event.time_taken e1, f1, count_erase (push_free b w2)))

  -- The second loop of `Block_manager::insert_events`, `n` rounds at most.
  pub collect : Config → ℕ → ℕ → Event → F → Machine → Run (Event × F × Machine)
  unfolding collect_block next_victim
  collect c zero b e f w = ok (e, f, w)
  collect c (suc n) b e f w = do
    v ← block_at c b w.ssd
    let next = (do
      (e1, f1, w1) ← collect_block c b e f w
      b' ← next_victim w1
      collect c n b' e1 f1 w1)
    if ltb 0 v.pages_invalid && (v.pages_valid == c.block_size) then next else ok (e, f, w)

  -- What follows the first loop.
  pub collect_cost : Config → ℕ → Event → F → Machine → Run (Event × F × Machine)
  unfolding collect split_last
  collect_cost c n e f w =
      if (c.ftl_implementation == impl_dftl) || (c.ftl_implementation == impl_bimodal)
      then (do (_, b) ← or_abort (split_last (order w.ssd)); collect c n b e f w)
      else ok (e, f, w)

  -- `Block_manager::insert_events`
  pub insert_events : Config → Event → F → Machine → Run (Event × F × Machine)
  unfolding collect_cost few_used
  insert_events c e f w = if few_used c w.manager then ok (e, f, w) else (do
    (n, e1, w1) ← erase_invalid c 5 e w
    let manager = record w1.manager { num_insert_events = u32 (w1.manager.num_insert_events + 1) }
    collect_cost c n e1 f (record w1 { manager = manager }))

  -- The garbage collection of `Block_manager::get_page_block`, when one free block or none is left.
  pub collect_when_short : Config → Event → F → Machine → Run (Event × F × Machine)
  unfolding insert_events
  collect_when_short c e f w =
      if leb (length w.manager.free_list) 1 && not w.manager.out_of_blocks
      then insert_events c e f (record w { manager = record w.manager { out_of_blocks = true } })
      else ok (e, f, w)

  -- `free_list.front()` and `free_list.erase(free_list.begin())`
  pub pop_free : Config → Event → F → Machine → List ℕ → Run (Address × Event × F × Machine)
  pop_free c e f w [] = abort
  pop_free c e f w (b ∷ rest) = ok (
    set_linear_address c b AddressValid.block no_address,
    e,
    f,
    record w {
      manager = record w.manager {
        current_writing_block = u32 b;
        free_list = rest;
        out_of_blocks = false;
      };
    },
  )

  -- `Block_manager::get_page_block`: the blocks in order while there are fresh ones, then freed ones.
  pub get_page_block : Config → Event → F → Machine → Run (Address × Event × F × Machine)
  unfolding collect_when_short pop_free
  get_page_block c e f w =
      let next = w.manager.simple_current_free in
      if ltb next (w.manager.max_blocks * c.block_size)
      then ok (
        set_linear_address c next AddressValid.block no_address,
        e,
        f,
        record w {
          manager = record w.manager {
            current_writing_block = u32 next;
            simple_current_free = next + c.block_size;
          };
        },
      )
      else (do (e1, f1, w1) ← collect_when_short c e f w; pop_free c e1 f1 w1 w1.manager.free_list)

  -- `Block_manager::get_free_block`
  unfoldable pub get_free_block :
      Config → BlockType → Event → F → Machine → Run (Address × Event × F × Machine)
  unfolding get_page_block take_as
  get_free_block c t e f w = do
    (a, e1, f1, w1) ← get_page_block c e f w
    w2 ← take_as t a w1
    ok (a, e1, f1, w2)
