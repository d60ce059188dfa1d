-- ===== src/Ftls/Bast/Merge.antt =====
-- FTLs/bast_ftl.cpp: how a log block and a data block become one data block, and new log blocks.
use mnftl.Base.{
  ℕ, zero, suc, ◌+◌, ◌-◌, ◌%◌, Bool, true, false, ◌&&◌, ◌||◌, Option, none, some, List, [], ◌∷◌,
  ltb, leb, ◌==◌, if◌then◌else◌, Run, ok, ◌>>=◌, ◌>>◌, assert, fetch, length, set,
}
use mnftl.Config.{Config, EventType, AddressValid, data_block, log_block}
use mnftl.Address.{Address, no_address, at, set_linear_address}
use mnftl.Event.{Event, new_event, set_address, set_payload, set_replace_address, incr_time_taken}
use mnftl.Flash.Page.{is_empty, is_invalid}
use mnftl.Ssd.{Ssd}
use mnftl.Ssd.Queries.{controller_state}
use mnftl.BlockManager.{Machine, issue, promote_block, erase_and_invalidate}
use mnftl.BlockManager.Alloc.{get_free_block}
use mnftl.Mnftl.Tables.{insert}
use mnftl.Ftls.Parent.{parent_cleanup}
use mnftl.Ftls.Bast.{LogPageBlock, new_log, Bast, Step, update_map_block, dispose_logblock}

-- The test of `is_sequential`, from page `i` on: each page stands at its own place.
unfoldable pub in_order : ℕ → List (Option ℕ) → Bool
in_order i [] = true
in_order i (none ∷ ps) = false
in_order i (some j ∷ ps) = let rest = in_order (suc i) ps in (j == i) && rest

-- `erase_and_invalidate` of the data block of a logical block, if there is one.
pub erase_data : Config → Option ℕ → Event → Machine → Run (Event × Machine)
erase_data c none e w = ok (e, w)
erase_data c (some d) e w = erase_and_invalidate c (at c d AddressValid.page) data_block e w

-- `data_list[lba] = ppn`
abbrev pub set_data : (lba : ℕ) → Option ℕ → Bast → Bast
set_data lba d f = record f { data_list = set f.data_list lba d }

abbrev pub count_switch : Machine → Machine
count_switch w = record w {
  stats = record w.stats { num_log_merge_switch = w.stats.num_log_merge_switch + 1 };
}

-- The switch of the log block to a data block.
unfoldable pub switch_block : Config → LogPageBlock → (lba : ℕ) → Event → Bast → Machine → Step
unfolding erase_data
switch_block c b lba e f w = do
  d ← fetch f.data_list lba
  (e1, w1) ← erase_data c d e (record w { manager = promote_block data_block w.manager })
  (e2, w2) ← update_map_block c e1 (count_switch w1)
  ok (e2, dispose_logblock lba (set_data lba (some b.address.real_address) f), w2)

-- `FtlImpl_Bast::is_sequential`
unfoldable pub is_sequential :
    Config → LogPageBlock → (lba : ℕ) → Event → Bast → Machine → Run (Bool × Event × Bast × Machine)
unfolding in_order switch_block
is_sequential c b lba e f w =
    if in_order 0 b.pages
    then (do (e1, f1, w1) ← switch_block c b lba e f w; ok (true, e1, f1, w1))
    else ok (false, e, f, w)

abbrev count_copy : Machine → Machine
count_copy w = record w {
  stats = record w.stats {
    num_ftl_read = w.stats.num_ftl_read + 1;
    num_ftl_write = w.stats.num_ftl_write + 1;
    num_wl_read = w.stats.num_wl_read + 1;
    num_wl_write = w.stats.num_wl_write + 1;
  };
}

-- The page that `random_merge` reads for page `i` of the block: of the log block, or of the data
-- block, or none.
source_page : Config → LogPageBlock → (old_data : Option ℕ) → (i : ℕ) → Option ℕ → Option Address
source_page c b old_data i (some j) =
    some (set_linear_address c (b.address.real_address + j) AddressValid.page no_address)
source_page c b (some d) i none = some (set_linear_address c (d + i) AddressValid.page no_address)
source_page c b none i none = none

-- A page is read and written to its place in the new block.
copy_page : Config → (source target : Address) → Event → Machine → Run (Event × Machine)
copy_page c source target e w = do
  (_, read_event, w1) ←
      issue c (set_address source (new_event EventType.read e.logical_address 1 e.start_time)) w
  let write_event =
      new_event EventType.write e.logical_address 1 (e.start_time + read_event.time_taken)
  let stored =
      set_payload (some (w1.memory.page_data source.real_address)) (set_address target write_event)
  (_, done, w2) ← issue c (set_replace_address source stored) w1
  ok (incr_time_taken (done.time_taken + read_event.time_taken) e, count_copy w2)

-- A page that is valid is copied.
copy_valid : Config → (target : Address) → Option Address → Event → Machine → Run (Event × Machine)
unfolding copy_page
copy_valid c target none e w = ok (e, w)
copy_valid c target (some a) e w = do
  s ← controller_state a w.ssd
  if is_empty s || is_invalid s then ok (e, w) else copy_page c a target e w

-- The loop of `random_merge`, with `n` pages left.
pub merge_pages :
    Config
    → LogPageBlock
    → (old_data : Option ℕ) → (start : ℕ) → (n i : ℕ) → Event
    → Machine
    → Run (Event × Machine)
unfolding copy_valid source_page
merge_pages c b old_data start zero i e w = ok (e, w)
merge_pages c b old_data start (suc n) i e w = do
  p ← fetch b.pages i
  (e1, w1) ← copy_valid c (at c (start + i) AddressValid.page) (source_page c b old_data i p) e w
  merge_pages c b old_data start n (suc i) e1 w1

module _ (order : Ssd → List ℕ) where
  -- `FtlImpl_Bast::random_merge`
  unfoldable pub random_merge : Config → LogPageBlock → (lba : ℕ) → Event → Bast → Machine → Step
  unfolding merge_pages erase_data
  random_merge c b lba e f w = do
    (new, e1, f1, w1) ← get_free_block parent_cleanup order c data_block e f w
    old_data ← fetch f1.data_list lba
    (e2, w2) ← merge_pages c b old_data new.real_address c.block_size 0 e1 w1
    (e3, w3) ← erase_and_invalidate c b.address log_block e2 w2
    (e4, w4) ← erase_data c old_data e3 w3
    (e5, w5) ← update_map_block c e4 w4
    let stats = record w5.stats { num_log_merge_full = w5.stats.num_log_merge_full + 1 }
    ok (
      e5,
      dispose_logblock lba (set_data lba (some new.real_address) f1),
      record w5 { stats = stats },
    )

  -- `if (!is_sequential(...)) random_merge(...);`
  unfoldable pub merge_log : Config → LogPageBlock → (lba : ℕ) → Event → Bast → Machine → Step
  unfolding is_sequential random_merge
  merge_log c b lba e f w = do
    (switched, e1, f1, w1) ← is_sequential c b lba e f w
    if switched then ok (e1, f1, w1) else random_merge c b lba e1 f1 w1

  module _ (random : ℕ → ℕ) where
    -- The log block at the place of the map that `random()` gives is merged.
    unfoldable pub evict : Config → Event → Bast → Machine → Step
    unfolding merge_log
    evict c e f w = do
      assert (ltb 0 (length f.log_map))
      (lba, b) ← fetch f.log_map (random f.draws % length f.log_map - 1)
      (e1, f1, w1) ← merge_log c b lba e (record f { draws = suc f.draws }) w
      let conversions = w1.stats.num_page_block_to_page_conversion + 1
      ok (
        e1,
        f1,
        record w1 { stats = record w1.stats { num_page_block_to_page_conversion = conversions } },
      )

    -- `FtlImpl_Bast::allocate_new_logblock`
    unfoldable pub allocate_new_logblock : Config → (lba : ℕ) → Event → Bast → Machine → Step
    unfolding evict
    allocate_new_logblock c lba e f w = do
      (e1, f1, w1) ←
          if leb c.bast_log_block_limit (length f.log_map) then evict c e f w else ok (e, f, w)
      (a, e2, f2, w2) ← get_free_block parent_cleanup order c log_block e1 f1 w1
      ok (e2, record f2 { log_map = insert lba (new_log c a) f2.log_map }, w2)
