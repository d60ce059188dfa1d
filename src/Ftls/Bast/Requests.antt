-- ===== src/Ftls/Bast/Requests.antt =====
-- FTLs/bast_ftl.cpp: the write and the trim of BAST.
use mnftl.Base.{
  ℕ, ◌+◌, ◌%◌, Bool, true, false, Option, none, some, List, ltb, if◌then◌else◌, Run, ok, ◌>>=◌,
  ◌>>◌, assert, or_abort, fetch, set,
}
use mnftl.Config.{Config, BlockState, inactive, AddressValid, data_block, log_block}
use mnftl.Address.{Address, no_address, at}
use mnftl.Event.{Event, set_address, set_noop, set_replace_address}
use mnftl.Flash.Page.{is_empty}
use mnftl.Flash.Block
use mnftl.Flash.Block.{Block}
use mnftl.Ssd
use mnftl.Ssd.{Ssd}
use mnftl.Ssd.Queries.{controller_num_valid, controller_free_page}
use mnftl.BlockManager.{Machine, issue, erase_and_invalidate}
use mnftl.Mnftl.Tables.{find}
use mnftl.Ftls.Bast.{
  LogPageBlock, Bast, Step, Reply, block_of, page_of, in_log, memory_read, ftl_write,
  dispose_logblock, update,
}
use mnftl.Ftls.Bast.Merge.{merge_log, allocate_new_logblock, set_data}

-- `logBlock->pages[page] = value`, in the log block of a logical block.
unfoldable pub set_page : (lba page : ℕ) → Option ℕ → LogPageBlock → Bast → Run Bast
set_page lba page v b f = do
  old ← fetch b.pages page
  ok (record f { log_map = update lba (record b { pages = set b.pages page v }) f.log_map })

-- `if (logBlock->pages[page] != -1) event.set_replace_address(...)`
replace_logged : Config → LogPageBlock → Option ℕ → Event → Event
replace_logged c b none e = e
replace_logged c b (some i) e = set_replace_address (in_log c b i) e

-- A page that fits the log block.
unfoldable pub write_log :
    Config → LogPageBlock → (lba num_valid : ℕ) → Event → Bast → Machine → Step
unfolding set_page replace_logged
write_log c b lba num_valid e f w = do
  old ← fetch b.pages (page_of c e.logical_address)
  f1 ← set_page lba (page_of c e.logical_address) (some num_valid) b f
  a ← controller_free_page c b.address w.ssd
  ok (set_address a (replace_logged c b old e), f1, w)

-- The page of the data block, if it was written, is replaced.
unfoldable pub replace_data : Config → Bast → (lba : ℕ) → Event → Machine → Run Event
replace_data c f lba e w = do
  d ← fetch f.data_list lba
  elim d [
    | none ↦ ok e
    | some start ↦ (do
      let offset = e.logical_address % c.block_size
      let a = at c (start + offset) AddressValid.page
      b ← Ssd.get_block_pointer a w.ssd
      assert (ltb offset b.size)
      p ← fetch b.pages offset
      ok (if is_empty p.state then e else set_replace_address a e))
  ]

module _ (order : Ssd → List ℕ) (random : ℕ → ℕ) where
  -- The log block is full: it is merged, and the page starts a new one.
  unfoldable pub write_merged : Config → LogPageBlock → (lba : ℕ) → Event → Bast → Machine → Step
  unfolding set_page
  write_merged c b lba e f w = do
    (e1, f1, w1) ← merge_log order c b lba e f w
    (e2, f2, w2) ← allocate_new_logblock order random c lba e1 f1 w1
    b' ← or_abort (find lba f2.log_map)
    f3 ← set_page lba (page_of c e.logical_address) (some 0) b' f2
    ok (set_address (record b'.address { valid = AddressValid.page }) e2, f3, w2)

  -- `if (log_map.find(lba) == log_map.end()) allocate_new_logblock(logBlock, lba, event);`
  unfoldable pub ensure_log : Config → (lba : ℕ) → Event → Bast → Machine → Step
  ensure_log c lba e f w = elim (find lba f.log_map) [
    | none ↦ allocate_new_logblock order random c lba e f w
    | some b ↦ ok (e, f, w)
  ]

  -- `FtlImpl_Bast::write`
  unfoldable pub write : Config → Event → Bast → Machine → Reply
  unfolding write_log write_merged ensure_log replace_data
  write c e f w = do
    let lba = block_of f e.logical_address
    (e1, f1, w1) ← ensure_log c lba e f w
    let w1' = memory_read w1
    b ← or_abort (find lba f1.log_map)
    num_valid ← controller_num_valid b.address w1'.ssd
    (e2, f2, w2) ←
        if ltb num_valid c.block_size
        then write_log c b lba num_valid e1 f1 w1'
        else write_merged c b lba e1 f1 w1'
    e3 ← replace_data c f2 lba e2 w2
    (s, e4, w4) ← issue c e3 (ftl_write w2)
    ok (s, e4, f2, w4)

-- `invalidate_page` on the block of an address; the block is returned.
pub invalidate_at : Address → Machine → Run (Block × Machine)
invalidate_at a w = do
  d ← Ssd.modify_block a (Block.invalidate_page a.page) w.ssd
  b ← Ssd.get_block_pointer a d
  ok (b, record w { ssd = d })

abbrev pub is_inactive : BlockState → Bool
is_inactive inactive = true
is_inactive _ = false

-- The part of `trim` about the log block, by its page; the address is the one that the event gets.
unfoldable pub trim_log_page :
    Config
    → LogPageBlock
    → (lba : ℕ) → Option ℕ
    → Event
    → Bast
    → Machine
    → Run (Address × Event × Bast × Machine)
unfolding invalidate_at set_page
trim_log_page c b lba none e f w = ok (no_address, e, f, w)
trim_log_page c b lba (some j) e f w = do
  let a = in_log c b j
  (block, w1) ← invalidate_at a w
  f1 ← set_page lba (page_of c e.logical_address) none b f
  if is_inactive block.state
      then (do
        (e2, w2) ← erase_and_invalidate c a log_block e w1
        ok (a, e2, dispose_logblock lba f1, w2))
      else ok (a, e, f1, w1)

unfoldable pub trim_log :
    Config
    → Option LogPageBlock
    → (lba : ℕ) → Event
    → Bast
    → Machine
    → Run (Address × Event × Bast × Machine)
unfolding trim_log_page
trim_log c none lba e f w = ok (no_address, e, f, w)
trim_log c (some b) lba e f w = do
  i ← fetch b.pages (page_of c e.logical_address)
  trim_log_page c b lba i e f w

-- The part about the data block.
unfoldable pub trim_data : Config → (lba : ℕ) → Option ℕ → Event → Bast → Machine → Step
unfolding invalidate_at
trim_data c lba none e f w = ok (e, f, w)
trim_data c lba (some start) e f w = do
  let a = at c (start + e.logical_address % c.block_size) AddressValid.page
  (block, w1) ← invalidate_at a w
  if is_inactive block.state
      then (do
        (e2, w2) ← erase_and_invalidate c a data_block e w1
        ok (e2, set_data lba none f, w2))
      else ok (e, f, w1)

abbrev pub count_trim : Machine → Machine
count_trim w = record w { stats = record w.stats { num_ftl_trim = w.stats.num_ftl_trim + 1 } }

-- `FtlImpl_Bast::trim`
unfoldable pub trim : Config → Event → Bast → Machine → Reply
unfolding trim_log trim_data
trim c e f w = do
  let lba = block_of f e.logical_address
  (a, e1, f1, w1) ← trim_log c (find lba f.log_map) lba e f (memory_read w)
  d ← fetch f1.data_list lba
  (e2, f2, w2) ← trim_data c lba d e1 f1 w1
  (s, e4, w4) ← issue c (set_noop true (set_address a e2)) (count_trim w2)
  ok (s, e4, f2, w4)
