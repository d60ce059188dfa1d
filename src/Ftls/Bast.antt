-- ===== src/Ftls/Bast.antt =====
-- FTLs/bast_ftl.cpp: the BAST FTL. Each logical block has a data block, and at most one log block, to
-- which its pages are written in the order of the requests until the two are merged.
pub mod Merge
pub mod Tables
pub mod Requests
pub mod Inv
pub mod Kept
pub mod Forget
pub mod Trimmed
use mnftl.Base.{
  ℕ, zero, suc, ◌+◌, ◌-◌, ◌*◌, ◌/◌, ◌%◌, ◌^◌, ◌≤◌, ◌<◌, max, ◌≡◌, refl, sym, ap, ◌∙◌, subst, ◌≢◌,
  ◌↔◌, ◌⊎◌, inl, inr, Bool, true, false, not, ◌&&◌, ◌||◌, Option, none, some, List, [], ◌∷◌, ◌++◌,
  map, arith, ltb, leb, ◌==◌, if◌then◌else◌, ltb→lt, lt→ltb, leb→le, le→leb, ==_iff, if_cases,
  Bool-cases, Option-cases, u32, u64, Run, ok, abort, ◌>>=◌, ◌>>◌, assert, or_abort, fetch, Every,
  Every-bind, Every-assert, Every_ok, Every-trivial, Every-fetch, Every-both, Every-map, Returns,
  Returns-bind, Returns-assert, Returns-fetch, Returns-Every, Returns-map, Returns-eq, length,
  get_elem?, set, replicate, count_if, keep_if, All, length-append, length-set, length-replicate,
  get_elem?-lt, get_elem?_total, get_elem?-set_self, get_elem?-set_ne, get_elem?-set,
  get_elem?-replicate, count_if-set, count_if-replicate, All_get, All-set,
}
use mnftl.Config.{
  Config, EventType, Status, PageState, BlockState, BlockType, AddressValid, rank, data_block,
  log_block, number_of_addressable_blocks,
}
use mnftl.Address.{Address, no_address, at, set_linear_address}
use mnftl.Event.{
  Event, new_event, set_address, set_noop, set_payload, set_replace_address, incr_time_taken,
}
use mnftl.Flash.Page.{Page, is_empty, is_invalid}
use mnftl.Flash.Block
use mnftl.Flash.Block.{Block}
use mnftl.Ssd
use mnftl.Ssd.{Ssd}
use mnftl.Ssd.Queries.{controller_state, controller_num_valid, controller_free_page}
use mnftl.Controller.{Stats}
use mnftl.BlockManager.{Machine, issue, promote_block, erase_and_invalidate}
use mnftl.BlockManager.Alloc.{get_free_block}
use mnftl.Mnftl.Tables.{Map, find, insert, erase_key}
use mnftl.Ftls.Parent.{parent_cleanup}

-- `class LogPageBlock` of ssd.h: the page of the log block that holds each page of the logical
-- block, where -1 is `none`. `aPages`, `numPages` and `next` serve another FTL.
pub record LogPageBlock : Type 0 where
  pub pages : List (Option ℕ)
  pub address : Address

-- `LogPageBlock::LogPageBlock`, with the address that its caller assigns.
abbrev pub new_log : Config → Address → LogPageBlock
new_log c a = record { pages = replicate c.block_size none; address = a }

-- `class FtlImpl_Bast` of ssd.h. `draws` counts the calls of `random()`.
pub record Bast : Type 0 where
  pub log_map : Map LogPageBlock
  pub data_list : List (Option ℕ)
  pub address_shift : ℕ
  pub draws : ℕ

-- `FtlImpl_Bast::FtlImpl_Bast`; the shift is the logarithm of the block size, as the library computes it.
unfoldable pub new_bast : Config → (shift : ℕ) → Bast
new_bast c shift = record {
  log_map = [];
  data_list = replicate (number_of_addressable_blocks c) none;
  address_shift = shift;
  draws = 0;
}

-- What the operations return.
abbrev pub Step : Type 0
Step = Run (Event × Bast × Machine)

abbrev pub Reply : Type 0
Reply = Run (Status × Event × Bast × Machine)

-- `event.get_logical_address() >> addressShift`, and the page of `Address(logical_address, PAGE)`.
abbrev pub block_of : Bast → (lpn : ℕ) → ℕ
block_of f lpn = lpn / 2 ^ f.address_shift

abbrev pub page_of : Config → (lpn : ℕ) → ℕ
page_of c lpn = (at c lpn AddressValid.page).page

-- `logBlock->pages[page]` of the log block of a logical block, -1 where there is none.
pub log_page : Option LogPageBlock → (page : ℕ) → Run (Option ℕ)
log_page none page = ok none
log_page (some b) page = fetch b.pages page

-- The page `logBlock->address.get_linear_address() + i`.
abbrev pub in_log : Config → LogPageBlock → ℕ → Address
in_log c b i = at c (b.address.real_address + i) AddressValid.page

abbrev pub memory_read : Machine → Machine
memory_read w = record w {
  stats = record w.stats { num_memory_read = w.stats.num_memory_read + 1 };
}

abbrev pub ftl_read : Machine → Machine
ftl_read w = record w { stats = record w.stats { num_ftl_read = w.stats.num_ftl_read + 1 } }

abbrev pub ftl_write : Machine → Machine
ftl_write w = record w { stats = record w.stats { num_ftl_write = w.stats.num_ftl_write + 1 } }

-- The page that `read` turns to: in the log block, or in the data block, or page 0.
pub read_data : Config → (lpn : ℕ) → Option ℕ → Address
read_data c lpn none = at c 0 AddressValid.page
read_data c lpn (some d) = at c (d + lpn % c.block_size) AddressValid.page

pub read_place : Config → (lpn : ℕ) → Bast → Option LogPageBlock → Run Address
unfolding log_page read_data
read_place c lpn f none = do d ← fetch f.data_list (block_of f lpn); ok (read_data c lpn d)
read_place c lpn f (some b) = do
  i ← log_page (some b) (page_of c lpn)
  elim i [
    | none ↦ (do d ← fetch f.data_list (block_of f lpn); ok (read_data c lpn d))
    | some j ↦ ok (in_log c b j)
  ]

-- `FtlImpl_Bast::read`
unfoldable pub read : Config → Event → Bast → Machine → Reply
unfolding read_place
read c e f w0 = do
  let w = memory_read w0
  a ← read_place c e.logical_address f (find (block_of f e.logical_address) f.log_map)
  s ← controller_state a w.ssd
  let a' = if is_invalid s then at c 0 AddressValid.page else a
  (st, e', w') ← issue c (set_address a' e) (ftl_read w)
  ok (st, e', f, w')

-- A change of the value behind a key, through a pointer to it.
pub update : {V : Type 0} → ℕ → V → Map V → Map V
update k v [] = []
update k v ((j, u) ∷ m) = let rest = update k v m in if j == k then (j, v) ∷ m else (j, u) ∷ rest

-- `FtlImpl_Bast::dispose_logblock`
abbrev pub dispose_logblock : (lba : ℕ) → Bast → Bast
dispose_logblock lba f = record f { log_map = erase_key lba f.log_map }

-- `FtlImpl_Bast::update_map_block`
pub update_map_block : Config → Event → Machine → Run (Event × Machine)
update_map_block c e w = do
  let write_event = new_event EventType.write e.logical_address 1 e.start_time
  (_, done, w') ← issue c (set_noop true (set_address (at c 0 AddressValid.page) write_event)) w
  ok (
    incr_time_taken done.time_taken e,
    record w' {
      stats = record w'.stats {
        num_gc_write = w'.stats.num_gc_write + 1;
        num_ftl_write = w'.stats.num_ftl_write + 1;
      };
    },
  )
