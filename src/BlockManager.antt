-- ===== src/BlockManager.antt =====
-- ssd_bm.cpp: the block manager hands out blocks and takes them back. A block is named by its
-- physical address, which stands for the pointer to it.
pub mod Alloc
pub mod Issue
use mnftl.Base.{
  ℕ, zero, suc, ◌+◌, ◌-◌, ◌*◌, ◌/◌, ◌%◌, ◌^◌, ◌≤◌, ◌<◌, max, ◌≡◌, refl, sym, ap, ◌∙◌, subst, ◌≢◌,
  ◌↔◌, ◌⊎◌, inl, inr, Bool, true, false, not, ◌&&◌, ◌||◌, Option, none, some, List, [], ◌∷◌, ◌++◌,
  map, arith, ltb, leb, ◌==◌, if◌then◌else◌, ltb→lt, lt→ltb, leb→le, le→leb, ==_iff, if_cases,
  Bool-cases, Option-cases, u32, u64, Run, ok, abort, ◌>>=◌, ◌>>◌, assert, or_abort, fetch, length,
  get_elem?, set, replicate, count_if, keep_if, All, length-append, length-set, length-replicate,
  get_elem?-lt, get_elem?_total, get_elem?-set_self, get_elem?-set_ne, get_elem?-replicate,
  count_if-set, count_if-replicate, All_get, All-set,
}
use mnftl.Config.{
  Config, EventType, Status, failure, success, BlockType, log_block, data_block, log_seq,
  AddressValid, number_of_addressable_blocks, impl_fast, impl_dftl, impl_bimodal,
}
use mnftl.Address.{Address, no_address, at, set_linear_address}
use mnftl.Event.{Event, new_event, set_address, incr_time_taken}
use mnftl.Flash.Page.{Memory, Outcome}
use mnftl.Flash.Block.{Block}
use mnftl.Ssd
use mnftl.Ssd.{Ssd}
use mnftl.Controller
use mnftl.Controller.{Stats}

-- `class Block_manager` of ssd.h. The order that `active_cost` keeps is an argument of what reads it.
pub record BlockManager : Type 0 where
  pub data_active : ℕ
  pub log_active : ℕ
  pub max_log_blocks : ℕ
  pub max_blocks : ℕ
  pub free_list : List ℕ
  pub invalid_list : List ℕ
  pub simple_current_free : ℕ
  pub num_insert_events : ℕ
  pub current_writing_block : ℕ
  pub out_of_blocks : Bool

-- What an FTL works on: the device, the memory of its pages, the statistics, the block manager.
pub record Machine : Type 0 where
  pub ssd : Ssd
  pub memory : Memory
  pub stats : Stats
  pub manager : BlockManager

-- `Block_manager::Block_manager`. `current_writing_block` is the unsigned -2.
unfoldable pub new_block_manager : Config → BlockManager
new_block_manager c = record {
  data_active = 0;
  log_active = 0;
  max_log_blocks =
      if c.ftl_implementation == impl_fast
      then c.fast_log_block_limit
      else number_of_addressable_blocks c;
  max_blocks = number_of_addressable_blocks c;
  free_list = [];
  invalid_list = [];
  simple_current_free = 0;
  num_insert_events = 0;
  current_writing_block = 2 ^ 32 - 2;
  out_of_blocks = false;
}

-- `ftl->controller.issue(event)`
unfoldable pub issue : Config → Event → Machine → Run (Status × Event × Machine)
issue c e w = do
  (s, e', m, d) ← Controller.issue c e w.memory w.ssd
  ok (s, e', record w { memory = m; ssd = d })

-- `data_active--`, `log_active--`, for the type of a block that is given back.
pub retire : BlockType → BlockManager → BlockManager
retire data_block b = record b { data_active = u64 (b.data_active + 2 ^ 64 - 1) }
retire log_block b = record b { log_active = u64 (b.log_active + 2 ^ 64 - 1) }
retire log_seq b = b

-- `Block_manager::promote_block`
pub promote_block : BlockType → BlockManager → BlockManager
promote_block data_block b = record b {
  data_active = u64 (b.data_active + 1);
  log_active = u64 (b.log_active + 2 ^ 64 - 1);
}
promote_block log_block b = record b {
  log_active = u64 (b.log_active + 1);
  data_active = u64 (b.data_active + 2 ^ 64 - 1);
}
promote_block log_seq b = b

-- `Block_manager::is_log_full`
pub is_log_full : BlockManager → Bool
is_log_full b = b.log_active == b.max_log_blocks

-- `Block_manager::invalidate`
pub invalidate : Address → BlockType → Machine → Run Machine
unfolding retire
invalidate a t w = do
  b ← Ssd.get_block_pointer a w.ssd
  let manager = record w.manager {
    invalid_list = w.manager.invalid_list ++ b.physical_address ∷ [];
  }
  ok (record w { manager = retire t manager })

-- `Block_manager::get_num_free_blocks`
pub get_num_free_blocks : Config → BlockManager → ℕ
get_num_free_blocks c b =
    if ltb b.simple_current_free (b.max_blocks * c.block_size)
    then b.simple_current_free / c.block_size + length b.free_list
    else length b.free_list

-- An erase event at an address. A failure to erase stops the process.
pub erase_at : Config → Address → (start : ℕ) → Event → Machine → Run (Event × Machine)
unfolding issue
erase_at c a start e w = do
  (s, erase_event, w') ←
      issue c (set_address a (new_event EventType.erase e.logical_address 1 start)) w
  elim s [ failure ↦ abort | success ↦ ok (erase_event, w') ]

abbrev pub count_erase : Machine → Machine
count_erase w = record w { stats = record w.stats { num_ftl_erase = w.stats.num_ftl_erase + 1 } }

abbrev pub push_free : ℕ → Machine → Machine
push_free b w = record w {
  manager = record w.manager { free_list = w.manager.free_list ++ b ∷ [] };
}

-- `Block_manager::erase_and_invalidate`
pub erase_and_invalidate : Config → Address → BlockType → Event → Machine → Run (Event × Machine)
unfolding erase_at retire
erase_and_invalidate c a t e w = do
  (erase_event, w1) ← erase_at c a (e.start_time + e.time_taken) e w
  b ← Ssd.get_block_pointer a w1.ssd
  let w2 = push_free b.physical_address w1
  let w3 = record w2 { manager = retire t w2.manager }
  ok (incr_time_taken erase_event.time_taken e, count_erase w3)

-- `invalid_list.back()` and `invalid_list.pop_back()`
pub split_last : List ℕ → Option (List ℕ × ℕ)
split_last [] = none
split_last (b ∷ bs) = elim (split_last bs) [
  | none ↦ some ([], b)
  | some (rest, l) ↦ some (b ∷ rest, l)
]

-- The first loop of `Block_manager::insert_events`: erase the invalid blocks, the last first, `n` at
-- most. What is left of `n` is returned.
pub erase_invalid : Config → ℕ → Event → Machine → Run (ℕ × Event × Machine)
unfolding erase_at split_last
erase_invalid c zero e w = ok (zero, e, w)
erase_invalid c (suc n) e w = elim (split_last w.manager.invalid_list) [
  | none ↦ ok (suc n, e, w)
  | some (rest, b) ↦ (do
    (erase_event, w1) ← erase_at c (at c b AddressValid.block) e.start_time e w
    let w2 = push_free b w1
    let w3 = record w2 { manager = record w2.manager { invalid_list = rest } }
    erase_invalid c n (incr_time_taken erase_event.time_taken e) (count_erase w3))
]

-- `(int)n`, as a number above zero and a number below it.
abbrev above_zero : ℕ → ℕ
above_zero n = if ltb (n % 2 ^ 32) (2 ^ 31) then n % 2 ^ 32 else 0

abbrev below_zero : ℕ → ℕ
below_zero n = if ltb (n % 2 ^ 32) (2 ^ 31) then 0 else 2 ^ 32 - n % 2 ^ 32

-- `ratio < 0.90`: the counters are cast to `int`. The ratio is a `float` and 0.90 a `double` above the
-- nearest one, so that nine tenths are below it. The rounding of `float` is not modelled otherwise.
pub few_used : Config → BlockManager → Bool
few_used c b =
    let used =
      above_zero (length b.invalid_list)
      + above_zero b.log_active
      + above_zero b.data_active
      + below_zero (length b.free_list) in
    let unused =
      below_zero (length b.invalid_list)
      + below_zero b.log_active
      + below_zero b.data_active
      + above_zero (length b.free_list) in
    let total = number_of_addressable_blocks c in
    if total == 0 then ltb used unused else leb (used * 10) (total * 9 + unused * 10)
