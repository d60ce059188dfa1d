-- ===== src/Flash/Block.antt =====
-- ssd_block.cpp: a block of pages, which are written one by one and erased together.
pub mod Moves
pub mod Counts
pub mod Effects
pub mod Returns
use mnftl.Base.{
  ℕ, zero, suc, ◌+◌, ◌-◌, ◌*◌, ◌/◌, ◌%◌, ◌^◌, ◌≤◌, ◌<◌, max, ◌≡◌, refl, sym, ap, ◌∙◌, subst, ◌≢◌,
  ◌↔◌, ◌⊎◌, inl, inr, Bool, true, false, not, ◌&&◌, ◌||◌, Option, none, some, List, [], ◌∷◌, ◌++◌,
  map, arith, ltb, leb, ◌==◌, if◌then◌else◌, ltb→lt, lt→ltb, leb→le, le→leb, ==_iff, if_cases,
  Bool-cases, Option-cases, u32, u64, Run, ok, abort, ◌>>=◌, ◌>>◌, assert, or_abort, fetch, length,
  get_elem?, set, replicate, count_if, keep_if, All, length-append, length-set, length-replicate,
  get_elem?-lt, get_elem?_total, get_elem?-set_self, get_elem?-set_ne, get_elem?-replicate,
  count_if-set, count_if-replicate, All_get, All-set,
}
use mnftl.Config.{
  Config, PageState, empty, valid, invalid, BlockState, free, active, inactive, Status, failure,
  success, BlockType, data_block, AddressValid,
}
use mnftl.Address.{Address, set_linear_address}
use mnftl.Event.{Event, incr_time_taken}
use mnftl.Flash.Wear.{route}
use mnftl.Flash.Page
use mnftl.Flash.Page.{Page, Memory, Outcome, new_page, is_empty, is_invalid}

-- `class Block` of ssd.h. `modification_time` is `none` for the -1 of a block never written.
pub record Block : Type 0 where
  pub physical_address : ℕ
  pub size : ℕ
  pub pages : List Page
  pub pages_valid : ℕ
  pub pages_invalid : ℕ
  pub state : BlockState
  pub erases_remaining : ℕ
  pub last_erase_time : ℕ
  pub modification_time : Option ℕ
  pub btype : BlockType

-- `Block::Block`. It leaves `btype` unset: a data block here.
unfoldable pub new_block : Config → ℕ → Block
new_block c physical_address = record {
  physical_address = physical_address;
  size = c.block_size;
  pages = replicate c.block_size new_page;
  pages_valid = 0;
  pages_invalid = 0;
  state = free;
  erases_remaining = c.block_erases;
  last_erase_time = 0;
  modification_time = none;
  btype = data_block;
}

-- `Block::read`
unfoldable pub read : Config → Event → Memory → Block → Outcome Block
unfolding route
read c e m b = do
  (s, e', m', pages) ← route e.address.page (Page.read c e m) b.pages
  ok (s, e', m', record b { pages = pages })

-- What `Block::write` updates after the page.
pub written : Event → Block → Block
written e b = if e.noop then b else record b {
  pages_valid = u32 (b.pages_valid + 1);
  state = active;
  modification_time = some e.start_time;
}

-- `Block::write`
unfoldable pub write : Config → Event → Memory → Block → Outcome Block
unfolding route written
write c e m b = do
  (s, e', m', pages) ← route e.address.page (Page.write c e m) b.pages
  ok (s, e', m', written e' (record b { pages = pages }))

-- The block state that `Block::invalidate_page` computes.
pub state_of : (pages_valid pages_invalid size : ℕ) → BlockState
state_of pages_valid pages_invalid size =
    if leb size pages_invalid
    then inactive
    else if ltb 0 pages_valid || ltb 0 pages_invalid
    then active
    else free

-- `Block::invalidate_page`
unfoldable pub invalidate_page : ℕ → Block → Run Block
unfolding state_of
invalidate_page i b = do
  assert (ltb i b.size)
  p ← fetch b.pages i
  let count = u32 (b.pages_invalid + 1)
  ok (
      if is_invalid p.state then b else record b {
        pages = set b.pages i (record p { state = invalid });
        pages_invalid = count;
        state = state_of b.pages_valid count b.size;
      })

-- `Block::replace`
unfoldable pub replace : Event → Memory → Block → Outcome Block
replace e m b = do b' ← invalidate_page e.replace_address.page b; ok (success, e, m, b')

-- `Block::_erase`
pub erase : Config → Event → Memory → Block → Outcome Block
erase c e m b =
    let e' = incr_time_taken c.block_erase_delay e in
    let erased = record b {
      pages = map (λ (p : Page). record p { state = empty }) b.pages;
      last_erase_time = e'.start_time + e'.time_taken;
      erases_remaining = b.erases_remaining - 1;
      pages_valid = 0;
      pages_invalid = 0;
      state = free;
    } in
    if e.noop
    then ok (success, e, m, b)
    else if ltb b.erases_remaining 1
    then ok (failure, e, m, b)
    else ok (success, e', m, erased)

-- The loop of `Block::get_next_page`: the first empty page.
pub first_empty : List Page → Option ℕ
first_empty [] = none
first_empty (p ∷ ps) =
    let rest = first_empty ps in
    if is_empty p.state then some 0 else elim rest [ none ↦ none | some i ↦ some (suc i) ]

-- `Block::get_next_page`
pub get_next_page : Config → Block → Address → Status × Address
unfolding first_empty
get_next_page c b a = elim (first_empty b.pages) [
  | none ↦ (failure, a)
  | some i ↦ (
    success,
    set_linear_address c (i + b.physical_address - b.physical_address % c.block_size)
        AddressValid.page a,
  )
]
