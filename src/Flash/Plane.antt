-- ===== src/Flash/Plane.antt =====
-- ssd_plane.cpp: a plane of blocks. `Plane::get_next_page` returns at once, so `next_page` stays as
-- the constructor sets it, and its calls are left out.
pub mod Merge
pub mod Effects
pub mod Returns
use mnftl.Base.{
  ℕ, zero, suc, ◌+◌, ◌-◌, ◌*◌, ◌/◌, ◌%◌, ◌^◌, ◌≤◌, ◌<◌, max, ◌≡◌, refl, sym, ap, ◌∙◌, subst, ◌≢◌,
  ◌↔◌, ◌⊎◌, inl, inr, Bool, true, false, not, ◌&&◌, ◌||◌, Option, none, some, List, [], ◌∷◌, ◌++◌,
  map, arith, ltb, leb, ◌==◌, if◌then◌else◌, ltb→lt, lt→ltb, leb→le, le→leb, ==_iff, if_cases,
  Bool-cases, Option-cases, u32, u64, Run, ok, abort, ◌>>=◌, ◌>>◌, assert, or_abort, fetch, length,
  get_elem?, set, replicate, count_if, keep_if, All, length-append, length-set, length-replicate,
  get_elem?-lt, get_elem?_total, get_elem?-set_self, get_elem?-set_ne, get_elem?-replicate,
  count_if-set, count_if-replicate, All_get, All-set,
}
use mnftl.Config.{
  Config, PageState, BlockState, free, active, inactive, Status, failure, success, AddressValid,
  rank,
}
use mnftl.Address.{Address, no_address, set_linear_address}
use mnftl.Event.{Event}
use mnftl.Flash.Page.{Memory, Outcome}
use mnftl.Flash.Wear.{route, wear_stats}
use mnftl.Flash.Block
use mnftl.Flash.Block.{Block}

-- `class Plane` of ssd.h.
pub record Plane : Type 0 where
  pub size : ℕ
  pub blocks : List Block
  pub least_worn : ℕ
  pub erases_remaining : ℕ
  pub last_erase_time : ℕ
  pub next_page : Address
  pub free_blocks : ℕ

-- The loop of `Plane::Plane`: `n` blocks, the first at the given physical address.
pub new_blocks : Config → ℕ → ℕ → List Block
new_blocks c zero physical_address = []
new_blocks c (suc n) physical_address =
    Block.new_block c physical_address ∷ new_blocks c n (physical_address + c.block_size)

-- `Plane::Plane`
unfoldable pub new_plane : Config → ℕ → Plane
unfolding new_blocks
new_plane c physical_address = record {
  size = c.plane_size;
  blocks = new_blocks c c.plane_size physical_address;
  least_worn = 0;
  erases_remaining = c.block_erases;
  last_erase_time = 0;
  next_page = record no_address { valid = AddressValid.page };
  free_blocks = c.plane_size;
}

-- `Plane::read`
unfoldable pub read : Config → Event → Memory → Plane → Outcome Plane
unfolding route
read c e m p = do
  assert (ltb e.address.block p.size && ltb 3 (rank e.address.valid))
  (s, e', m', blocks) ← route e.address.block (Block.read c e m) p.blocks
  ok (s, e', m', record p { blocks = blocks })

abbrev pub is_free : BlockState → Bool
is_free free = true
is_free _ = false

-- `free_blocks--` where the block was free and is so no longer.
pub taken_from : BlockState → BlockState → ℕ → ℕ
taken_from before after n =
    if is_free before && not (is_free after) then u32 (n + 2 ^ 32 - 1) else n

-- `Plane::write`
unfoldable pub write : Config → Event → Memory → Plane → Outcome Plane
unfolding taken_from route
write c e m p = do
  assert
      (ltb e.address.block p.size && ltb 3 (rank e.address.valid) && leb 4 (rank p.next_page.valid))
  prev ← fetch p.blocks e.address.block
  (s, e', m', blocks) ← route e.address.block (Block.write c e m) p.blocks
  b ← fetch blocks e'.address.block
  ok (
    s,
    e',
    m',
    record p { blocks = blocks; free_blocks = taken_from prev.state b.state p.free_blocks },
  )

-- `Plane::replace`
unfoldable pub replace : Event → Memory → Plane → Outcome Plane
unfolding route
replace e m p = do
  assert (ltb e.address.block p.size)
  (s, e', m', blocks) ← route e.replace_address.block (Block.replace e m) p.blocks
  ok (s, e', m', record p { blocks = blocks })

-- `Plane::update_wear_stats`
unfoldable pub update_wear_stats : Plane → Run Plane
unfolding wear_stats
update_wear_stats p = do
  (i, most) ← wear_stats (map (λ (b : Block). b.erases_remaining) p.blocks)
  b ← fetch p.blocks i
  ok (record p { least_worn = i; erases_remaining = most; last_erase_time = b.last_erase_time })

-- What `Plane::erase` does after its block, by the status of that.
after_erase : Status → Plane → Run Plane
unfolding update_wear_stats
after_erase failure p = ok p
after_erase success p = do
  p' ← update_wear_stats p
  ok (record p' { free_blocks = u32 (p'.free_blocks + 1) })

-- `Plane::erase`
pub erase : Config → Event → Memory → Plane → Outcome Plane
unfolding route after_erase
erase c e m p = do
  assert (ltb e.address.block p.size && ltb 3 (rank e.address.valid))
  (s, e', m', blocks) ← route e.address.block (Block.erase c e m) p.blocks
  p' ← after_erase s (record p { blocks = blocks })
  ok (s, e', m', p')

-- `Plane::get_last_erase_time` and `Plane::get_erases_remaining`
pub get_last_erase_time : Address → Plane → Run ℕ
get_last_erase_time a p =
    if ltb 3 (rank a.valid) && ltb a.block p.size
    then (do b ← fetch p.blocks a.block; ok b.last_erase_time)
    else ok p.last_erase_time

unfoldable pub get_erases_remaining : Address → Plane → Run ℕ
get_erases_remaining a p =
    if ltb 3 (rank a.valid) && ltb a.block p.size
    then (do b ← fetch p.blocks a.block; ok b.erases_remaining)
    else ok p.erases_remaining

-- `Plane::get_least_worn`
pub get_least_worn : Address → Plane → Run Address
get_least_worn a p = do
  assert (ltb p.least_worn p.size)
  ok (record a { block = p.least_worn; valid = AddressValid.block })

-- `Plane::get_state`, with `Block::get_state(const Address &)`
pub get_state : Address → Plane → Run PageState
get_state a p = do
  assert (ltb a.block p.size && leb 3 (rank a.valid))
  b ← fetch p.blocks a.block
  assert (ltb a.page b.size && leb 4 (rank a.valid))
  g ← fetch b.pages a.page
  ok g.state

-- `Plane::get_free_page`
unfoldable pub get_free_page : Config → Address → Plane → Run Address
get_free_page c a p = do
  b ← fetch p.blocks a.block
  assert (ltb b.pages_valid c.block_size)
  ok (
      set_linear_address c (a.real_address + b.pages_valid - a.real_address % c.block_size)
        AddressValid.page a)

-- `Plane::get_num_valid` and `Plane::get_block_pointer`
pub get_num_valid : Address → Plane → Run ℕ
get_num_valid a p = do assert (leb 3 (rank a.valid)); b ← fetch p.blocks a.block; ok b.pages_valid

pub get_block_pointer : Address → Plane → Run Block
get_block_pointer a p = do assert (leb 3 (rank a.valid)); fetch p.blocks a.block

-- An update of the block behind the pointer that `Plane::get_block_pointer` returns.
unfoldable pub modify_block : Address → (Block → Run Block) → Plane → Run Plane
modify_block a f p = do
  assert (leb 3 (rank a.valid))
  b ← fetch p.blocks a.block
  b' ← f b
  ok (record p { blocks = set p.blocks a.block b' })

-- `Plane::get_block_state`, `Plane::get_num_free` and `Plane::get_num_invalid`
pub get_block_state : Address → Plane → Run BlockState
get_block_state a p = do
  assert (ltb a.block p.size && leb 3 (rank a.valid))
  b ← fetch p.blocks a.block
  ok b.state

pub get_num_free : Address → Plane → Run ℕ
get_num_free a p = do assert (leb 3 (rank a.valid)); ok p.free_blocks

pub get_num_invalid : Address → Plane → Run ℕ
get_num_invalid a p = do
  assert (leb 3 (rank a.valid))
  b ← fetch p.blocks a.block
  ok b.pages_invalid
