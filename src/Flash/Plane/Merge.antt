-- ===== src/Flash/Plane/Merge.antt =====
-- `Plane::_merge`: the valid pages of one block are to move to the empty pages of another.
pub mod Moved
pub mod Stops
use mnftl.Base.{
  ℕ, zero, suc, ◌+◌, ◌&&◌, Option, none, some, List, [], ◌∷◌, ltb, leb, ◌==◌, if◌then◌else◌, Run,
  ok, ◌>>=◌, ◌>>◌, assert, fetch, length, set, count_if,
}
use mnftl.Config.{Config, Status, failure, success, EventType, AddressValid, rank}
use mnftl.Address.{compare_address}
use mnftl.Event.{Event, new_event, set_address, incr_time_taken}
use mnftl.Flash.Page.{Page, Memory, Outcome, is_valid, is_empty}
use mnftl.Flash.Block
use mnftl.Flash.Block.{Block}
use mnftl.Flash.Plane.{Plane}

-- What the loops of `Plane::_merge` update.
pub record Merging : Type 0 where
  pub blocks : List Block
  pub memory : Memory
  pub read_event : Event
  pub write_event : Event
  pub write_page : ℕ
  pub num_merged : ℕ
  pub total_delay : ℕ
  pub errors : ℕ

-- The first empty page from a page number on, among the pages from number `i`.
unfoldable pub empty_from : (from i : ℕ) → List Page → Option ℕ
empty_from from i [] = none
empty_from from i (p ∷ ps) =
    let rest = empty_from from (suc i) ps in if leb from i && is_empty p.state then some i else rest

abbrev pub failed : Status → ℕ
failed failure = 1
failed success = 0

-- The inner loop: write to the first empty page that is left, if any. It writes by `write_event`,
-- whose address it does not move.
pub merge_write : Config → ℕ → Merging → Run Merging
unfolding empty_from
merge_write c target g = do
  b ← fetch g.blocks target
  elim (empty_from g.write_page 0 b.pages) [
    | none ↦ ok (record g { write_page = length b.pages })
    | some j ↦ (do
      (s, e, m, b') ← Block.write c g.write_event g.memory b
      ok (record g {
        blocks = set g.blocks target b';
        memory = m;
        write_event = e;
        write_page = j;
        num_merged = g.num_merged + 1;
        total_delay = g.total_delay + c.plane_reg_read_delay;
        errors = g.errors + failed s;
      }))
  ]

-- One round of the outer loop at a valid page: read it by `read_event`, invalidate it, write it.
pub merge_page : Config → (source target page : ℕ) → Merging → Run Merging
unfolding merge_write
merge_page c source target i g = do
  b ← fetch g.blocks source
  (s, e, m, b') ← Block.read c g.read_event g.memory b
  b'' ← Block.invalidate_page i b'
  merge_write c target (record g {
    blocks = set g.blocks source b'';
    memory = m;
    read_event = e;
    total_delay = g.total_delay + c.plane_reg_write_delay;
    errors = g.errors + failed s;
  })

-- A round at any page: only a valid one is moved.
pub merge_round : Config → (source target page : ℕ) → Merging → Run Merging
unfolding merge_page
merge_round c source target i g = do
  b ← fetch g.blocks source
  p ← fetch b.pages i
  if is_valid p.state then merge_page c source target i g else ok g

-- The outer loop, with `n` pages left of the block and `count` pages to move.
pub merge_loop : Config → (source target count : ℕ) → (n page : ℕ) → Merging → Run Merging
merge_loop c source target count zero i g = ok g
merge_loop c source target count (suc n) i g =
    let next = merge_round c source target i g >>= merge_loop c source target count n (suc i) in
    if ltb g.num_merged count then next else ok g

-- The two events that the loops use again and again.
abbrev pub start_merge : Event → Memory → Plane → Merging
start_merge e m p = record {
  blocks = p.blocks;
  memory = m;
  read_event =
      set_address (record e.address { page = 0; valid = AddressValid.page })
        (new_event EventType.read 0 1 e.start_time);
  write_event =
      set_address (record e.merge_address { page = 0; valid = AddressValid.page })
        (new_event EventType.write 0 1 e.start_time);
  write_page = 0;
  num_merged = 0;
  total_delay = 0;
  errors = 0;
}

merge_into : Config → Event → Memory → Plane → (count size : ℕ) → Outcome Plane
unfolding merge_loop
merge_into c e m p count size = do
  g ← merge_loop c e.address.block e.merge_address.block count size 0 (start_merge e m p)
  ok (
    if g.errors == 0 then success else failure,
    incr_time_taken (g.total_delay + (g.read_event.time_taken + g.write_event.time_taken)) e,
    g.memory,
    record p { blocks = g.blocks },
  )

-- `Plane::_merge`
pub merge : Config → Event → Memory → Plane → Outcome Plane
unfolding merge_into
merge c e m p = do
  assert (ltb e.address.block p.size && ltb 3 (rank e.address.valid))
  assert (leb 4 (rank (compare_address e.address e.merge_address)))
  assert (ltb e.merge_address.block p.size)
  b ← fetch p.blocks e.address.block
  t ← fetch p.blocks e.merge_address.block
  let count = count_if (λ (g : Page). is_valid g.state) b.pages
  let room = count_if (λ (g : Page). is_empty g.state) t.pages
  if ltb room count then ok (failure, e, m, p) else merge_into c e m p count b.size
