-- ===== src/Ftls/PageFtl.antt =====
-- FTLs/page_ftl.cpp: the page-level FTL. It keeps no mapping: reads and writes go to fixed addresses as
-- events without effect, and it counts the pages in use to pay for the erases.
pub mod Active
use mnftl.Base.{
  ℕ, zero, suc, ◌+◌, ◌-◌, ◌*◌, ◌/◌, ◌%◌, ◌^◌, ◌≤◌, ◌<◌, max, ◌≡◌, refl, sym, ap, ◌∙◌, subst, ◌≢◌,
  ◌↔◌, ◌⊎◌, inl, inr, Bool, true, false, not, ◌&&◌, ◌||◌, Option, none, some, List, [], ◌∷◌, ◌++◌,
  map, arith, ltb, leb, ◌==◌, if◌then◌else◌, ltb→lt, lt→ltb, leb→le, le→leb, ==_iff, if_cases,
  Bool-cases, Option-cases, u32, u64, Run, ok, abort, ◌>>=◌, ◌>>◌, assert, or_abort, fetch, Every,
  Every-bind, Every-assert, Every_ok, Every-trivial, Every-fetch, Every-both, Every-map, Returns,
  Returns-bind, Returns-assert, Returns-fetch, Returns-Every, Returns-map, Returns-eq, length,
  get_elem?, set, replicate, count_if, keep_if, All, length-append, length-set, length-replicate,
  get_elem?-lt, get_elem?_total, get_elem?-set_self, get_elem?-set_ne, get_elem?-set,
  get_elem?-replicate, count_if-set, count_if-replicate, All_get, All-set,
}
use mnftl.Config.{Config, EventType, Status, AddressValid}
use mnftl.Address.{Address, at}
use mnftl.Event.{Event, new_event, set_address, set_noop, incr_time_taken}
use mnftl.BlockManager.{Machine, issue, count_erase}

-- `class FtlImpl_Page` of ssd.h; its members `currentPage` and `map` are never used.
pub record PageFtl : Type 0 where
  pub num_pages_active : ℕ
  pub trim_map : List Bool

-- `NUMBER_OF_ADDRESSABLE_BLOCKS * BLOCK_SIZE`: both the number of blocks, a quotient of a product, and
-- this product are computed in 32 bits.
unfoldable pub capacity : Config → ℕ
capacity c = u32 (
    u32 (c.ssd_size * c.package_size * c.die_size * c.plane_size)
    / c.virtual_page_size
    * c.block_size)

-- `FtlImpl_Page::FtlImpl_Page`. What a new array of `bool` holds is not defined.
pub new_page_ftl : (uninitialised : List Bool) → PageFtl
new_page_ftl uninitialised = record { num_pages_active = 0; trim_map = uninitialised }

abbrev pub Reply : Type 0
Reply = Run (Status × Event × PageFtl × Machine)

abbrev pub count_read : Machine → Machine
count_read w = record w { stats = record w.stats { num_ftl_read = w.stats.num_ftl_read + 1 } }

abbrev pub count_write : Machine → Machine
count_write w = record w { stats = record w.stats { num_ftl_write = w.stats.num_ftl_write + 1 } }

abbrev pub count_trim : Machine → Machine
count_trim w = record w { stats = record w.stats { num_ftl_trim = w.stats.num_ftl_trim + 1 } }

-- `FtlImpl_Page::read`
unfoldable pub read : Config → Event → PageFtl → Machine → Reply
read c e f w = do
  (s, e', w') ← issue c (set_noop true (set_address (at c 0 AddressValid.page) e)) (count_read w)
  ok (s, e', f, w')

-- The erase event of `write` and of `trim`; where it fails, the source prints a message and goes on.
pub erase_first : Config → Event → Machine → Run (Event × Machine)
erase_first c e w = do
  let erase_event = new_event EventType.erase e.logical_address 1 e.start_time
  (_, done, w') ← issue c (set_address (at c 0 AddressValid.page) erase_event) w
  ok (incr_time_taken done.time_taken e, count_erase w')

-- `numPagesActive -= BLOCK_SIZE`
abbrev pub less_block : Config → PageFtl → PageFtl
less_block c f = record f { num_pages_active = u64 (f.num_pages_active + (2 ^ 64 - c.block_size)) }

-- A block is erased once all pages are in use.
unfoldable pub make_room : Config → Event → PageFtl → Machine → Run (Event × PageFtl × Machine)
unfolding erase_first
make_room c e f w =
    if f.num_pages_active == capacity c
    then (do (e', w') ← erase_first c e w; ok (e', less_block c f, w'))
    else ok (e, f, w)

-- `FtlImpl_Page::write`
unfoldable pub write : Config → Event → PageFtl → Machine → Reply
unfolding make_room
write c e f w = do
  let e0 = set_noop true (set_address (at c 1 AddressValid.page) e)
  (e1, f1, w1) ← make_room c e0 f (count_write w)
  let f2 = record f1 { num_pages_active = u64 (f1.num_pages_active + 1) }
  (s, e2, w2) ← issue c e1 w1
  ok (s, e2, f2, w2)

-- The loops of `trim`, over `n` pages from `i` on: whether all of them are trimmed, and their reset.
unfoldable pub all_trimmed : (n i : ℕ) → List Bool → Run Bool
all_trimmed zero i m = ok true
all_trimmed (suc n) i m = do b ← fetch m i; rest ← all_trimmed n (suc i) m; ok (b && rest)

unfoldable pub reset : (n i : ℕ) → List Bool → List Bool
reset zero i m = m
reset (suc n) i m = reset n (suc i) (set m i false)

-- `FtlImpl_Page::trim`
unfoldable pub trim : Config → Event → PageFtl → Machine → Reply
unfolding all_trimmed reset erase_first
trim c e f w0 = do
  let w = count_trim w0
  let lpn = u32 e.logical_address
  old ← fetch f.trim_map e.logical_address
  let m = set f.trim_map e.logical_address true
  let start = lpn - lpn % c.block_size
  all ← all_trimmed c.block_size start m
  let done = (do
    (e', w') ← erase_first c e w
    ok (Status.success, e', less_block c (record f { trim_map = reset c.block_size start m }), w'))
  if all then done else ok (Status.success, e, record f { trim_map = m }, w)
