-- ===== src/Flash/Package.antt =====
-- ssd_package.cpp: a package of dies.
pub mod Effects
pub mod Returns
use mnftl.Base.{
  ℕ, zero, suc, ◌+◌, ◌-◌, ◌*◌, ◌/◌, ◌%◌, ◌^◌, ◌≤◌, ◌<◌, max, ◌≡◌, refl, sym, ap, ◌∙◌, subst, ◌≢◌,
  ◌↔◌, ◌⊎◌, inl, inr, Bool, true, false, not, ◌&&◌, ◌||◌, Option, none, some, List, [], ◌∷◌, ◌++◌,
  map, arith, ltb, leb, ◌==◌, if◌then◌else◌, ltb→lt, lt→ltb, leb→le, le→leb, ==_iff, if_cases,
  Bool-cases, Option-cases, u32, u64, Run, ok, abort, ◌>>=◌, ◌>>◌, assert, or_abort, fetch, length,
  get_elem?, set, replicate, count_if, keep_if, All, length-append, length-set, length-replicate,
  get_elem?-lt, get_elem?_total, get_elem?-set_self, get_elem?-set_ne, get_elem?-replicate,
  count_if-set, count_if-replicate, All_get, All-set,
}
use mnftl.Config.{Config, PageState, BlockState, Status, failure, success, AddressValid, rank}
use mnftl.Address.{Address}
use mnftl.Event.{Event}
use mnftl.Flash.Page.{Memory, Outcome}
use mnftl.Flash.Wear.{route, wear_stats}
use mnftl.Flash.Block.{Block}
use mnftl.Flash.Die
use mnftl.Flash.Die.{Die}

-- `class Package` of ssd.h.
pub record Package : Type 0 where
  pub size : ℕ
  pub dies : List Die
  pub least_worn : ℕ
  pub erases_remaining : ℕ
  pub last_erase_time : ℕ

-- The loop of `Package::Package`: `n` dies, the first at the given physical address.
pub new_dies : Config → ℕ → ℕ → List Die
new_dies c zero physical_address = []
new_dies c (suc n) physical_address =
    Die.new_die c physical_address
    ∷ new_dies c n (physical_address + c.die_size * c.plane_size * c.block_size)

-- `Package::Package`
unfoldable pub new_package : Config → ℕ → Package
unfolding new_dies
new_package c physical_address = record {
  size = c.package_size;
  dies = new_dies c c.package_size physical_address;
  least_worn = 0;
  erases_remaining = c.block_erases;
  last_erase_time = 0;
}

-- `Package::read`
unfoldable pub read : Config → Event → Memory → Package → Outcome Package
unfolding route
read c e m d = do
  assert (ltb e.address.die d.size && ltb 1 (rank e.address.valid))
  (s, e', m', dies) ← route e.address.die (Die.read c e m) d.dies
  ok (s, e', m', record d { dies = dies })

-- `Package::write`
unfoldable pub write : Config → Event → Memory → Package → Outcome Package
unfolding route
write c e m d = do
  assert (ltb e.address.die d.size && ltb 1 (rank e.address.valid))
  (s, e', m', dies) ← route e.address.die (Die.write c e m) d.dies
  ok (s, e', m', record d { dies = dies })

-- `Package::replace`
unfoldable pub replace : Event → Memory → Package → Outcome Package
unfolding route
replace e m d = do
  (s, e', m', dies) ← route e.replace_address.die (Die.replace e m) d.dies
  ok (s, e', m', record d { dies = dies })

-- The erases that the dies report for an address, in order.
unfoldable pub erases_of : Address → List Die → Run (List ℕ)
erases_of a [] = ok []
erases_of a (p ∷ ps) = do n ← Die.get_erases_remaining a p; ns ← erases_of a ps; ok (n ∷ ns)

-- `Package::update_wear_stats`
unfoldable pub update_wear_stats : Address → Package → Run Package
unfolding erases_of wear_stats
update_wear_stats a d = do
  erases ← erases_of a d.dies
  (i, most) ← wear_stats erases
  p ← fetch d.dies i
  t ← Die.get_last_erase_time a p
  ok (record d { least_worn = i; erases_remaining = most; last_erase_time = t })

-- `if(status == SUCCESS) update_wear_stats(event.get_address())`
after_erase : Status → Address → Package → Run Package
unfolding update_wear_stats
after_erase failure a d = ok d
after_erase success a d = update_wear_stats a d

-- `Package::erase`
pub erase : Config → Event → Memory → Package → Outcome Package
unfolding route after_erase
erase c e m d = do
  assert (ltb e.address.die d.size && ltb 1 (rank e.address.valid))
  (s, e', m', dies) ← route e.address.die (Die.erase c e m) d.dies
  d' ← after_erase s e'.address (record d { dies = dies })
  ok (s, e', m', d')

-- `Package::merge`
pub merge : Config → Event → Memory → Package → Outcome Package
unfolding route
merge c e m d = do
  assert (ltb e.address.die d.size && ltb 1 (rank e.address.valid))
  (s, e', m', dies) ← route e.address.die (Die.merge c e m) d.dies
  ok (s, e', m', record d { dies = dies })

-- `Package::get_last_erase_time` and `Package::get_erases_remaining`
pub get_last_erase_time : Address → Package → Run ℕ
get_last_erase_time a d =
    if ltb 1 (rank a.valid) && ltb a.die d.size
    then (do p ← fetch d.dies a.die; Die.get_last_erase_time a p)
    else ok d.last_erase_time

unfoldable pub get_erases_remaining : Address → Package → Run ℕ
get_erases_remaining a d =
    if ltb 1 (rank a.valid) && ltb a.die d.size
    then (do p ← fetch d.dies a.die; Die.get_erases_remaining a p)
    else ok d.erases_remaining

-- `Package::get_least_worn`
pub get_least_worn : Address → Package → Run Address
get_least_worn a d = do
  assert (ltb d.least_worn d.size)
  p ← fetch d.dies d.least_worn
  Die.get_least_worn (record a { die = d.least_worn; valid = AddressValid.die }) p

-- `Package::get_state`
pub get_state : Address → Package → Run PageState
get_state a d = do
  assert (ltb a.die d.size && leb 1 (rank a.valid))
  p ← fetch d.dies a.die
  Die.get_state a p

-- `Package::get_free_page`
unfoldable pub get_free_page : Config → Address → Package → Run Address
get_free_page c a d = do
  assert (ltb a.die d.size && leb 2 (rank a.valid))
  p ← fetch d.dies a.die
  Die.get_free_page c a p

-- `Package::get_num_valid` and `Package::get_block_pointer`
pub get_num_valid : Address → Package → Run ℕ
get_num_valid a d = do assert (leb 2 (rank a.valid)); p ← fetch d.dies a.die; Die.get_num_valid a p

pub get_block_pointer : Address → Package → Run Block
get_block_pointer a d = do
  assert (leb 2 (rank a.valid))
  p ← fetch d.dies a.die
  Die.get_block_pointer a p

-- An update of the block behind the pointer that `Package::get_block_pointer` returns.
unfoldable pub modify_block : Address → (Block → Run Block) → Package → Run Package
modify_block a f d = do
  assert (leb 2 (rank a.valid))
  p ← fetch d.dies a.die
  p' ← Die.modify_block a f p
  ok (record d { dies = set d.dies a.die p' })

-- `Package::get_block_state`, `Package::get_num_free` and `Package::get_num_invalid`
pub get_block_state : Address → Package → Run BlockState
get_block_state a d = do
  assert (ltb a.die d.size && leb 1 (rank a.valid))
  p ← fetch d.dies a.die
  Die.get_block_state a p

pub get_num_free : Address → Package → Run ℕ
get_num_free a d = do assert (leb 2 (rank a.valid)); p ← fetch d.dies a.die; Die.get_num_free a p

pub get_num_invalid : Address → Package → Run ℕ
get_num_invalid a d = do
  assert (leb 2 (rank a.valid))
  p ← fetch d.dies a.die
  Die.get_num_invalid a p
