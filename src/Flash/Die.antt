-- ===== src/Flash/Die.antt =====
-- ssd_die.cpp: a die of planes.
pub mod Effects
pub mod Returns
use mnftl.Base.{
  ℕ, zero, suc, ◌+◌, ◌-◌, ◌*◌, ◌/◌, ◌%◌, ◌^◌, ◌≤◌, ◌<◌, max, ◌≡◌, refl, sym, ap, ◌∙◌, subst, ◌≢◌,
  ◌↔◌, ◌⊎◌, inl, inr, Bool, true, false, not, ◌&&◌, ◌||◌, Option, none, some, List, [], ◌∷◌, ◌++◌,
  map, arith, ltb, leb, ◌==◌, if◌then◌else◌, ltb→lt, lt→ltb, leb→le, le→leb, ==_iff, if_cases,
  Bool-cases, Option-cases, u32, u64, Run, ok, abort, ◌>>=◌, ◌>>◌, assert, or_abort, fetch, length,
  get_elem?, set, replicate, count_if, keep_if, All, length-append, length-set, length-replicate,
  get_elem?-lt, get_elem?_total, get_elem?-set_self, get_elem?-set_ne, get_elem?-replicate,
  count_if-set, count_if-replicate, All_get, All-set,
}
use mnftl.Config.{Config, PageState, BlockState, Status, failure, success, AddressValid, rank}
use mnftl.Address.{Address}
use mnftl.Event.{Event}
use mnftl.Flash.Page.{Memory, Outcome}
use mnftl.Flash.Wear.{route, wear_stats}
use mnftl.Flash.Block.{Block}
use mnftl.Flash.Plane
use mnftl.Flash.Plane.{Plane}
use mnftl.Flash.Plane.Merge

-- `class Die` of ssd.h.
pub record Die : Type 0 where
  pub size : ℕ
  pub planes : List Plane
  pub least_worn : ℕ
  pub erases_remaining : ℕ
  pub last_erase_time : ℕ

-- The loop of `Die::Die`: `n` planes, the first at the given physical address.
pub new_planes : Config → ℕ → ℕ → List Plane
new_planes c zero physical_address = []
new_planes c (suc n) physical_address =
    Plane.new_plane c physical_address
    ∷ new_planes c n (physical_address + c.plane_size * c.block_size)

-- `Die::Die`; the call of `channel.connect` is in `Ssd.new_ssd`.
unfoldable pub new_die : Config → ℕ → Die
unfolding new_planes
new_die c physical_address = record {
  size = c.die_size;
  planes = new_planes c c.die_size physical_address;
  least_worn = 0;
  erases_remaining = c.block_erases;
  last_erase_time = 0;
}

-- `Die::read`
unfoldable pub read : Config → Event → Memory → Die → Outcome Die
unfolding route
read c e m d = do
  assert (ltb e.address.plane d.size && ltb 2 (rank e.address.valid))
  (s, e', m', planes) ← route e.address.plane (Plane.read c e m) d.planes
  ok (s, e', m', record d { planes = planes })

-- `Die::write`
unfoldable pub write : Config → Event → Memory → Die → Outcome Die
unfolding route
write c e m d = do
  assert (ltb e.address.plane d.size && ltb 2 (rank e.address.valid))
  (s, e', m', planes) ← route e.address.plane (Plane.write c e m) d.planes
  ok (s, e', m', record d { planes = planes })

-- `Die::replace`
unfoldable pub replace : Event → Memory → Die → Outcome Die
unfolding route
replace e m d = do
  assert (ltb e.address.plane d.size)
  (s, e', m', planes) ← route e.replace_address.plane (Plane.replace e m) d.planes
  ok (s, e', m', record d { planes = planes })

-- The erases that the planes report for an address, in order.
unfoldable pub erases_of : Address → List Plane → Run (List ℕ)
erases_of a [] = ok []
erases_of a (p ∷ ps) = do n ← Plane.get_erases_remaining a p; ns ← erases_of a ps; ok (n ∷ ns)

-- `Die::update_wear_stats`
unfoldable pub update_wear_stats : Address → Die → Run Die
unfolding erases_of wear_stats
update_wear_stats a d = do
  erases ← erases_of a d.planes
  (i, most) ← wear_stats erases
  p ← fetch d.planes i
  t ← Plane.get_last_erase_time a p
  ok (record d { least_worn = i; erases_remaining = most; last_erase_time = t })

-- `if(status == SUCCESS) update_wear_stats(event.get_address())`
after_erase : Status → Address → Die → Run Die
unfolding update_wear_stats
after_erase failure a d = ok d
after_erase success a d = update_wear_stats a d

-- `Die::erase`
pub erase : Config → Event → Memory → Die → Outcome Die
unfolding route after_erase
erase c e m d = do
  assert (ltb e.address.plane d.size && ltb 2 (rank e.address.valid))
  (s, e', m', planes) ← route e.address.plane (Plane.erase c e m) d.planes
  d' ← after_erase s e'.address (record d { planes = planes })
  ok (s, e', m', d')

-- The guard of `Die::merge`, and of the stub `Die::_merge` that it calls for two planes.
in_die : Event → Die → Bool
in_die e d =
    ltb e.address.plane d.size
    && ltb 2 (rank e.address.valid)
    && ltb e.merge_address.plane d.size
    && ltb 2 (rank e.merge_address.valid)

-- `Die::merge`: `Die::_merge` for two planes changes nothing.
pub merge : Config → Event → Memory → Die → Outcome Die
unfolding route in_die
merge c e m d = do
  assert (in_die e d)
  (s, e', m', planes) ←
      if e.address.plane == e.merge_address.plane
      then route e.address.plane (Merge.merge c e m) d.planes
      else ok (success, e, m, d.planes)
  ok (s, e', m', record d { planes = planes })

-- `Die::get_last_erase_time` and `Die::get_erases_remaining`
pub get_last_erase_time : Address → Die → Run ℕ
get_last_erase_time a d =
    if ltb 2 (rank a.valid) && ltb a.plane d.size
    then (do p ← fetch d.planes a.plane; Plane.get_last_erase_time a p)
    else ok d.last_erase_time

unfoldable pub get_erases_remaining : Address → Die → Run ℕ
get_erases_remaining a d =
    if ltb 2 (rank a.valid) && ltb a.plane d.size
    then (do p ← fetch d.planes a.plane; Plane.get_erases_remaining a p)
    else ok d.erases_remaining

-- `Die::get_least_worn`
pub get_least_worn : Address → Die → Run Address
get_least_worn a d = do
  assert (ltb d.least_worn d.size)
  p ← fetch d.planes d.least_worn
  Plane.get_least_worn (record a { plane = d.least_worn; valid = AddressValid.plane }) p

-- `Die::get_state`
pub get_state : Address → Die → Run PageState
get_state a d = do
  assert (ltb a.plane d.size && leb 2 (rank a.valid))
  p ← fetch d.planes a.plane
  Plane.get_state a p

-- `Die::get_free_page`
unfoldable pub get_free_page : Config → Address → Die → Run Address
get_free_page c a d = do
  assert (ltb a.plane d.size && leb 3 (rank a.valid))
  p ← fetch d.planes a.plane
  Plane.get_free_page c a p

-- `Die::get_num_valid` and `Die::get_block_pointer`
pub get_num_valid : Address → Die → Run ℕ
get_num_valid a d = do
  assert (leb 3 (rank a.valid))
  p ← fetch d.planes a.plane
  Plane.get_num_valid a p

pub get_block_pointer : Address → Die → Run Block
get_block_pointer a d = do
  assert (leb 3 (rank a.valid))
  p ← fetch d.planes a.plane
  Plane.get_block_pointer a p

-- An update of the block behind the pointer that `Die::get_block_pointer` returns.
unfoldable pub modify_block : Address → (Block → Run Block) → Die → Run Die
modify_block a f d = do
  assert (leb 3 (rank a.valid))
  p ← fetch d.planes a.plane
  p' ← Plane.modify_block a f p
  ok (record d { planes = set d.planes a.plane p' })

-- `Die::get_block_state`, `Die::get_num_free` and `Die::get_num_invalid`
pub get_block_state : Address → Die → Run BlockState
get_block_state a d = do
  assert (ltb a.plane d.size && leb 2 (rank a.valid))
  p ← fetch d.planes a.plane
  Plane.get_block_state a p

pub get_num_free : Address → Die → Run ℕ
get_num_free a d = do
  assert (leb 3 (rank a.valid))
  p ← fetch d.planes a.plane
  Plane.get_num_free a p

pub get_num_invalid : Address → Die → Run ℕ
get_num_invalid a d = do
  assert (leb 3 (rank a.valid))
  p ← fetch d.planes a.plane
  Plane.get_num_invalid a p
