-- ===== src/Ssd.antt =====
-- ssd_ssd.cpp: the device: its bus and its packages. The controller and its FTL, which the class
-- holds too, stand in modules of their own.
pub mod Wear
pub mod Effects
pub mod Returns
pub mod Initial
pub mod FreePage
pub mod Numbers
pub mod Queries
use mnftl.Base.{
  ℕ, zero, suc, ◌+◌, ◌-◌, ◌*◌, ◌/◌, ◌%◌, ◌^◌, ◌≤◌, ◌<◌, max, ◌≡◌, refl, sym, ap, ◌∙◌, subst, ◌≢◌,
  ◌↔◌, ◌⊎◌, inl, inr, Bool, true, false, not, ◌&&◌, ◌||◌, Option, none, some, List, [], ◌∷◌, ◌++◌,
  map, arith, ltb, leb, ◌==◌, if◌then◌else◌, ltb→lt, lt→ltb, leb→le, le→leb, ==_iff, if_cases,
  Bool-cases, Option-cases, u32, u64, Run, ok, abort, ◌>>=◌, ◌>>◌, assert, or_abort, fetch, length,
  get_elem?, set, replicate, count_if, keep_if, All, length-append, length-set, length-replicate,
  get_elem?-lt, get_elem?_total, get_elem?-set_self, get_elem?-set_ne, get_elem?-replicate,
  count_if-set, count_if-replicate, All_get, All-set,
}
use mnftl.Config.{Config, PageState, Status, failure, success, AddressValid, rank}
use mnftl.Address.{Address}
use mnftl.Event.{Event}
use mnftl.Flash.Page.{Memory, Outcome}
use mnftl.Flash.Wear.{route, wear_stats}
use mnftl.Flash.Block.{Block}
use mnftl.Flash.Package
use mnftl.Flash.Package.{Package}
use mnftl.Channel.{Channel, connect}
use mnftl.Bus.{Bus, new_bus}

-- `class Ssd` of ssd.h.
pub record Ssd : Type 0 where
  pub size : ℕ
  pub bus : Bus
  pub packages : List Package
  pub least_worn : ℕ
  pub erases_remaining : ℕ
  pub last_erase_time : ℕ

-- The loop of `Ssd::Ssd`: `n` packages, the first at the given physical address.
pub new_packages : Config → ℕ → ℕ → List Package
new_packages c zero physical_address = []
new_packages c (suc n) physical_address =
    Package.new_package c physical_address
    ∷ new_packages c n
        (physical_address + c.package_size * c.die_size * c.plane_size * c.block_size)

-- The calls of `channel.connect` that the dies of one package make.
pub connect_dies : ℕ → Channel → Channel
connect_dies zero ch = ch
connect_dies (suc n) ch = connect_dies n (connect ch).1

-- `Ssd::Ssd`
unfoldable pub new_ssd : Config → Ssd
unfolding new_packages connect_dies
new_ssd c = record {
  size = c.ssd_size;
  bus = let b = new_bus c in record b { channels = map (connect_dies c.package_size) b.channels };
  packages = new_packages c c.ssd_size 0;
  least_worn = 0;
  erases_remaining = c.block_erases;
  last_erase_time = 0;
}

-- `Ssd::read`
unfoldable pub read : Config → Event → Memory → Ssd → Outcome Ssd
unfolding route
read c e m d = do
  assert (ltb e.address.pkg d.size && leb 1 (rank e.address.valid))
  (s, e', m', packages) ← route e.address.pkg (Package.read c e m) d.packages
  ok (s, e', m', record d { packages = packages })

-- `Ssd::write`
unfoldable pub write : Config → Event → Memory → Ssd → Outcome Ssd
unfolding route
write c e m d = do
  assert (ltb e.address.pkg d.size && leb 1 (rank e.address.valid))
  (s, e', m', packages) ← route e.address.pkg (Package.write c e m) d.packages
  ok (s, e', m', record d { packages = packages })

-- `Ssd::replace`: nothing to do but at a full address.
unfoldable pub replace : Event → Memory → Ssd → Outcome Ssd
unfolding route
replace e m d = if rank e.replace_address.valid == 0 then ok (success, e, m, d) else (do
  assert (ltb e.replace_address.pkg d.size)
  (s, e', m', packages) ←
      if rank e.replace_address.valid == 5
      then route e.replace_address.pkg (Package.replace e m) d.packages
      else ok (success, e, m, d.packages)
  ok (s, e', m', record d { packages = packages }))

-- The erases that the packages report for an address, in order.
unfoldable pub erases_of : Address → List Package → Run (List ℕ)
erases_of a [] = ok []
erases_of a (p ∷ ps) = do n ← Package.get_erases_remaining a p; ns ← erases_of a ps; ok (n ∷ ns)

-- `Ssd::update_wear_stats`
pub update_wear_stats : Address → Ssd → Run Ssd
unfolding erases_of wear_stats
update_wear_stats a d = do
  erases ← erases_of a d.packages
  (i, most) ← wear_stats erases
  p ← fetch d.packages i
  t ← Package.get_last_erase_time a p
  ok (record d { least_worn = i; erases_remaining = most; last_erase_time = t })

-- `if(status == SUCCESS) update_wear_stats(event.get_address())`
after_erase : Status → Address → Ssd → Run Ssd
unfolding update_wear_stats
after_erase failure a d = ok d
after_erase success a d = update_wear_stats a d

-- `Ssd::erase`
pub erase : Config → Event → Memory → Ssd → Outcome Ssd
unfolding route after_erase
erase c e m d = do
  assert (ltb e.address.pkg d.size && leb 1 (rank e.address.valid))
  (s, e', m', packages) ← route e.address.pkg (Package.erase c e m) d.packages
  d' ← after_erase s e'.address (record d { packages = packages })
  ok (s, e', m', d')

-- `Ssd::merge`
pub merge : Config → Event → Memory → Ssd → Outcome Ssd
unfolding route
merge c e m d = do
  assert (ltb e.address.pkg d.size && leb 1 (rank e.address.valid))
  (s, e', m', packages) ← route e.address.pkg (Package.merge c e m) d.packages
  ok (s, e', m', record d { packages = packages })

-- `Ssd::get_last_erase_time` and `Ssd::get_erases_remaining`
pub get_last_erase_time : Address → Ssd → Run ℕ
get_last_erase_time a d =
    if leb 1 (rank a.valid) && ltb a.pkg d.size
    then (do p ← fetch d.packages a.pkg; Package.get_last_erase_time a p)
    else ok d.last_erase_time

pub get_erases_remaining : Address → Ssd → Run ℕ
get_erases_remaining a d =
    if leb 1 (rank a.valid) && ltb a.pkg d.size
    then (do p ← fetch d.packages a.pkg; Package.get_erases_remaining a p)
    else ok d.erases_remaining

-- `Ssd::get_least_worn`
pub get_least_worn : Address → Ssd → Run Address
get_least_worn a d = do
  assert (ltb d.least_worn d.size)
  p ← fetch d.packages d.least_worn
  Package.get_least_worn (record a { pkg = d.least_worn; valid = AddressValid.pkg }) p

-- `Ssd::get_state`
pub get_state : Address → Ssd → Run PageState
get_state a d = do
  assert (ltb a.pkg d.size && leb 1 (rank a.valid))
  p ← fetch d.packages a.pkg
  Package.get_state a p

-- `Ssd::get_free_page`
unfoldable pub get_free_page : Config → Address → Ssd → Run Address
get_free_page c a d = do
  assert (ltb a.pkg d.size && leb 1 (rank a.valid))
  p ← fetch d.packages a.pkg
  Package.get_free_page c a p

-- `Ssd::get_num_valid` and `Ssd::get_block_pointer`
pub get_num_valid : Address → Ssd → Run ℕ
get_num_valid a d = do
  assert (leb 1 (rank a.valid))
  p ← fetch d.packages a.pkg
  Package.get_num_valid a p

pub get_block_pointer : Address → Ssd → Run Block
get_block_pointer a d = do
  assert (leb 1 (rank a.valid))
  p ← fetch d.packages a.pkg
  Package.get_block_pointer a p

-- An update of the block behind the pointer that `Ssd::get_block_pointer` returns.
unfoldable pub modify_block : Address → (Block → Run Block) → Ssd → Run Ssd
modify_block a f d = do
  assert (leb 1 (rank a.valid))
  p ← fetch d.packages a.pkg
  p' ← Package.modify_block a f p
  ok (record d { packages = set d.packages a.pkg p' })
