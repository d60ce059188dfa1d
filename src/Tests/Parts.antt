-- ===== src/Tests/Parts.antt =====
-- The theorems on the parts at concrete inputs.
use mnftl.Base.{
  ℕ, ◌+◌, ◌-◌, ◌≤◌, ◌<◌, ◌≡◌, refl, ◌↔◌, ◌⊎◌, none, some, [], ◌∷◌, ◌++◌, arith, ◌==◌, ok, abort,
  get_elem?, All,
}
use mnftl.Config.{
  write, failure, success, AddressValid, empty, valid, invalid, free, IsSized, data_block, rank,
}
use mnftl.Address.{Address, no_address, set_linear, compare_address, check_valid}
use mnftl.Address.Linear.{linear_of, linear_of-set_linear, set_linear-linear_of}
use mnftl.Address.Match.{Agree, Fits, compare_address-Agree, check_valid-Fits}
use mnftl.Event.{Event, new_event, set_payload}
use mnftl.Channel.{Channel, lock, unlock, later_of}
use mnftl.Channel.Order.{IsValid}
use mnftl.Channel.Schedule.{lock_lem, slot}
use mnftl.Flash.Page.{Page, Memory}
use mnftl.Flash.Block.{Block, new_block, invalidate_page}
use mnftl.Flash.Block
use mnftl.Flash.Block.Counts.{
  IsCounted, new_block-IsCounted, write-IsCounted, invalidate_page-IsCounted, erase-IsCounted,
}
use mnftl.Flash.Plane
use mnftl.Flash.Plane.{Plane, new_plane}
use mnftl.Flash.Die
use mnftl.Flash.Die.{Die, new_die}
use mnftl.Flash.Package
use mnftl.Flash.Package.{Package, new_package}
use mnftl.Ssd.Wear.{PlaneStores, DieStores, PackageStores, SsdStores, update_wear_stats-Picked}
use mnftl.BlockManager.{Machine, new_block_manager}
use mnftl.BlockManager.Alloc.{get_free_block}
use mnftl.BlockManager.Alloc.Fresh.{get_free_block_exhausted}
use mnftl.Ssd
use mnftl.Ssd.{Ssd, new_ssd}
use mnftl.Ssd.Queries.{NotAfter, ReadyAt, ready_at, ready_at-ReadyAt}
use mnftl.Mnftl.{new_mnftl}
use mnftl.Mnftl.Places.{same_place, same_place-eq}
use mnftl.Tests.Sessions.{small, fresh_machine, no_cleanup, no_order}

small-IsSized : IsSized small
small-IsSized = record {
  ssd_pos = omega arith;
  package_pos = omega arith;
  die_pos = omega arith;
  plane_pos = omega arith;
  block_pos = omega arith;
}

abbrev page_event : Event
page_event = set_payload (some 5) (new_event write 0 1 0)

-- All four blocks have been handed out.
abbrev used_up : Machine
used_up = record fresh_machine {
  manager = record fresh_machine.manager { simple_current_free = 16 };
}

get_free_block_exhausted_example :
    get_free_block no_cleanup no_order small data_block page_event (new_mnftl small) used_up ≡ abort
unfolding new_block_manager
get_free_block_exhausted_example =
    get_free_block_exhausted no_cleanup no_order small refl page_event (new_mnftl small) used_up
      refl refl (omega arith)

-- A channel that is reserved from 3 to 5.
abbrev reserved : Channel
reserved = record {
  timings = slot 3 2 ∷ [];
  num_connected = 1;
  max_connections = 8;
  ready_at = some 5;
}

reserved-IsValid : IsValid reserved
reserved-IsValid = record { connected = omega arith; busy = (omega arith, tt); apart = (tt, tt) }

lock_lem_example :
    (s : ℕ) × (f : Event) × (d : Channel) × (lock 1 4 page_event reserved ≡ ok (success, f, d))
    × (1 ≤ s)
    × (f ≡ record page_event {
      time_taken = page_event.time_taken + (s + 4 - 1);
      bus_wait_time = page_event.bus_wait_time + (s - 1);
    })
    × (d.timings ≡ unlock 1 reserved.timings ++ slot s 4 ∷ [])
    × (d.ready_at ≡ later_of reserved.ready_at (s + 4))
    × IsValid d
lock_lem_example = lock_lem 1 4 page_event reserved (omega arith) reserved-IsValid

-- A new block, and one whose first page is written.
abbrev some_block : Block
some_block = new_block small 0

abbrev no_memory : Memory
no_memory = record { page_data = λ _. 0; global_buffer = none }

write-IsCounted_example :
    (f : Event) × (n : Memory) × (d : Block) × (Block.write small page_event no_memory some_block
      ≡ ok (success, f, n, d))
    × IsCounted d
    × (d.pages_valid ≡ some_block.pages_valid + 1)
    × (get_elem? d.pages 0 ≡ some (record { state = valid }))
unfolding new_block new_event no_address
write-IsCounted_example =
    write-IsCounted small page_event no_memory some_block (record { state = empty })
      (new_block-IsCounted small 0 (omega arith)) refl refl refl

abbrev used_block : Block
used_block = record (new_block small 0) {
  pages =
      record { state = valid }
      ∷ record { state = empty }
      ∷ record { state = empty }
      ∷ record { state = empty }
      ∷ [];
  pages_valid = 1;
}

used_block-IsCounted : IsCounted used_block
unfolding new_block
used_block-IsCounted = record {
  sized = refl;
  small = omega arith;
  valid_counted = refl;
  invalid_counted = refl;
}

invalidate_page-IsCounted_example :
    (d : Block) × (invalidate_page 0 used_block ≡ ok d)
    × IsCounted d
    × (d.pages_invalid ≡ used_block.pages_invalid + 1)
    × (get_elem? d.pages 0 ≡ some (record { state = invalid }))
invalidate_page-IsCounted_example =
    invalidate_page-IsCounted 0 used_block (record { state = valid }) used_block-IsCounted refl refl

erase-IsCounted_example :
    ((0 < used_block.erases_remaining)
      × (f : Event) × (d : Block) × (Block.erase small page_event no_memory used_block
          ≡ ok (success, f, no_memory, d))
      × IsCounted d
      × All (λ (p : Page). p.state ≡ empty) d.pages
      × (d.pages_valid ≡ 0)
      × (d.state ≡ free)
      × (d.erases_remaining + 1 ≡ used_block.erases_remaining))
    ⊎ ((used_block.erases_remaining ≡ 0)
        × (Block.erase small page_event no_memory used_block
            ≡ ok (failure, page_event, no_memory, used_block)))
unfolding new_event
erase-IsCounted_example =
    erase-IsCounted small page_event no_memory used_block used_block-IsCounted refl

linear_of-set_linear_example : linear_of small (set_linear small 13 no_address) ≡ 13
linear_of-set_linear_example = linear_of-set_linear small 13 no_address small-IsSized (omega arith)

abbrev last_page : Address
last_page = record no_address { plane = 1; block = 1; page = 3; valid = AddressValid.page }

set_linear-linear_of_example :
    let d = set_linear small (linear_of small last_page) no_address in
    (d.pkg ≡ 0) × (d.die ≡ 0) × (d.plane ≡ 1) × (d.block ≡ 1) × (d.page ≡ 3)
unfolding no_address
set_linear-linear_of_example = set_linear-linear_of small last_page no_address (record {
  pkg_lt = omega arith;
  die_lt = omega arith;
  plane_lt = omega arith;
  block_lt = omega arith;
  page_lt = omega arith;
})

same_place-eq_example : same_place small 6 10 ≡ (6 == 10)
same_place-eq_example = same_place-eq small 6 10 (omega arith) (omega arith) (omega arith)

compare_address-Agree_example :
    (4 ≤ rank (compare_address last_page last_page))
    ↔ ((4 ≤ rank last_page.valid) × (4 ≤ rank last_page.valid) × Agree 4 last_page last_page)
compare_address-Agree_example = compare_address-Agree 4 last_page last_page (omega arith)

check_valid-Fits_example :
    let (v, b) = check_valid 1 1 2 2 4 last_page in
    ((5 ≤ rank v) ↔ ((5 ≤ rank last_page.valid) × Fits 5 1 1 2 2 4 last_page))
    × (b ≡ record last_page { valid = v })
check_valid-Fits_example = check_valid-Fits 5 1 1 2 2 4 last_page (omega arith)

-- The second part has more erases left than the first, at every level.
abbrev worn_plane : Plane
worn_plane = record (new_plane small 0) {
  blocks =
      record (new_block small 0) { erases_remaining = 1 }
      ∷ record (new_block small 4) { erases_remaining = 9; last_erase_time = 30 }
      ∷ record (new_block small 8) { erases_remaining = 1 }
      ∷ [];
}

abbrev worn_die : Die
worn_die = record (new_die small 0) {
  planes =
      record (new_plane small 0) { erases_remaining = 4 }
      ∷ record (new_plane small 8) { erases_remaining = 6 }
      ∷ [];
}

abbrev worn_package : Package
worn_package = record (new_package small 0) {
  dies =
      record (new_die small 0) { erases_remaining = 3 }
      ∷ record (new_die small 8) { erases_remaining = 5 }
      ∷ [];
}

abbrev worn_ssd : Ssd
worn_ssd = record fresh_machine.ssd {
  packages =
      record (new_package small 0) { erases_remaining = 2 }
      ∷ record (new_package small 8) { erases_remaining = 8 }
      ∷ [];
}

update_wear_stats-Picked_example :
    PlaneStores worn_plane 1 (9 ∷ 1 ∷ [])
    × DieStores no_address worn_die 4 (6 ∷ [])
    × PackageStores no_address worn_package 3 (5 ∷ [])
    × SsdStores no_address worn_ssd 2 (8 ∷ [])
unfolding Die.erases_of Package.erases_of Ssd.erases_of Plane.get_erases_remaining
    Die.get_erases_remaining Package.get_erases_remaining no_address
update_wear_stats-Picked_example =
    update_wear_stats-Picked no_address worn_plane worn_die worn_package worn_ssd 1 4 3 2
      (9 ∷ 1 ∷ []) (6 ∷ []) (5 ∷ []) (8 ∷ []) refl refl refl refl

-- A device whose second channel was used.
abbrev used_device : Ssd
used_device = record (new_ssd small) {
  bus = record { num_channels = 2; channels = record reserved { ready_at = none } ∷ reserved ∷ [] };
}

ready_at-ReadyAt_example :
    All (λ (ch : Channel). NotAfter (ready_at used_device) ch.ready_at) used_device.bus.channels
    × ((ready_at used_device ≡ none) ⊎ ReadyAt (ready_at used_device) used_device.bus.channels)
ready_at-ReadyAt_example = ready_at-ReadyAt used_device
