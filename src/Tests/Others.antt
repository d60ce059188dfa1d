-- ===== src/Tests/Others.antt =====
-- The other FTLs on a small device.
use mnftl.Base.{
  ℕ, ◌+◌, ◌^◌, ◌≤◌, ◌<◌, ◌≡◌, refl, ◌∙◌, ◌↔◌, true, false, Option, none, some, List, [], ◌∷◌, arith,
  Run, ok, ◌>>=◌, Every, Every_ok, get_elem?, replicate,
}
use mnftl.Config.{read, write, trim, merge, EventType, AddressValid, PageState}
use mnftl.Address.{at}
use mnftl.Event.{Event, new_event, set_payload}
use mnftl.Ftls.Bast.{Bast, new_bast, block_of, page_of}
use mnftl.Ftls.Bast.Merge.{in_order}
use mnftl.Ftls.Bast.Requests
use mnftl.Ftls.Bast.Inv.{IsBast, new_bast-IsBast, in_order-each}
use mnftl.Ftls.Bast.Kept.{write-IsBast}
use mnftl.Ftls.Bast.Trimmed.{LogCleared, DataCleared, trim-Cleared}
use mnftl.Ftls.PageFtl
use mnftl.Ftls.PageFtl.{PageFtl, capacity, all_trimmed}
use mnftl.Ftls.PageFtl.Active.{write-InCapacity, trim-Wrapped}
use mnftl.Flash.Page.{Page, new_page}
use mnftl.Flash.Block.{new_block}
use mnftl.Flash.Plane.{Plane, new_plane}
use mnftl.Flash.Plane.Merge
use mnftl.Mnftl.Tables.{
  Map, Place, find, insert, ensure, new_pmt, get_slot, put_slot, put_anchor, Pmd, Pmt, relocate,
}
use mnftl.Mnftl.Tables.Laws.{entry_nil, entry-ensure}
use mnftl.Mnftl.Reverse.{assign, move_at}
use mnftl.Mnftl.Reverse.Inverse.{IsInverse, assign-IsInverse, move_at-relocate}
use mnftl.Mnftl.Tables.Scan.{Relocated, relocate-Relocated}
use mnftl.Mnftl.Requests.{Request}
use mnftl.Device.{bast_parent, page_parent, device_run}
use mnftl.Device.Sessions.{device_run-IsBast, device_run-InCapacity}
use mnftl.Raid.{raid_event_arrive, ServedBy, raid_event_arrive-ServedBy}
use mnftl.Tests.Sessions.{small, fresh_machine, no_order, request}

abbrev page_event : EventType → ℕ → Option ℕ → Event
page_event t lpn v = set_payload v (new_event t lpn 1 0)

abbrev draw : ℕ → ℕ
draw n = n

write-IsBast_example :
    Every
      (λ o. IsBast small o.2)
      (Requests.write no_order draw small
        (page_event write 5 (some 7))
        (new_bast small 2)
        fresh_machine)
write-IsBast_example =
    write-IsBast small no_order draw (page_event write 5 (some 7)) (new_bast small 2) fresh_machine
      (omega arith) (new_bast-IsBast small 2)

-- The second page of the logical block 1 stands at the first page of a log block.
abbrev one_logged : Bast
one_logged = record (new_bast small 2) {
  log_map =
      (
        1,
        record {
          pages = none ∷ some 0 ∷ none ∷ none ∷ [];
          address = at small 0 AddressValid.block;
        },
      )
      ∷ [];
}

trim-Cleared_example :
    Every
      (λ o.
        LogCleared (block_of one_logged 5) (page_of small 5) one_logged o.2
        × DataCleared (block_of one_logged 5) one_logged o.2)
      (Requests.trim small (page_event trim 5 none) one_logged fresh_machine)
unfolding new_event
trim-Cleared_example = trim-Cleared small (page_event trim 5 none) one_logged fresh_machine

abbrev full_pages : List (Option ℕ)
full_pages = some 0 ∷ some 1 ∷ some 2 ∷ some 3 ∷ []

in_order-each_example :
    (in_order 0 full_pages ≡ true)
    ↔ ((j : ℕ) → j < 4 → get_elem? full_pages j ≡ some (some (0 + j)))
in_order-each_example = in_order-each 0 full_pages

abbrev page_ftl : PageFtl
page_ftl = record { num_pages_active = 16; trim_map = replicate 16 false }

write-InCapacity_example :
    Every
      (λ o. (o.2.num_pages_active ≡ 13) × (o.2.num_pages_active ≤ 16))
      (PageFtl.write small (page_event write 5 (some 7)) page_ftl fresh_machine)
unfolding capacity
write-InCapacity_example =
    write-InCapacity small (omega arith) (omega arith) (page_event write 5 (some 7)) page_ftl
      fresh_machine (omega arith)

-- Nothing was written, and three pages of the first block are trimmed.
abbrev trimmed : PageFtl
trimmed = record {
  num_pages_active = 0;
  trim_map = true ∷ true ∷ false ∷ true ∷ replicate 12 false;
}

trim-Wrapped_example :
    Every
      (λ o. o.2.num_pages_active + 4 ≡ 0 + 2 ^ 64)
      (PageFtl.trim small (page_event trim 2 none) trimmed fresh_machine)
unfolding new_event all_trimmed
trim-Wrapped_example =
    trim-Wrapped small (page_event trim 2 none) trimmed fresh_machine (omega arith) (omega arith)
      refl

-- Three devices that count the requests that reach them.
abbrev counting :
    EventType → (logical_address size start_time : ℕ) → Option ℕ → ℕ → ℕ → Run (ℕ × ℕ × ℕ)
counting t lpn size start buffer d g = ok (start + 5, d + 1, g + size)

raid_event_arrive-ServedBy_example :
    Every
      (λ o. ServedBy counting 2 write 7 1 0 (some (λ i. i)) (0 ∷ 4 ∷ 8 ∷ []) o.1)
      (raid_event_arrive counting 2 write 7 1 0 (some (λ i. i)) (0 ∷ 4 ∷ 8 ∷ []) 0)
raid_event_arrive-ServedBy_example =
    raid_event_arrive-ServedBy counting write 7 1 0 (some (λ i. i)) 2 (0 ∷ 4 ∷ 8 ∷ []) 0

-- A plane whose first block has two valid pages, and a merge of that block into the second.
abbrev stored : Page
stored = record { state = PageState.valid }

abbrev half_full : Plane
half_full = record (new_plane small 0) {
  blocks =
      record (new_block small 0) {
        pages = stored ∷ stored ∷ new_page ∷ new_page ∷ [];
        pages_valid = 2;
      }
      ∷ new_block small 4
      ∷ [];
}

abbrev merge_event : Event
merge_event = record (new_event merge 0 1 0) {
  address = at small 0 AddressValid.block;
  merge_address = at small 4 AddressValid.block;
}

requests : List Request
requests =
    request write 5 (some 7)
    ∷ request write 5 (some 8)
    ∷ request read 5 none
    ∷ request write 6 (some 9)
    ∷ []

device_run-IsBast_example :
    Every
      (λ o. IsBast small o.1)
      (device_run (bast_parent no_order draw) small requests (new_bast small 2) fresh_machine)
device_run-IsBast_example =
    device_run-IsBast no_order draw small (omega arith) 2 requests fresh_machine

device_run-InCapacity_example :
    Every
      (λ o. o.1.num_pages_active ≤ 16)
      (device_run page_parent small requests page_ftl fresh_machine)
unfolding requests capacity
device_run-InCapacity_example =
    device_run-InCapacity small (omega arith) (omega arith) requests page_ftl fresh_machine
      (tt, (tt, (tt, (tt, tt)))) (omega arith)

-- The tables of two logical blocks, with one table of two slots each.
abbrev tops : Pmd
tops = (0, some 3 ∷ []) ∷ (1, some 5 ∷ []) ∷ []

abbrev slots : Pmt
slots = (0, (some 3 ∷ none ∷ []) ∷ []) ∷ (1, (some 4 ∷ some 5 ∷ []) ∷ []) ∷ []

relocate-Relocated_example : Every (Relocated 4 9 tops slots) (relocate 4 9 tops slots)
relocate-Relocated_example = relocate-Relocated 4 9 tops slots ((omega arith, tt), (tt, tt))

-- New tables of one logical block, and the same once a slot got a page.
abbrev new_slots : Pmt
new_slots = ensure 0 (new_pmt 1 2) []

abbrev second : Place
second = record { lbn = 0; index = 0; slot = 1 }

new_slots-IsInverse : IsInverse new_slots []
unfolding find
new_slots-IsInverse = record {
  there = λ p ppn e.
      (let gone = entry-ensure 0 1 2 p.lbn p.index p.slot [] ∙ entry_nil p.lbn p.index p.slot in
        cc);
  back = λ p ppn e. cc;
}

assign-IsInverse_example :
    Every (λ o. IsInverse o.1 o.2) (assign second 7 ((0, none ∷ []) ∷ []) new_slots [])
unfolding find
assign-IsInverse_example =
    assign-IsInverse second 7 ((0, none ∷ []) ∷ []) new_slots [] new_slots-IsInverse refl

assign_one : Every (λ o. IsInverse o.1 o.2) (assign second 7 ((0, none ∷ []) ∷ []) new_slots [])
unfolding find
assign_one = assign-IsInverse second 7 ((0, none ∷ []) ∷ []) new_slots [] new_slots-IsInverse refl

abbrev one_slot : Pmt
one_slot = (0, (none ∷ some 7 ∷ []) ∷ []) ∷ []

assigned_one :
    assign second 7 ((0, none ∷ []) ∷ []) new_slots []
    ≡ ok ((0, some 7 ∷ []) ∷ [], one_slot, (7, second) ∷ [])
unfolding assign get_slot put_slot put_anchor ensure find insert
assigned_one = refl

move_at-relocate_example :
    (move_at (find 7 ((7, second) ∷ [])) 7 9 ((0, some 7 ∷ []) ∷ []) one_slot ((7, second) ∷ [])
      >>= λ o. ok (o.0, o.1))
    ≡ relocate 7 9 ((0, some 7 ∷ []) ∷ []) one_slot
move_at-relocate_example =
    move_at-relocate one_slot ((7, second) ∷ []) (tt, tt)
      (Every_ok (λ (o : Pmd × Pmt × Map Place). IsInverse o.1 o.2)
        (assign second 7 ((0, none ∷ []) ∷ []) new_slots []) assign_one assigned_one)
      7 9 ((0, some 7 ∷ []) ∷ [])
