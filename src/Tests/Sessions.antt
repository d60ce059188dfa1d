-- ===== src/Tests/Sessions.antt =====
-- Sessions of MNFTL on a small device.
use mnftl.Base.{ℕ, ◌≡◌, refl, true, Option, none, some, List, [], ◌∷◌, Run, ok, abort}
use mnftl.Config.{Config, EventType, read, write, trim}
use mnftl.Ssd.{Ssd, new_ssd}
use mnftl.Controller.{Stats}
use mnftl.Event.{Event}
use mnftl.BlockManager.{Machine, new_block_manager}
use mnftl.Mnftl.{Mnftl, Cleanup, new_mnftl}
use mnftl.Mnftl.Requests.{Request, run}

abbrev pub small : Config
small = record {
  ram_read_delay = 1;
  ram_write_delay = 1;
  bus_ctrl_delay = 2;
  bus_data_delay = 10;
  bus_max_connect = 8;
  ssd_size = 1;
  package_size = 1;
  die_size = 2;
  plane_size = 2;
  plane_reg_read_delay = 1;
  plane_reg_write_delay = 1;
  block_size = 4;
  block_erases = 3;
  block_erase_delay = 15;
  page_read_delay = 3;
  page_write_delay = 7;
  page_enable_data = true;
  ftl_implementation = 5;
  bast_log_block_limit = 1;
  fast_log_block_limit = 1;
  mnftl_oob_size = 16;
  mnftl_entry_size = 8;
  oob_read_delay = 1;
  virtual_page_size = 1;
}

abbrev pub no_stats : Stats
no_stats = record {
  num_ftl_read = 0;
  num_ftl_write = 0;
  num_ftl_erase = 0;
  num_ftl_trim = 0;
  num_gc_write = 0;
  valid_page_copies = 0;
  num_wl_read = 0;
  num_wl_write = 0;
  num_log_merge_switch = 0;
  num_log_merge_partial = 0;
  num_log_merge_full = 0;
  num_page_block_to_page_conversion = 0;
  num_cache_hits = 0;
  num_cache_faults = 0;
  num_memory_read = 0;
  num_memory_write = 0;
}

abbrev pub fresh_machine : Machine
fresh_machine = record {
  ssd = new_ssd small;
  memory = record { page_data = λ _. 0; global_buffer = none };
  stats = no_stats;
  manager = new_block_manager small;
}

-- Nothing is cleaned up in these sessions, and nothing is in the order of the blocks.
abbrev pub no_cleanup : Cleanup
no_cleanup e b f w = ok (e, f, w)

abbrev pub no_order : Ssd → List ℕ
no_order d = []

abbrev pub request : EventType → ℕ → Option ℕ → Request
request t lpn buffer = record {
  event_type = t;
  logical_address = lpn;
  size = 1;
  start_time = 0;
  buffer = buffer;
}

abbrev pub session : List Request
session =
    request write 2 (some 7)
    ∷ request write 1 (some 8)
    ∷ request read 2 (some 0)
    ∷ request write 2 (some 9)
    ∷ request read 2 (some 0)
    ∷ request write 3 (some 5)
    ∷ request write 9 (some 6)
    ∷ request read 1 (some 0)
    ∷ request trim 1 (some 0)
    ∷ request read 9 (some 0)
    ∷ []

-- The state after the session.
abbrev pub state_of : Run (List (Option ℕ) × Mnftl × Machine) → List (Option ℕ) × Mnftl × Machine
state_of (ok o) = o
state_of abort = ([], new_mnftl small, fresh_machine)

pub after_session : List (Option ℕ) × Mnftl × Machine
after_session = state_of (run no_cleanup no_order small session (new_mnftl small) fresh_machine)

pub session_returns :
    run no_cleanup no_order small session (new_mnftl small) fresh_machine ≡ ok after_session
unfolding run new_mnftl new_ssd new_block_manager mnftl.Mnftl.write mnftl.Event.new_event
    mnftl.BlockManager.Alloc.get_free_block mnftl.Ssd.modify_block mnftl.Flash.Package.modify_block
    mnftl.Address.set_linear_address mnftl.Flash.Package.new_package mnftl.Flash.Die.modify_block
    mnftl.Flash.Die.new_die mnftl.Flash.Plane.modify_block mnftl.Flash.Plane.new_plane
    mnftl.Mnftl.Tables.get_anchor mnftl.Mnftl.Tables.ensure mnftl.Ssd.get_free_page
    mnftl.Flash.Block.new_block mnftl.Flash.Package.get_free_page mnftl.Flash.Die.get_free_page
    mnftl.Flash.Plane.get_free_page mnftl.Mnftl.Tables.get_slot mnftl.Mnftl.Tables.put_slot
    mnftl.Mnftl.Tables.put_anchor mnftl.BlockManager.issue mnftl.Controller.issue mnftl.Bus.new_bus
    mnftl.Bus.lock mnftl.Channel.connect mnftl.Channel.lock mnftl.Channel.new_channel
    mnftl.Ssd.write mnftl.Bus.ram_write mnftl.Bus.ram_read mnftl.Flash.Package.write
    mnftl.Event.incr_time_taken mnftl.Event.incr_bus_wait_time mnftl.Flash.Die.write
    mnftl.Flash.Plane.write mnftl.Flash.Block.write mnftl.Ssd.replace mnftl.Flash.Page.write
    mnftl.Mnftl.read mnftl.Address.no_address mnftl.Ssd.read mnftl.Address.at
    mnftl.Flash.Package.read mnftl.Flash.Die.read mnftl.Flash.Plane.read mnftl.Flash.Block.read
    mnftl.Flash.Package.replace mnftl.Flash.Page.read mnftl.Flash.Die.replace
    mnftl.Flash.Plane.replace mnftl.Flash.Block.replace mnftl.Flash.Block.invalidate_page
    mnftl.Mnftl.trim after_session
session_returns = refl

abbrev answers : Run (List (Option ℕ) × Mnftl × Machine) → Option (List (Option ℕ))
answers (ok o) = some o.0
answers abort = none

session-answers :
    answers (run no_cleanup no_order small session (new_mnftl small) fresh_machine)
    ≡ some
        (none ∷ none ∷ some 7 ∷ some 7 ∷ some 9 ∷ some 9 ∷ some 9 ∷ some 8 ∷ some 8 ∷ some 6 ∷ [])
unfolding run new_mnftl new_ssd new_block_manager mnftl.Mnftl.write mnftl.Event.new_event
    mnftl.BlockManager.Alloc.get_free_block mnftl.Ssd.modify_block mnftl.Flash.Package.modify_block
    mnftl.Address.set_linear_address mnftl.Flash.Package.new_package mnftl.Flash.Die.modify_block
    mnftl.Flash.Die.new_die mnftl.Flash.Plane.modify_block mnftl.Flash.Plane.new_plane
    mnftl.Mnftl.Tables.get_anchor mnftl.Mnftl.Tables.ensure mnftl.Ssd.get_free_page
    mnftl.Flash.Block.new_block mnftl.Flash.Package.get_free_page mnftl.Flash.Die.get_free_page
    mnftl.Flash.Plane.get_free_page mnftl.Mnftl.Tables.get_slot mnftl.Mnftl.Tables.put_slot
    mnftl.Mnftl.Tables.put_anchor mnftl.BlockManager.issue mnftl.Controller.issue mnftl.Bus.new_bus
    mnftl.Bus.lock mnftl.Channel.connect mnftl.Channel.lock mnftl.Channel.new_channel
    mnftl.Ssd.write mnftl.Bus.ram_write mnftl.Bus.ram_read mnftl.Flash.Package.write
    mnftl.Event.incr_time_taken mnftl.Event.incr_bus_wait_time mnftl.Flash.Die.write
    mnftl.Flash.Plane.write mnftl.Flash.Block.write mnftl.Ssd.replace mnftl.Flash.Page.write
    mnftl.Mnftl.read mnftl.Address.no_address mnftl.Ssd.read mnftl.Address.at
    mnftl.Flash.Package.read mnftl.Flash.Die.read mnftl.Flash.Plane.read mnftl.Flash.Block.read
    mnftl.Flash.Package.replace mnftl.Flash.Page.read mnftl.Flash.Die.replace
    mnftl.Flash.Plane.replace mnftl.Flash.Block.replace mnftl.Flash.Block.invalidate_page
    mnftl.Mnftl.trim
session-answers = refl
