-- ===== src/Mnftl/Cleanup.antt =====
-- The garbage collection of mn_ftl.cpp, `FtlImpl_MNftl::cleanup_block`.
use mnftl.Base.{
  ℕ, zero, suc, ◌+◌, ◌*◌, some, List, ltb, if◌then◌else◌, Run, ok, ◌>>=◌, ◌>>◌, assert, fetch,
}
use mnftl.Config.{Config, EventType, AddressValid}
use mnftl.Address.{at}
use mnftl.Event.{Event, new_event, set_address, set_payload, set_replace_address, incr_time_taken}
use mnftl.Flash.Page.{is_valid}
use mnftl.Ssd.{Ssd}
use mnftl.BlockManager.{Machine, issue}
use mnftl.BlockManager.Alloc.{block_at}
use mnftl.Mnftl.Tables.{relocate}
use mnftl.Mnftl.{Mnftl, Cleanup, num_pmd_of, ensure_current_block, alloc_page_in_current_block}

-- The counters of a page that is moved.
pub count_copy : Machine → Machine
count_copy w = record w {
  stats = record w.stats {
    valid_page_copies = w.stats.valid_page_copies + 1;
    num_ftl_read = w.stats.num_ftl_read + 1;
    num_ftl_write = w.stats.num_ftl_write + 1;
    num_wl_read = w.stats.num_wl_read + 1;
    num_wl_write = w.stats.num_wl_write + 1;
  };
}

abbrev count_erased : Machine → Machine
count_erased w = record w { stats = record w.stats { num_ftl_erase = w.stats.num_ftl_erase + 1 } }

module _ (cleanup : Cleanup) (order : Ssd → List ℕ) where
  -- Steps 1 to 4 for a valid page: read it, write it to a new page, and correct the tables.
  pub move_page : Config → (old_ppn : ℕ) → Event → Mnftl → Machine → Run (Event × Mnftl × Machine)
  unfolding count_copy
  move_page c old_ppn e f w = do
    (_, read_ev, w1) ←
        issue c
          (set_address (at c old_ppn AddressValid.page)
            (new_event EventType.read e.logical_address 1 e.start_time))
          w
    (e1, f1, w2) ← ensure_current_block cleanup order c e f w1
    (a, f2) ← alloc_page_in_current_block c f1 w2
    let new_ev = new_event EventType.write e1.logical_address 1 (e1.start_time + read_ev.time_taken)
    let replace_ev = set_replace_address (at c old_ppn AddressValid.page) (set_address a new_ev)
    (_, write_ev, w3) ← issue c (set_payload (some (w2.memory.page_data old_ppn)) replace_ev) w2
    (pmd, pmt) ← relocate old_ppn a.real_address f2.pmd f2.pmt
    ok (
      incr_time_taken (read_ev.time_taken + write_ev.time_taken) e1,
      record f2 { pmd = pmd; pmt = pmt },
      count_copy w3,
    )

  -- One round of the loop over the pages of the victim block.
  pub clean_page :
      Config → (block page : ℕ) → Event → Mnftl → Machine → Run (Event × Mnftl × Machine)
  unfolding move_page
  clean_page c b i e f w = do
    victim ← block_at c b w.ssd
    assert (ltb i victim.size)
    p ← fetch victim.pages i
    if is_valid p.state then move_page c (victim.physical_address + i) e f w else ok (e, f, w)

  -- The loop, with `n` pages left.
  pub clean_pages :
      Config → (block n page : ℕ) → Event → Mnftl → Machine → Run (Event × Mnftl × Machine)
  unfolding clean_page
  clean_pages c b zero i e f w = ok (e, f, w)
  clean_pages c b (suc n) i e f w = do
    (e1, f1, w1) ← clean_page c b i e f w
    clean_pages c b n (suc i) e1 f1 w1

  -- `FtlImpl_MNftl::cleanup_block`
  pub cleanup_block : Config → Event → ℕ → Mnftl → Machine → Run (Event × Mnftl × Machine)
  unfolding clean_pages
  cleanup_block c e b f w = do
    let e0 = incr_time_taken (num_pmd_of c * c.oob_read_delay) e
    (e1, f1, w1) ← clean_pages c b c.block_size 0 e0 f w
    victim ← block_at c b w1.ssd
    let erase_ev = new_event EventType.erase e1.logical_address 1 (e1.start_time + e1.time_taken)
    (_, _, w2) ← issue c (set_address (at c victim.physical_address AddressValid.page) erase_ev) w1
    ok (e1, f1, count_erased w2)
