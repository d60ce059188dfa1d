-- ===== src/Mnftl.antt =====
-- mn_ftl.cpp: the MNFTL of the README. A logical page number splits into a logical block, the index
-- of a mapping table (PMT) and a slot of it; the table of each index is found by an anchor page (PMD).
pub mod Tables
pub mod Cleanup
pub mod Places
pub mod Inv
pub mod Commit
pub mod Store
pub mod Forget
pub mod Fetch
pub mod Requests
pub mod Initial
pub mod Live
pub mod Reverse
use mnftl.Base.{
  ℕ, zero, suc, ◌+◌, ◌-◌, ◌*◌, ◌/◌, ◌%◌, ◌^◌, ◌≤◌, ◌<◌, max, ◌≡◌, refl, sym, ap, ◌∙◌, subst, ◌≢◌,
  ◌↔◌, ◌⊎◌, inl, inr, Bool, true, false, not, ◌&&◌, ◌||◌, Option, none, some, List, [], ◌∷◌, ◌++◌,
  map, arith, ltb, leb, ◌==◌, if◌then◌else◌, ltb→lt, lt→ltb, leb→le, le→leb, ==_iff, if_cases,
  Bool-cases, Option-cases, u32, u64, Run, ok, abort, ◌>>=◌, ◌>>◌, assert, or_abort, fetch, length,
  get_elem?, set, replicate, count_if, keep_if, All, length-append, length-set, length-replicate,
  get_elem?-lt, get_elem?_total, get_elem?-set_self, get_elem?-set_ne, get_elem?-replicate,
  count_if-set, count_if-replicate, All_get, All-set,
}
use mnftl.Config.{
  Config, EventType, Status, failure, success, BlockType, data_block, AddressValid, rank,
}
use mnftl.Address.{Address, no_address, at}
use mnftl.Event.{
  Event, new_event, set_address, set_noop, set_payload, set_replace_address, incr_time_taken,
}
use mnftl.Flash.Page.{Page, is_valid}
use mnftl.Flash.Block.{Block}
use mnftl.Ssd
use mnftl.Ssd.{Ssd}
use mnftl.Controller.{Stats}
use mnftl.BlockManager.{Machine, issue}
use mnftl.BlockManager.Alloc.{get_free_block, block_at}
use Tables.{
  Pmd, Pmt, find, ensure, get_slot, put_slot, put_anchor, get_anchor, new_pmd, new_pmt, relocate,
}

-- `class FtlImpl_MNftl` of ssd.h.
pub record Mnftl : Type 0 where
  pub bml : List ℕ
  pub pmd : Pmd
  pub pmt : Pmt
  pub has_current_block : Bool
  pub current_block : Address
  pub current_page_offset : ℕ

-- What the constructor computes from the configuration: `Q` entries per table, `num_pmd` tables.
abbrev pub q_of : Config → ℕ
q_of c = c.mnftl_oob_size / c.mnftl_entry_size

abbrev pub num_pmd_of : Config → ℕ
num_pmd_of c = (c.block_size + q_of c - 1) / q_of c

-- `FtlImpl_MNftl::FtlImpl_MNftl`
unfoldable pub new_mnftl : Config → Mnftl
new_mnftl c = record {
  bml = [];
  pmd = [];
  pmt = [];
  has_current_block = false;
  current_block = at c 0 AddressValid.none;
  current_page_offset = 0;
}

-- Where the mapping of a logical page stands.
abbrev pub lbn_of : Config → ℕ → ℕ
lbn_of c lpn = u32 (lpn / c.block_size)

abbrev pub pmd_index_of : Config → ℕ → ℕ
pmd_index_of c lpn = (lpn % c.block_size) / q_of c

abbrev pub map_slot_of : Config → ℕ → ℕ
map_slot_of c lpn = (lpn % c.block_size) % q_of c

-- What the operations return: the status, and all that they change.
abbrev pub Reply : Type 0
Reply = Run (Status × Event × Mnftl × Machine)

pub issue_event : Config → Event → Mnftl → Machine → Reply
issue_event c e f w = do (s, e', w') ← issue c e w; ok (s, e', f, w')

-- `event.set_noop(true); event.set_address(Address(0, PAGE)); return controller.issue(event);`
pub issue_noop : Config → Event → Mnftl → Machine → Reply
unfolding issue_event
issue_noop c e f w = issue_event c (set_address (at c 0 AddressValid.page) (set_noop true e)) f w

abbrev pub Cleanup : Type 0
Cleanup = Event → ℕ → Mnftl → Machine → Run (Event × Mnftl × Machine)

-- The steps of `read` behind the search of the logical block, by the anchor and by the slot.
pub read_slot : Config → Option ℕ → Event → Mnftl → Machine → Reply
unfolding issue_noop issue_event
read_slot c none e f w = issue_noop c e f w
read_slot c (some ppn) e f w = issue_event c (set_address (at c ppn AddressValid.page) e) f w

pub read_anchor : Config → (lpn : ℕ) → Option ℕ → Event → Mnftl → Machine → Reply
unfolding read_slot issue_noop
read_anchor c lpn none e f w = issue_noop c e f w
read_anchor c lpn (some anchor) e f w = do
  slot ← get_slot (lbn_of c lpn) (pmd_index_of c lpn) (map_slot_of c lpn) f.pmt
  read_slot c slot (incr_time_taken c.oob_read_delay e) f w

abbrev pub count_read : Machine → Machine
count_read w = record w { stats = record w.stats { num_ftl_read = w.stats.num_ftl_read + 1 } }

abbrev pub count_write : Machine → Machine
count_write w = record w { stats = record w.stats { num_ftl_write = w.stats.num_ftl_write + 1 } }

abbrev pub count_trim : Machine → Machine
count_trim w = record w { stats = record w.stats { num_ftl_trim = w.stats.num_ftl_trim + 1 } }

-- The branches of `read`, by what `PMD.find` gives.
pub read_entries : Config → Option (List (Option ℕ)) → Event → Mnftl → Machine → Reply
unfolding read_anchor issue_noop
read_entries c none e f w = issue_noop c e f w
read_entries c (some anchors) e f w = do
  anchor ← fetch anchors (pmd_index_of c e.logical_address)
  read_anchor c e.logical_address anchor e f w

-- `FtlImpl_MNftl::read`
unfoldable pub read : Config → Event → Mnftl → Machine → Reply
unfolding read_entries
read c e f w = read_entries c (find (lbn_of c e.logical_address) f.pmd) e f (count_read w)

module _ (cleanup : Cleanup) (order : Ssd → List ℕ) where
  -- `FtlImpl_MNftl::allocate_new_current_block`
  pub allocate_new_current_block : Config → Event → Mnftl → Machine → Run (Event × Mnftl × Machine)
  allocate_new_current_block c e f w = do
    (a, e1, f1, w1) ← get_free_block cleanup order c data_block e f w
    ok (
      e1,
      record f1 {
        current_block = record a { valid = AddressValid.block };
        has_current_block = true;
        current_page_offset = 0;
        bml = f1.bml ++ a.block ∷ [];
      },
      w1,
    )

  -- `if (!has_current_block || current_page_offset == P) allocate_new_current_block(event);`
  pub ensure_current_block : Config → Event → Mnftl → Machine → Run (Event × Mnftl × Machine)
  unfolding allocate_new_current_block
  ensure_current_block c e f w =
      if not f.has_current_block || (f.current_page_offset == c.block_size)
      then allocate_new_current_block c e f w
      else ok (e, f, w)

-- `FtlImpl_MNftl::alloc_page_in_current_block`, with the caller's `current_page_offset++`.
pub alloc_page_in_current_block : Config → Mnftl → Machine → Run (Address × Mnftl)
alloc_page_in_current_block c f w = do
  assert f.has_current_block
  assert (ltb 0 (rank f.current_block.valid))
  a ← Ssd.get_free_page c f.current_block w.ssd
  ok (a, record f { current_page_offset = u32 (f.current_page_offset + 1) })

-- The tables of a logical block are made where they are missing.
pub ensure_tables : Config → (lbn : ℕ) → Mnftl → Mnftl
ensure_tables c lbn f = record f {
  pmd = ensure lbn (new_pmd (num_pmd_of c)) f.pmd;
  pmt = ensure lbn (new_pmt (num_pmd_of c) (q_of c)) f.pmt;
}

-- `if (anchor_ppn != -1) event.incr_time_taken(OOB_READ_DELAY);`
pub read_oob : Config → Option ℕ → Event → Event
read_oob c none e = e
read_oob c (some anchor) e = incr_time_taken c.oob_read_delay e

-- `if (old_ppn != -1) event.set_replace_address(Address((ulong)old_ppn, PAGE));`
pub replace_old : Config → Option ℕ → Event → Event
replace_old c none e = e
replace_old c (some old) e = set_replace_address (at c old AddressValid.page) e

-- The steps of `write` from the mapping tables on.
pub write_mapped : Config → (lpn : ℕ) → Event → Mnftl → Machine → Reply
unfolding ensure_tables read_oob alloc_page_in_current_block replace_old issue_event
write_mapped c lpn e f0 w = do
  let lbn = lbn_of c lpn
  let index = pmd_index_of c lpn
  let slot = map_slot_of c lpn
  let f = ensure_tables c lbn f0
  anchor ← get_anchor lbn index f.pmd
  let e1 = read_oob c anchor e
  (a, f1) ← alloc_page_in_current_block c f w
  old ← get_slot lbn index slot f1.pmt
  let e2 = replace_old c old e1
  pmt ← put_slot lbn index slot (some a.real_address) f1.pmt
  pmd ← put_anchor lbn index (some a.real_address) f1.pmd
  issue_event c (set_address a e2) (record f1 { pmt = pmt; pmd = pmd }) w

module _ (cleanup : Cleanup) (order : Ssd → List ℕ) where
  -- `FtlImpl_MNftl::write`
  unfoldable pub write : Config → Event → Mnftl → Machine → Reply
  unfolding ensure_current_block write_mapped
  write c e f w = do
    (e1, f1, w1) ← ensure_current_block cleanup order c e f (count_write w)
    write_mapped c e.logical_address e1 f1 w1

-- `if (pmd_index < PMD[lbn].size()) PMT[lbn][pmd_index][map_slot] = -1;`
pub clear_slot : Config → (lpn : ℕ) → List (Option ℕ) → Mnftl → Run Mnftl
clear_slot c lpn anchors f =
    if ltb (pmd_index_of c lpn) (length anchors)
    then (do
      pmt ← put_slot (lbn_of c lpn) (pmd_index_of c lpn) (map_slot_of c lpn) none f.pmt
      ok (record f { pmt = pmt }))
    else ok f

-- The branches of `trim`, by what `PMD.find` gives.
pub trim_entries : Config → Option (List (Option ℕ)) → Event → Mnftl → Machine → Reply
unfolding clear_slot issue_noop
trim_entries c none e f w = ok (success, e, f, w)
trim_entries c (some anchors) e f w = do
  f' ← clear_slot c e.logical_address anchors f
  issue_noop c e f' w

-- `FtlImpl_MNftl::trim`
unfoldable pub trim : Config → Event → Mnftl → Machine → Reply
unfolding trim_entries
trim c e f w = trim_entries c (find (lbn_of c e.logical_address) f.pmd) e f (count_trim w)
