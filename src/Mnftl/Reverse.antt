-- ===== src/Mnftl/Reverse.antt =====
-- mn_ftl_v3.cpp: MNFTL with a map from physical pages back to the slots that name them, in place of
-- the search through the tables. Its read and its search of a free page are those of mn_ftl.cpp.
pub mod Inverse
use mnftl.Base.{
  ℕ, zero, suc, ◌+◌, ◌-◌, ◌*◌, ◌/◌, ◌%◌, ◌^◌, ◌≤◌, ◌<◌, max, ◌≡◌, refl, sym, ap, ◌∙◌, subst, ◌≢◌,
  ◌↔◌, ◌⊎◌, inl, inr, Bool, true, false, not, ◌&&◌, ◌||◌, Option, none, some, List, [], ◌∷◌, ◌++◌,
  map, arith, ltb, leb, ◌==◌, if◌then◌else◌, ltb→lt, lt→ltb, leb→le, le→leb, ==_iff, if_cases,
  Bool-cases, Option-cases, u32, u64, Run, ok, abort, ◌>>=◌, ◌>>◌, assert, or_abort, fetch, Every,
  Every-bind, Every-assert, Every_ok, Every-trivial, Every-fetch, Every-both, Every-map, Returns,
  Returns-bind, Returns-assert, Returns-fetch, Returns-Every, Returns-map, Returns-eq, length,
  get_elem?, set, replicate, count_if, keep_if, All, length-append, length-set, length-replicate,
  get_elem?-lt, get_elem?_total, get_elem?-set_self, get_elem?-set_ne, get_elem?-set,
  get_elem?-replicate, count_if-set, count_if-replicate, All_get, All-set,
}
use mnftl.Config.{Config, EventType, Status, success, AddressValid, data_block}
use mnftl.Address.{Address, at}
use mnftl.Event.{Event, new_event, set_address, set_replace_address, set_noop, incr_time_taken}
use mnftl.Flash.Page.{is_valid}
use mnftl.Flash.Block.{Block}
use mnftl.Ssd.{Ssd}
use mnftl.BlockManager.{Machine, issue}
use mnftl.BlockManager.Alloc.{get_free_block, block_at}
use mnftl.Mnftl.Tables.{
  erase_key, Map, find, insert, Pmd, Pmt, Place, get_anchor, get_slot, put_slot, put_anchor,
}
use mnftl.Mnftl
use mnftl.Mnftl.{
  Mnftl, new_mnftl, lbn_of, pmd_index_of, map_slot_of, num_pmd_of, ensure_tables, read_oob,
  replace_old, alloc_page_in_current_block, count_write, count_trim,
}

-- The class with its members `current_blocks` and `rmap`.
pub record ReverseMnftl : Type 0 where
  pub base : Mnftl
  pub current_blocks : List ℕ
  pub rmap : Map Place

unfoldable pub new_reverse : Config → ReverseMnftl
new_reverse c = record { base = new_mnftl c; current_blocks = []; rmap = [] }

-- `FtlImpl_MNftl::is_current_block`
pub is_current_block : ℕ → ReverseMnftl → Bool
is_current_block b f = ltb 0 (count_if (λ (x : ℕ). x == b) f.current_blocks)

abbrev pub Reply : Type 0
Reply = Run (Status × Event × ReverseMnftl × Machine)

-- `FtlImpl_MNftl::read`
pub read : Config → Event → ReverseMnftl → Machine → Reply
read c e f w = do
  (s, e', base, w') ← Mnftl.read c e f.base w
  ok (s, e', record f { base = base }, w')

abbrev pub place_of : Config → (lpn : ℕ) → Place
place_of c lpn = record { lbn = lbn_of c lpn; index = pmd_index_of c lpn; slot = map_slot_of c lpn }

-- `rmap.erase(old_ppn)`, unless it is -1.
abbrev pub forget : Option ℕ → Map Place → Map Place
forget none m = m
forget (some ppn) m = erase_key ppn m

-- The assignments of `write` to the three maps.
unfoldable pub assign : Place → (new_ppn : ℕ) → Pmd → Pmt → Map Place → Run (Pmd × Pmt × Map Place)
assign p new_ppn pmd pmt rmap = do
  old ← get_slot p.lbn p.index p.slot pmt
  pmt' ← put_slot p.lbn p.index p.slot (some new_ppn) pmt
  pmd' ← put_anchor p.lbn p.index (some new_ppn) pmd
  ok (pmd', pmt', insert new_ppn p (forget old rmap))

-- The steps of `write` from the mapping tables on.
write_mapped : Config → (lpn : ℕ) → Event → ReverseMnftl → Machine → Reply
unfolding assign
write_mapped c lpn e f0 w = do
  let p = place_of c lpn
  let f = ensure_tables c p.lbn f0.base
  anchor ← get_anchor p.lbn p.index f.pmd
  (a, f1) ← alloc_page_in_current_block c f w
  old ← get_slot p.lbn p.index p.slot f1.pmt
  (pmd, pmt, rmap) ← assign p a.real_address f1.pmd f1.pmt f0.rmap
  (s, e', w') ← issue c (set_address a (replace_old c old (read_oob c anchor e))) w
  ok (s, e', record f0 { base = record f1 { pmd = pmd; pmt = pmt }; rmap = rmap }, w')

-- The change of the maps by `trim`.
unfoldable pub clear : Place → Pmt → Map Place → Run (Pmt × Map Place)
clear p pmt rmap = do
  old ← get_slot p.lbn p.index p.slot pmt
  pmt' ← put_slot p.lbn p.index p.slot none pmt
  ok (pmt', forget old rmap)

-- `FtlImpl_MNftl::trim`, by what `PMD.find` gives.
trim_entries : Config → Option (List (Option ℕ)) → Event → ReverseMnftl → Machine → Reply
unfolding clear
trim_entries c none e f w = ok (success, e, f, w)
trim_entries c (some anchors) e f w = do
  let lpn = e.logical_address
  let p = place_of c lpn
  (pmt, rmap) ←
      if ltb p.index (length anchors) then clear p f.base.pmt f.rmap else ok (f.base.pmt, f.rmap)
  (s, e', w') ← issue c (set_address (at c 0 AddressValid.page) (set_noop true e)) w
  ok (s, e', record f { base = record f.base { pmt = pmt }; rmap = rmap }, w')

pub trim : Config → Event → ReverseMnftl → Machine → Reply
unfolding trim_entries
trim c e f w = trim_entries c (find (lbn_of c e.logical_address) f.base.pmd) e f (count_trim w)

-- What `cleanup_block` does to the maps for a page that moves, at the place that `rmap` gives.
unfoldable pub move_at :
    Option Place → (old_ppn new_ppn : ℕ) → Pmd → Pmt → Map Place → Run (Pmd × Pmt × Map Place)
move_at none old_ppn new_ppn pmd pmt rmap = ok (pmd, pmt, rmap)
move_at (some p) old_ppn new_ppn pmd pmt rmap = do
  pmt' ← put_slot p.lbn p.index p.slot (some new_ppn) pmt
  pmd' ← put_anchor p.lbn p.index (some new_ppn) pmd
  ok (pmd', pmt', insert new_ppn p (erase_key old_ppn rmap))

abbrev count_copy : Machine → Machine
count_copy w = record w {
  stats = record w.stats {
    valid_page_copies = w.stats.valid_page_copies + 1;
    num_wl_read = w.stats.num_wl_read + 1;
    num_wl_write = w.stats.num_wl_write + 1;
  };
}

module _ (cleanup : Event → ℕ → ReverseMnftl → Machine → Run (Event × ReverseMnftl × Machine))
    (order : Ssd → List ℕ) where
  -- `FtlImpl_MNftl::allocate_new_current_block`
  allocate_new_current_block :
      Config → Event → ReverseMnftl → Machine → Run (Event × ReverseMnftl × Machine)
  allocate_new_current_block c e f w = do
    (a, e1, f1, w1) ← get_free_block cleanup order c data_block e f w
    ok (
      e1,
      record f1 {
        base = record f1.base {
          current_block = record a { valid = AddressValid.block };
          has_current_block = true;
          current_page_offset = 0;
          bml = f1.base.bml ++ a.block ∷ [];
        };
        current_blocks = a.block ∷ f1.current_blocks;
      },
      w1,
    )

  ensure_current_block :
      Config → Event → ReverseMnftl → Machine → Run (Event × ReverseMnftl × Machine)
  unfolding allocate_new_current_block
  ensure_current_block c e f w =
      if not f.base.has_current_block || (f.base.current_page_offset == c.block_size)
      then allocate_new_current_block c e f w
      else ok (e, f, w)

  -- `FtlImpl_MNftl::write`
  pub write : Config → Event → ReverseMnftl → Machine → Reply
  unfolding ensure_current_block write_mapped
  write c e f w = do
    (e1, f1, w1) ← ensure_current_block c e f (count_write w)
    write_mapped c e.logical_address e1 f1 w1

  -- A valid page of the victim block is read and written to a new page; no data go with the event.
  move_page :
      Config → (old_ppn : ℕ) → Event → ReverseMnftl → Machine → Run (Event × ReverseMnftl × Machine)
  unfolding ensure_current_block move_at
  move_page c old_ppn e f w = do
    (_, read_ev, w1) ←
        issue c
          (set_address (at c old_ppn AddressValid.page)
            (new_event EventType.read e.logical_address 1 e.start_time))
          w
    (e1, f1, w2) ← ensure_current_block c e f w1
    (a, base) ← alloc_page_in_current_block c f1.base w2
    let new_ev = new_event EventType.write e1.logical_address 1 (e1.start_time + read_ev.time_taken)
    (_, write_ev, w3) ←
        issue c (set_replace_address (at c old_ppn AddressValid.page) (set_address a new_ev)) w2
    (pmd, pmt, rmap) ←
        move_at (find old_ppn f1.rmap) old_ppn a.real_address base.pmd base.pmt f1.rmap
    ok (
      incr_time_taken (read_ev.time_taken + write_ev.time_taken) e1,
      record f1 { base = record base { pmd = pmd; pmt = pmt }; rmap = rmap },
      count_copy w3,
    )

  clean_page :
      Config
      → (block page : ℕ) → Event
      → ReverseMnftl
      → Machine
      → Run (Event × ReverseMnftl × Machine)
  unfolding move_page
  clean_page c b i e f w = do
    victim ← block_at c b w.ssd
    assert (ltb i victim.size)
    p ← fetch victim.pages i
    if is_valid p.state then move_page c (victim.physical_address + i) e f w else ok (e, f, w)

  -- The loop of `cleanup_block`, with `n` pages left.
  clean_pages :
      Config
      → (block n page : ℕ) → Event
      → ReverseMnftl
      → Machine
      → Run (Event × ReverseMnftl × Machine)
  unfolding clean_page
  clean_pages c b zero i e f w = ok (e, f, w)
  clean_pages c b (suc n) i e f w = do
    (e1, f1, w1) ← clean_page c b i e f w
    clean_pages c b n (suc i) e1 f1 w1

  -- `FtlImpl_MNftl::cleanup_block`; the block is not erased here.
  pub cleanup_block :
      Config → Event → ℕ → ReverseMnftl → Machine → Run (Event × ReverseMnftl × Machine)
  unfolding clean_pages
  cleanup_block c e b f w = do
    let e0 = incr_time_taken (num_pmd_of c * c.oob_read_delay) e
    (e1, f1, w1) ← clean_pages c b c.block_size 0 e0 f w
    victim ← block_at c b w1.ssd
    let number = victim.physical_address / c.block_size
    ok (
      e1,
      record f1 { current_blocks = keep_if (λ (x : ℕ). not (x == number)) f1.current_blocks },
      w1,
    )
