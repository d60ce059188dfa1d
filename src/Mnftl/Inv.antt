-- ===== src/Mnftl/Inv.antt =====
-- What holds of MNFTL between requests: its mapped pages are in use, each under an anchor.
use mnftl.Base.{
  ℕ, ◌+◌, ◌*◌, ◌^◌, ◌≤◌, ◌<◌, ◌≡◌, refl, ap, ◌≢◌, true, not, ◌||◌, Option, none, some, List, arith,
  ◌==◌, if_cases, Every, Every-bind,
}
use mnftl.Config.{Config, data_block, AddressValid, impl_mnftl, number_of_addressable_blocks}
use mnftl.Address.{Address, at, set_linear_address}
use mnftl.Event.{Event}
use mnftl.Flash.Effect.{IsUsed}
use mnftl.Ssd.{Ssd}
use mnftl.Ssd.Effects.{ssd_view}
use mnftl.BlockManager.{Machine}
use mnftl.BlockManager.Alloc.{get_free_block}
use mnftl.BlockManager.Alloc.Fresh.{NoReturns, Handed, get_free_block_fresh}
use mnftl.Mnftl.Tables.Laws.{entry, anchor}
use mnftl.Mnftl.{
  Mnftl, Cleanup, lbn_of, pmd_index_of, map_slot_of, ensure_current_block,
  allocate_new_current_block,
}

-- The configuration selects MNFTL, and the page numbers of its blocks fit 32 bits.
pub record IsSetUp (c : Config) : Type 0 where
  pub block_pos : 0 < c.block_size
  pub impl : c.ftl_implementation ≡ impl_mnftl
  pub capacity : number_of_addressable_blocks c * c.block_size ≤ 2 ^ 32

pub record Inv (c : Config) (f : Mnftl) (w : Machine) : Type 0 where
  pub returns : NoReturns c w.manager
  pub current : f.has_current_block ≡ true → f.current_block.real_address + c.block_size ≤ 2 ^ 32
  pub anchored : (lbn i j ppn : ℕ) → entry lbn i j f.pmt ≡ some ppn → anchor lbn i f.pmd ≢ none
  pub used :
      (lbn i j ppn : ℕ)
      → entry lbn i j f.pmt ≡ some ppn
      → (ppn < 2 ^ 32) × IsUsed (ssd_view (at c ppn AddressValid.page) w.ssd)

-- The physical page that a logical page is mapped to.
abbrev pub lookup : Config → Mnftl → ℕ → Option ℕ
lookup c f lpn = entry (lbn_of c lpn) (pmd_index_of c lpn) (map_slot_of c lpn) f.pmt

abbrev pub data_at : (ℕ → ℕ) → Option ℕ → Option ℕ
data_at mem none = none
data_at mem (some ppn) = some (mem ppn)

-- The data that a logical page holds.
abbrev pub content : Config → Mnftl → Machine → ℕ → Option ℕ
content c f w lpn = data_at w.memory.page_data (lookup c f lpn)

-- What is true once there is a current block with room, or was one.
pub record Ready (c : Config) (e : Event) (f : Mnftl) (w : Machine) (o : Event × Mnftl × Machine)
    : Type 0 where
  pub same_event : o.0 ≡ e
  pub same_pmd : o.1.pmd ≡ f.pmd
  pub same_pmt : o.1.pmt ≡ f.pmt
  pub same_memory : o.2.memory ≡ w.memory
  pub kept : (a : Address) → IsUsed (ssd_view a w.ssd) → IsUsed (ssd_view a o.2.ssd)
  pub inv : Inv c o.1 o.2

module _ (cleanup : Cleanup) (order : Ssd → List ℕ) (c : Config) (set_up : IsSetUp c) where
  allocate-Ready :
      (e : Event) (f : Mnftl) (w : Machine)
      → Inv c f w
      → Every (Ready c e f w) (allocate_new_current_block cleanup order c e f w)
  unfolding allocate_new_current_block set_linear_address
  allocate-Ready e f w v =
      Every-bind (Handed cleanup order c set_up.impl e f w) (Ready c e f w)
        (get_free_block cleanup order c data_block e f w) _
        (get_free_block_fresh cleanup order c set_up.impl e f w set_up.block_pos v.returns)
        λ o h.
          let pmd : o.2.pmd ≡ f.pmd = ap (λ (x : Mnftl). x.pmd) h.same_state in
          let pmt : o.2.pmt ≡ f.pmt = ap (λ (x : Mnftl). x.pmt) h.same_state in
          let start : o.0.real_address ≡ w.manager.simple_current_free =
            ap (λ (x : Address). x.real_address) h.address in
          record {
            same_event = h.same_event;
            same_pmd = pmd;
            same_pmt = pmt;
            same_memory = h.same_memory;
            kept = h.kept;
            inv = record {
              returns = h.returns;
              current = λ _. let room = h.in_limit in let cap = set_up.capacity in omega arith;
              anchored = λ lbn i j ppn. rw (pmd, pmt) (v.anchored lbn i j ppn);
              used = λ lbn i j ppn q.
                  let old = v.used lbn i j ppn (rw (← pmt) q) in
                  (old.0, h.kept (at c ppn AddressValid.page) old.1);
            };
          }

  pub ensure_current_block-Ready :
      (e : Event) (f : Mnftl) (w : Machine)
      → Inv c f w
      → Every (Ready c e f w) (ensure_current_block cleanup order c e f w)
  unfolding ensure_current_block
  ensure_current_block-Ready e f w v =
      if_cases (Every (Ready c e f w))
        (not f.has_current_block || (f.current_page_offset == c.block_size))
        (λ _. allocate-Ready e f w v)
        (λ _. record {
          same_event = refl;
          same_pmd = refl;
          same_pmt = refl;
          same_memory = refl;
          kept = λ a u. u;
          inv = v;
        })
