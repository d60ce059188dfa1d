-- ===== src/BlockManager/Alloc/Fresh.antt =====
-- The block manager of ssd_bm.cpp under MNFTL, while no block was given back.
use mnftl.Base.{
  ℕ, ◌+◌, ◌*◌, ◌%◌, ◌≤◌, ◌<◌, ◌≡◌, refl, sym, ap, subst, inl, inr, true, false, not, ◌&&◌, List, [],
  arith, ltb, leb, ltb→lt, Bool-cases, u32, u64, Run, ok, abort, Every, Every-bind, length,
}
use mnftl.Config.{Config, data_block, AddressValid, impl_mnftl, number_of_addressable_blocks}
use mnftl.Address.{Address, no_address, set_linear_address}
use mnftl.Event.{Event}
use mnftl.Flash.Effect.{IsUsed}
use mnftl.Ssd
use mnftl.Ssd.{Ssd}
use mnftl.Ssd.Effects.{ssd_view, modify_block_same}
use mnftl.BlockManager.{BlockManager, Machine, few_used, erase_invalid, split_last}
use mnftl.BlockManager.Alloc.{
  take_as, set_block_type, collect_cost, insert_events, collect_when_short, pop_free,
  get_page_block, get_free_block,
}

-- Nothing was ever given back.
pub record NoReturns (c : Config) (b : BlockManager) : Type 0 where
  pub no_free : b.free_list ≡ []
  pub no_invalid : b.invalid_list ≡ []
  pub limit : b.max_blocks ≡ number_of_addressable_blocks c
  pub whole : b.simple_current_free % c.block_size ≡ 0

-- What the type of a block and its count change.
record Taken (w w' : Machine) : Type 0 where
  same_memory : w'.memory ≡ w.memory
  same_pages : (a : Address) → ssd_view a w'.ssd ≡ ssd_view a w.ssd
  same_manager : w'.manager ≡ record w.manager { data_active = w'.manager.data_active }

take_as-Taken : (a : Address) (w : Machine) → Every (Taken w) (take_as data_block a w)
unfolding take_as set_block_type
take_as-Taken a w =
    Every-bind (λ w'. Taken w w' × (w'.manager ≡ w.manager)) (Taken w)
      (set_block_type data_block a w) _
      (Every-bind (λ d. (x : Address) → ssd_view x d ≡ ssd_view x w.ssd)
        (λ w'. Taken w w' × (w'.manager ≡ w.manager))
        (Ssd.modify_block a (λ b. ok (record b { btype = data_block })) w.ssd) _
        (modify_block_same a (λ b. ok (record b { btype = data_block })) w.ssd (λ b x. refl))
        λ d k. (record { same_memory = refl; same_pages = k; same_manager = refl }, refl))
      λ w' k. record {
        same_memory = k.0.same_memory;
        same_pages = k.0.same_pages;
        same_manager =
            ap (λ (m : BlockManager). record m { data_active = u64 (w'.manager.data_active + 1) })
              k.1;
      }

module _ {F : Type 0} (cleanup : Event → ℕ → F → Machine → Run (Event × F × Machine))
    (order : Ssd → List ℕ) (c : Config) (impl : c.ftl_implementation ≡ impl_mnftl) where
  -- Without invalid blocks, the collection finds nothing to do: it does not call `cleanup_block`.
  insert_events_idle :
      (e : Event) (f : F) (w : Machine)
      → w.manager.invalid_list ≡ []
      → (n : ℕ) × (insert_events cleanup order c e f w
          ≡ ok (e, f, record w { manager = record w.manager { num_insert_events = n } }))
  unfolding insert_events erase_invalid split_last collect_cost
  insert_events_idle e f w h = elim (Bool-cases (few_used c w.manager)) [
    | inl q ↦ (w.manager.num_insert_events, rw q)
    | inr q ↦ (u32 (w.manager.num_insert_events + 1), rw (q, h, impl))
  ]

  collect_when_short_idle :
      (e : Event) (f : F) (w : Machine)
      → w.manager.invalid_list ≡ []
      → (w' : Machine) × (collect_when_short cleanup order c e f w ≡ ok (e, f, w'))
        × (w'.manager.free_list ≡ w.manager.free_list)
  unfolding collect_when_short
  collect_when_short_idle e f w h =
      elim (Bool-cases (leb (length w.manager.free_list) 1 && not w.manager.out_of_blocks)) [
        | inl q ↦
            let short = record w { manager = record w.manager { out_of_blocks = true } } in
            let (n, idle) = insert_events_idle e f short h in
            (
              record short { manager = record short.manager { num_insert_events = n } },
              rw q idle,
              refl,
            )
        | inr q ↦ (w, rw q, refl)
      ]

  -- Under MNFTL, once all blocks are handed out and none was given back, `get_free_block` stops the
  -- process: it collects no garbage.
  pub get_free_block_exhausted :
      (e : Event) (f : F) (w : Machine)
      → w.manager.free_list ≡ []
      → w.manager.invalid_list ≡ []
      → w.manager.max_blocks * c.block_size ≤ w.manager.simple_current_free
      → get_free_block cleanup order c data_block e f w ≡ abort
  unfolding get_free_block get_page_block pop_free
  get_free_block_exhausted e f w hf hi h =
      let (w', idle, same) = collect_when_short_idle e f w hi in
      let full : ltb w.manager.simple_current_free (w.manager.max_blocks * c.block_size) ≡ false =
        ground arith in
      rw (full, idle, same, hf)

  -- What a block is handed out with: the event and the state of the FTL are not touched.
  pub record Handed (e : Event) (f : F) (w : Machine) (o : Address × Event × F × Machine)
      : Type 0 where
    pub same_event : o.1 ≡ e
    pub same_state : o.2 ≡ f
    pub same_memory : o.3.memory ≡ w.memory
    pub same_pages : (a : Address) → ssd_view a o.3.ssd ≡ ssd_view a w.ssd
    pub kept : (a : Address) → IsUsed (ssd_view a w.ssd) → IsUsed (ssd_view a o.3.ssd)
    pub returns : NoReturns c o.3.manager
    pub address :
        o.0 ≡ set_linear_address c w.manager.simple_current_free AddressValid.block no_address
    pub in_limit :
        w.manager.simple_current_free + c.block_size ≤ number_of_addressable_blocks c * c.block_size
    pub next : o.3.manager.simple_current_free ≡ w.manager.simple_current_free + c.block_size

  next_block : (n k m : ℕ) → 0 < m → n % m ≡ 0 → n < k * m → (n + m ≤ k * m) × ((n + m) % m ≡ 0)
  next_block n k m p h l = (grind arith, grind arith)

  -- Under MNFTL, with a page at least in a block, while no block was given back: a call of
  -- `get_free_block` that returns hands out the block at the next fresh page number, whole within
  -- the device, moves on by one block, and leaves the event, the FTL, the data and the state of
  -- every page as they were.
  pub get_free_block_fresh :
      (e : Event) (f : F) (w : Machine)
      → 0 < c.block_size
      → NoReturns c w.manager
      → Every (Handed e f w) (get_free_block cleanup order c data_block e f w)
  unfolding get_free_block get_page_block pop_free
  get_free_block_fresh e f w p v =
      let next = w.manager.simple_current_free in
      elim (Bool-cases (ltb next (w.manager.max_blocks * c.block_size))) [
        | inl q ↦
            let a = set_linear_address c next AddressValid.block no_address in
            let w1 = record w {
              manager = record w.manager {
                current_writing_block = u32 next;
                simple_current_free = next + c.block_size;
              };
            } in
            let below : next < number_of_addressable_blocks c * c.block_size =
              rw (← v.limit) (ltb→lt next (w.manager.max_blocks * c.block_size) q) in
            let (room, whole) =
              next_block next (number_of_addressable_blocks c) c.block_size p v.whole below in
            rw q (
              Every-bind (Taken w1) (Handed e f w) (take_as data_block a w1) _ (take_as-Taken a w1)
                λ w2 k. record {
                  same_event = refl;
                  same_state = refl;
                  same_memory = k.same_memory;
                  same_pages = k.same_pages;
                  kept = λ x u. subst IsUsed (sym (k.same_pages x)) u;
                  returns = rw k.same_manager (record {
                    no_free = v.no_free;
                    no_invalid = v.no_invalid;
                    limit = v.limit;
                    whole = whole;
                  });
                  address = refl;
                  in_limit = room;
                  next = rw k.same_manager refl;
                })
        | inr q ↦
            let (w', idle, same) = collect_when_short_idle e f w v.no_invalid in
            rw (q, idle, same, v.no_free) tt
      ]
