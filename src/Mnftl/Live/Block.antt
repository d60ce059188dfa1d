-- ===== src/Mnftl/Live/Block.antt =====
-- When the allocation of a current block by MNFTL returns.
use mnftl.Base.{
  ℕ, ◌+◌, ◌-◌, ◌*◌, ◌/◌, ◌%◌, ◌≤◌, ◌<◌, ◌≡◌, refl, sym, ap, ◌∙◌, inl, inr, true, not, ◌||◌, List,
  arith, ◌==◌, if◌then◌else◌, Bool-cases, Returns, Returns-bind, Returns-Every,
}
use mnftl.Config.{Config, data_block, AddressValid}
use mnftl.Address.{Address, no_address, set_linear_address}
use mnftl.Event.{Event}
use mnftl.Ssd.{Ssd}
use mnftl.Ssd.Numbers.{blocks_of, first_page}
use mnftl.BlockManager.{Machine}
use mnftl.BlockManager.Alloc.{get_free_block}
use mnftl.BlockManager.Alloc.Fresh.{Handed, get_free_block_fresh}
use mnftl.BlockManager.Alloc.Returns.{Unwritten, get_free_block-Returns}
use mnftl.Mnftl.{Mnftl, Cleanup, ensure_current_block, allocate_new_current_block}
use mnftl.Mnftl.Inv.{Inv}
use mnftl.Mnftl.Live.{IsRunnable, Live, pages_left, addressable_lem}

-- There is a current block with room, and as many pages as before are left.
pub record HasRoom (c : Config) (f : Mnftl) (w : Machine) (o : Event × Mnftl × Machine)
    : Type 0 where
  pub live : Live c o.1 o.2
  pub has_current : o.1.has_current_block ≡ true
  pub room : o.1.current_page_offset < c.block_size
  pub same_left : pages_left c o.1 o.2 ≡ pages_left c f w

number_lem : (n m k : ℕ) → 0 < m → n % m ≡ 0 → n < k * m → ((n / m) * m ≡ n) × (n / m < k)
number_lem n m k p w l = (grind arith, grind arith)

module _ (cleanup : Cleanup) (order : Ssd → List ℕ) (c : Config) (run : IsRunnable c) where
  allocate-HasRoom :
      (e : Event) (f : Mnftl) (w : Machine)
      → Inv c f w
      → Live c f w
      → w.manager.simple_current_free < blocks_of c * c.block_size
      → (if f.has_current_block then c.block_size - f.current_page_offset else 0) ≡ 0
      → Returns (HasRoom c f w) (allocate_new_current_block cleanup order c e f w)
  unfolding allocate_new_current_block set_linear_address
  allocate-HasRoom e f w v l fresh none_left =
      let next = w.manager.simple_current_free in
      let pos = run.set_up.block_pos in
      let same = addressable_lem c run.single in
      let limit : w.manager.max_blocks ≡ blocks_of c = v.returns.limit ∙ same in
      let room : next < w.manager.max_blocks * c.block_size = rw limit fresh in
      let Q = λ (o : Address × Event × Mnftl × Machine). Unwritten c w o.3 in
      let R = Handed cleanup order c run.set_up.impl e f w in
      let r = get_free_block cleanup order c data_block e f w in
      let (exact, inside) = number_lem next c.block_size (blocks_of c) pos v.returns.whole fresh in
      Returns-bind (λ o. Q o × R o) (HasRoom c f w) r _
        (Returns-Every Q R r (get_free_block-Returns cleanup order c run.sized e f w l.shaped room)
          (get_free_block_fresh cleanup order c run.set_up.impl e f w pos v.returns))
        λ o k.
          let moved : o.3.manager.simple_current_free ≡ next + c.block_size = k.1.next in
          let pmd : o.2.pmd ≡ f.pmd = ap (λ (x : Mnftl). x.pmd) k.1.same_state in
          let pmt : o.2.pmt ≡ f.pmt = ap (λ (x : Mnftl). x.pmt) k.1.same_state in
          let full : next + c.block_size ≤ blocks_of c * c.block_size = rw (← same) k.1.in_limit in
          record {
            live = record {
              shaped = k.0.0;
              unwritten = λ n h b. k.0.1 (first_page c n) ∙ l.unwritten n h (omega arith);
              current = λ _. record {
                number = next / c.block_size;
                below = omega arith;
                inside = inside;
                address =
                    ap (λ (x : Address). record x { valid = AddressValid.block }) k.1.address
                    ∙ ap (λ (x : ℕ). set_linear_address c x AddressValid.block no_address)
                        (sym exact);
                count =
                    k.0.1 (first_page c (next / c.block_size))
                    ∙ l.unwritten (next / c.block_size) inside (omega arith);
                offset = omega arith;
              };
              tables = rw (pmd, pmt) l.tables;
              mapped = λ lbn i j p. rw pmt (l.mapped lbn i j p);
            };
            has_current = refl;
            room = pos;
            same_left = omega arith;
          }

  pub ensure_current_block-HasRoom :
      (e : Event) (f : Mnftl) (w : Machine)
      → Inv c f w
      → Live c f w
      → 0 < pages_left c f w
      → Returns (HasRoom c f w) (ensure_current_block cleanup order c e f w)
  unfolding ensure_current_block
  ensure_current_block-HasRoom e f w v l pos =
      elim (Bool-cases (not f.has_current_block || (f.current_page_offset == c.block_size))) [
        | inl q ↦
            let used_up : (if f.has_current_block then c.block_size - f.current_page_offset else 0)
                ≡ 0 =
              ground arith in
            rw q (allocate-HasRoom e f w v l (omega arith) used_up)
        | inr q ↦
            let has : f.has_current_block ≡ true = ground arith in
            let on = l.current has in
            rw q (record {
              live = l;
              has_current = has;
              room = (let le = on.offset in ground arith);
              same_left = refl;
            })
      ]
