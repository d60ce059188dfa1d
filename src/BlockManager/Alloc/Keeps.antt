-- ===== src/BlockManager/Alloc/Keeps.antt =====
-- What the allocation of a block keeps of the state of an FTL.
use mnftl.Base.{
  ℕ, zero, suc, ◌*◌, not, ◌&&◌, ◌||◌, List, [], ◌∷◌, ltb, leb, ◌==◌, if_cases, Run, or_abort, Every,
  Every-bind, Every-trivial, length,
}
use mnftl.Config.{Config, BlockType, impl_dftl, impl_bimodal}
use mnftl.Address.{Address}
use mnftl.Event.{Event}
use mnftl.Ssd.{Ssd}
use mnftl.BlockManager.{Machine, erase_at, erase_invalid, few_used, split_last}
use mnftl.BlockManager.Alloc.{
  block_at, next_victim, collect_block, collect, collect_cost, insert_events, collect_when_short,
  pop_free, get_page_block, take_as, get_free_block,
}

module _ {F : Type 0} (cleanup : Event → ℕ → F → Machine → Run (Event × F × Machine))
    (order : Ssd → List ℕ) (c : Config) (P : F → Type 0)
    (keeps : (e : Event) (b : ℕ) (f : F) (w : Machine)
      → P f
      → Every (λ o. P o.1) (cleanup e b f w)) where
  -- A call that returns has kept it.
  Keeps : Event × F × Machine → Type 0
  Keeps o = P o.1

  collect_block-Keeps :
      (b : ℕ) (e : Event) (f : F) (w : Machine)
      → P f
      → Every Keeps (collect_block cleanup order c b e f w)
  unfolding collect_block Keeps
  collect_block-Keeps b e f w p =
      if_cases (Every Keeps) (w.manager.current_writing_block == b) (λ _. p)
        λ _.
          Every-bind (λ o. P o.1) Keeps (cleanup e b f w) _ (keeps e b f w p)
            λ o q.
              Every-bind _ Keeps (erase_at c _ o.0.start_time o.0 o.2) _ (Every-trivial _) λ r _. q

  collect-Keeps :
      (n b : ℕ) (e : Event) (f : F) (w : Machine)
      → P f
      → Every Keeps (collect cleanup order c n b e f w)
  unfolding collect Keeps
  collect-Keeps zero b e f w p = p
  collect-Keeps (suc n) b e f w p =
      Every-bind _ Keeps (block_at c b w.ssd) _ (Every-trivial _) λ v _.
        if_cases (Every Keeps) (ltb 0 v.pages_invalid && (v.pages_valid == c.block_size))
          (λ _.
            Every-bind Keeps Keeps (collect_block cleanup order c b e f w) _
              (collect_block-Keeps b e f w p)
              λ o q.
                Every-bind _ Keeps (next_victim cleanup order o.2) _ (Every-trivial _)
                  λ b' _. collect-Keeps n b' o.0 o.1 o.2 q)
          (λ _. p)

  insert_events-Keeps :
      (e : Event) (f : F) (w : Machine) → P f → Every Keeps (insert_events cleanup order c e f w)
  unfolding insert_events collect_cost Keeps
  insert_events-Keeps e f w p =
      if_cases (Every Keeps) (few_used c w.manager) (λ _. p)
        λ _. Every-bind _ Keeps (erase_invalid c 5 e w) _ (Every-trivial _) λ o _.
          if_cases (Every Keeps)
            ((c.ftl_implementation == impl_dftl) || (c.ftl_implementation == impl_bimodal))
            (λ _.
              Every-bind _ Keeps (or_abort (split_last (order o.2.ssd))) _ (Every-trivial _)
                λ b _. collect-Keeps o.0 b.1 o.1 f _ p)
            (λ _. p)

  pop_free-Keeps :
      (e : Event) (f : F) (w : Machine) (bs : List ℕ)
      → P f
      → Every (λ o. P o.2) (pop_free cleanup order c e f w bs)
  unfolding pop_free
  pop_free-Keeps e f w [] p = tt
  pop_free-Keeps e f w (b ∷ bs) p = p

  -- What `cleanup_block` keeps of the state of the FTL, a call of `get_free_block` that returns has kept.
  pub get_free_block-Keeps :
      (t : BlockType) (e : Event) (f : F) (w : Machine)
      → P f
      → Every (λ o. P o.2) (get_free_block cleanup order c t e f w)
  unfolding get_free_block get_page_block collect_when_short Keeps
  get_free_block-Keeps t e f w p =
      Every-bind (λ (o : Address × Event × F × Machine). P o.2)
        (λ (o : Address × Event × F × Machine). P o.2) (get_page_block cleanup order c e f w) _
        (if_cases (Every (λ (o : Address × Event × F × Machine). P o.2))
          (ltb w.manager.simple_current_free (w.manager.max_blocks * c.block_size)) (λ _. p)
          λ _.
            Every-bind Keeps (λ (o : Address × Event × F × Machine). P o.2)
              (collect_when_short cleanup order c e f w) _
              (if_cases (Every Keeps)
                (leb (length w.manager.free_list) 1 && not w.manager.out_of_blocks)
                (λ _. insert_events-Keeps e f _ p) (λ _. p))
              λ o q. pop_free-Keeps o.0 o.1 o.2 o.2.manager.free_list q)
        λ o q.
          Every-bind _ (λ (x : Address × Event × F × Machine). P x.2) (take_as t o.0 o.3) _
            (Every-trivial _) λ w' _. q
