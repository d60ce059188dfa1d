-- ===== src/Mnftl/Live/Store.antt =====
-- When the write of MNFTL returns.
use mnftl.Base.{
  ℕ, ◌+◌, ◌-◌, ◌/◌, ◌%◌, ◌≤◌, ◌<◌, ◌≡◌, refl, sym, ap, ◌∙◌, subst, inl, inr, true, false, Option,
  none, some, List, arith, u32, Run, ok, ◌>>=◌, Returns, Returns-bind, Returns-Every, Returns-map,
}
use mnftl.Config.{Config, IsSized, EventType, Status, AddressValid, total_pages, rank}
use mnftl.Address.{Address, no_address, at, set_linear_address}
use mnftl.Address.Linear.{InRange}
use mnftl.Event.{Event, incr_time_taken, set_address}
use mnftl.Flash.Effect.{IsUsed}
use mnftl.Ssd.{Ssd}
use mnftl.Ssd.Effects.{ssd_view}
use mnftl.Ssd.Returns.{ssd_count}
use mnftl.Ssd.Numbers.{page_of_page, page-count}
use mnftl.Controller.Returns.{Replaceable, rise_in}
use mnftl.BlockManager.{Machine, issue}
use mnftl.BlockManager.Alloc.Returns.{linear-InRange}
use mnftl.BlockManager.Issue.Returns.{Raised, issue-write-Returns}
use mnftl.Mnftl.Tables.{find, get_slot, get_anchor, put_slot, put_anchor, new_pmd, new_pmt}
use mnftl.Mnftl.Tables.Laws.{
  entry, get_slot-entry, entry-ensure, anchor-ensure, entry-put_slot, find-ensure_self,
}
use mnftl.Mnftl.Tables.Shape.{
  ensure-IsShaped, get_anchor-Returns, put_anchor-Returns, get_slot-Returns, put_slot-Returns,
}
use mnftl.Mnftl.{
  Mnftl, Cleanup, lbn_of, pmd_index_of, map_slot_of, num_pmd_of, q_of, write, write_mapped,
  ensure_tables, ensure_current_block, alloc_page_in_current_block, read_oob, replace_old,
  issue_event, count_write,
}
use mnftl.Mnftl.Inv.{Inv, Ready, ensure_current_block-Ready}
use mnftl.Mnftl.Store.{IsWrite, read_oob-IsWrite, replace_old-IsWrite}
use mnftl.Mnftl.Live.{IsRunnable, Live, pages_left}
use mnftl.Mnftl.Live.Block.{HasRoom, ensure_current_block-HasRoom}
use mnftl.Mnftl.Live.Page.{place, next_page, alloc_page-Returns, Written, ppn_lt, Written-intro}

module _ (c : Config) (run : IsRunnable c) (lpn : ℕ) where
  pub index_lt : pmd_index_of c lpn < num_pmd_of c
  index_lt =
      index_room (lpn % c.block_size) c.block_size (q_of c) run.entries
        (let z = run.set_up.block_pos in omega arith)
    where
      index_room : (x b q : ℕ) → 0 < q → x < b → x / q < (b + q - 1) / q
      index_room x b q h lt = grind arith

  pub slot_lt : map_slot_of c lpn < q_of c
  slot_lt = let z = run.entries in omega arith

-- The event that the write issues: what it replaces, if anything, is a page in use.
read_oob-unset :
    (c : Config) (o : Option ℕ) (e : Event)
    → rank e.replace_address.valid ≡ 0
    → rank (read_oob c o e).replace_address.valid ≡ 0
unfolding read_oob incr_time_taken
read_oob-unset c none e h = h
read_oob-unset c (some p) e h = h

replace_old-Replaceable :
    (c : Config) (s : IsSized c) (o : Option ℕ) (e : Event) (a : Address) (d : Ssd)
    → rank e.replace_address.valid ≡ 0
    → ((p : ℕ) → o ≡ some p → IsUsed (ssd_view (at c p AddressValid.page) d))
    → Replaceable c (set_address a (replace_old c o e)) d
unfolding replace_old Replaceable at set_linear_address
replace_old-Replaceable c s none e a d h u = inl h
replace_old-Replaceable c s (some p) e a d h u =
    inr (refl, linear-InRange c (u32 p) AddressValid.page no_address s, u p refl)

module _ (c : Config) (run : IsRunnable c) (f : Mnftl) (w : Machine) (v : Inv c f w)
    (l : Live c f w) (has : f.has_current_block ≡ true)
    (room : f.current_page_offset < c.block_size) where
  issue-Written :
      (e : Event) (f' : Mnftl)
      → e.event_type ≡ EventType.write
      → e.size ≡ 1
      → e.noop ≡ false
      → e.address ≡ place c (next_page c run f w l has room)
      → Replaceable c e w.ssd
      → ((s : Status) (e' : Event) (w' : Machine)
          → Raised c (rise_in (place c (next_page c run f w l has room))) w w'
          → Written c run f w l has room (s, e', f', w'))
      → Returns (Written c run f w l has room) (issue_event c e f' w)
  unfolding issue_event set_linear_address next_page
  issue-Written e f' t size n at_next rep done =
      let on = l.current has in
      let a = place c (next_page c run f w l has room) in
      let lt : InRange c e.address = subst (InRange c) (sym at_next) (
        linear-InRange c (next_page c run f w l has room) AddressValid.page no_address run.sized) in
      let full : 4 ≤ rank e.address.valid =
        subst (λ (b : Address). 4 ≤ rank b.valid) (sym at_next) (omega arith) in
      let at_end : ssd_count e.address w.ssd ≡ ok e.address.page =
        subst (λ (b : Address). ssd_count b w.ssd ≡ ok b.page) (sym at_next)
          (page-count c run.sized on.number f.current_page_offset AddressValid.page no_address w.ssd
              room
            ∙ on.count
            ∙ ap ok (sym (page_of_page on.number f.current_page_offset c.block_size room))) in
      Returns-bind (λ o. Raised c (rise_in e.address) w o.2) (Written c run f w l has room)
        (issue c e w) _
        (issue-write-Returns c run.timed e w size l.shaped lt full rep run.small t n at_end)
        λ o k. done o.0 o.1 o.2 (subst (λ (b : Address). Raised c (rise_in b) w o.2) at_next k)

  module _ (lpn : ℕ) where
    -- The steps of the write behind the search of a page.
    stored : Event → Option ℕ → Address → Mnftl → Run (Status × Event × Mnftl × Machine)
    stored e anchor a f1 = do
      old ← get_slot (lbn_of c lpn) (pmd_index_of c lpn) (map_slot_of c lpn) f1.pmt
      pmt ←
          put_slot (lbn_of c lpn) (pmd_index_of c lpn) (map_slot_of c lpn) (some a.real_address)
            f1.pmt
      pmd ← put_anchor (lbn_of c lpn) (pmd_index_of c lpn) (some a.real_address) f1.pmd
      issue_event c (set_address a (replace_old c old (read_oob c anchor e)))
          (record f1 { pmt = pmt; pmd = pmd }) w

    module _ (e : Event) (x : ℕ) (h : IsWrite e x) (unset : rank e.replace_address.valid ≡ 0)
        (xs : List (Option ℕ)) (ts : List (List (Option ℕ)))
        (known_pmd : find (lbn_of c lpn) f.pmd ≡ some xs)
        (known_pmt : find (lbn_of c lpn) f.pmt ≡ some ts) where
      stored-Written :
          (anchor : Option ℕ)
          → Returns (Written c run f w l has room) (
              stored e anchor
                (place c (next_page c run f w l has room))
                (record f { current_page_offset = f.current_page_offset + 1 }))
      unfolding stored set_linear_address
      stored-Written anchor =
          let P = Written c run f w l has room in
          let lbn = lbn_of c lpn in
          let index = pmd_index_of c lpn in
          let slot = map_slot_of c lpn in
          let n = num_pmd_of c in
          let q = q_of c in
          let ppn = next_page c run f w l has room in
          let slots =
            get_slot-Returns n q f.pmd f.pmt l.tables lbn index slot ts known_pmt
              (index_lt c run lpn) (slot_lt c run lpn) in
          let puts =
            put_slot-Returns n q f.pmd f.pmt l.tables lbn index slot (some ppn) ts known_pmt
              (index_lt c run lpn) (slot_lt c run lpn) in
          Returns-bind _ P (get_slot lbn index slot f.pmt) _
            (Returns-Every _ _ _ slots (get_slot-entry lbn index slot f.pmt))
            λ old was.
              Returns-bind _ P (put_slot lbn index slot (some ppn) f.pmt) _
                (Returns-Every _ _ _ puts (entry-put_slot lbn index slot (some ppn) f.pmt))
                λ pmt k.
                  Returns-bind _ P (put_anchor lbn index (some ppn) f.pmd) _
                    (put_anchor-Returns n q f.pmd pmt k.0.0 lbn index (some ppn) xs known_pmd k.0.1
                      (index_lt c run lpn))
                    λ pmd shaped.
                      let e' = replace_old c old (read_oob c anchor e) in
                      let g =
                        replace_old-IsWrite c old (read_oob c anchor e) x
                          (read_oob-IsWrite c anchor e x h) in
                      let used : (p : ℕ)
                          → old ≡ some p
                          → IsUsed (ssd_view (at c p AddressValid.page) w.ssd) =
                        λ p eq. (v.used lbn index slot p (sym was.1 ∙ eq)).1 in
                      let f' = record f {
                        current_page_offset = f.current_page_offset + 1;
                        pmt = pmt;
                        pmd = pmd;
                      } in
                      let mapped : (lbn' i j p : ℕ)
                          → entry lbn' i j pmt ≡ some p
                          → p < total_pages c =
                        λ lbn' i j p r.
                          let was' = k.1 lbn' i j in
                          let old_lt = l.mapped lbn' i j p in
                          let new_lt = ppn_lt c run f w l has room in ground arith in
                      issue-Written (set_address (place c ppn) e') f' g.event_type g.size g.noop
                        refl
                        (replace_old-Replaceable c run.sized old (read_oob c anchor e) (place c ppn)
                          w.ssd (read_oob-unset c anchor e unset) used)
                        λ s e1 w' r.
                          Written-intro c run f w l has room f' w' r s e1 refl has refl shaped
                            mapped

      tables_found : Returns (Written c run f w l has room) (do
        anchor ← get_anchor (lbn_of c lpn) (pmd_index_of c lpn) f.pmd
        (a, f1) ← alloc_page_in_current_block c f w
        stored e anchor a f1)
      tables_found =
          let P = Written c run f w l has room in
          Returns-bind _ P (get_anchor (lbn_of c lpn) (pmd_index_of c lpn) f.pmd) _
            (get_anchor-Returns (num_pmd_of c) (q_of c) f.pmd f.pmt l.tables (lbn_of c lpn)
              (pmd_index_of c lpn) xs known_pmd (index_lt c run lpn))
            λ anchor _.
              Returns-bind _ P (alloc_page_in_current_block c f w) _
                (alloc_page-Returns c run f w l has room)
                λ o k.
                  subst (λ a. Returns P (stored e anchor a o.1)) (sym k.0)
                    (subst
                      (λ g.
                        Returns P (stored e anchor (place c (next_page c run f w l has room)) g))
                      (sym k.1) (stored-Written anchor))

module _ (c : Config) (run : IsRunnable c) where
  -- A request was served: the next one can be, with `spent` pages less.
  unfoldable pub Spent : ℕ → Mnftl → Machine → Status × Event × Mnftl × Machine → Type 0
  Spent spent f w o = Live c o.2 o.3 × (pages_left c o.2 o.3 + spent ≡ pages_left c f w)

  write_mapped-Spent :
      (f : Mnftl) (w : Machine) (lpn : ℕ) (e : Event) (x : ℕ)
      → Inv c f w
      → Live c f w
      → f.has_current_block ≡ true
      → f.current_page_offset < c.block_size
      → IsWrite e x
      → rank e.replace_address.valid ≡ 0
      → Returns (Spent 1 f w) (write_mapped c lpn e f w)
  unfolding write_mapped ensure_tables stored Written Spent
  write_mapped-Spent f w lpn e x v l has room h unset =
      let lbn = lbn_of c lpn in
      let n = num_pmd_of c in
      let q = q_of c in
      let f0 = ensure_tables c lbn f in
      let (xs, known_pmd) = find-ensure_self lbn (new_pmd n) f.pmd in
      let (ts, known_pmt) = find-ensure_self lbn (new_pmt n q) f.pmt in
      let l0 : Live c f0 w = record {
        shaped = l.shaped;
        unwritten = l.unwritten;
        current = λ b.
            (let on = l.current b in
              record {
                number = on.number;
                below = on.below;
                inside = on.inside;
                address = on.address;
                count = on.count;
                offset = on.offset;
              });
        tables = ensure-IsShaped n q f.pmd f.pmt l.tables lbn;
        mapped = λ k i j p r. l.mapped k i j p (sym (entry-ensure lbn n q k i j f.pmt) ∙ r);
      } in
      let v0 : Inv c f0 w = record {
        returns = v.returns;
        current = v.current;
        anchored = λ k i j p r.
            rw (anchor-ensure lbn n k i f.pmd)
              (v.anchored k i j p (sym (entry-ensure lbn n q k i j f.pmt) ∙ r));
        used = λ k i j p r. v.used k i j p (sym (entry-ensure lbn n q k i j f.pmt) ∙ r);
      } in
      tables_found c run f0 w v0 l0 has room lpn e x h unset xs ts known_pmd known_pmt

  -- On a device that MNFTL can run on, from a state with the invariant and the conditions of `Live`,
  -- while a page is left: a write of one page with data, that is no noop and replaces nothing yet,
  -- returns, keeps the conditions, and one page less is left.
  pub write-Spent :
      (cleanup : Cleanup) (order : Ssd → List ℕ) (e : Event) (f : Mnftl) (w : Machine) (x : ℕ)
      → Inv c f w
      → Live c f w
      → 0 < pages_left c f w
      → IsWrite e x
      → rank e.replace_address.valid ≡ 0
      → Returns (Spent 1 f w) (write cleanup order c e f w)
  unfolding write Spent
  write-Spent cleanup order e f w x v l left h unset =
      let counted : Inv c f (count_write w) = record {
        returns = v.returns;
        current = v.current;
        anchored = v.anchored;
        used = v.used;
      } in
      let l' : Live c f (count_write w) = record {
        shaped = l.shaped;
        unwritten = l.unwritten;
        current = λ b.
            (let on = l.current b in
              record {
                number = on.number;
                below = on.below;
                inside = on.inside;
                address = on.address;
                count = on.count;
                offset = on.offset;
              });
        tables = l.tables;
        mapped = l.mapped;
      } in
      Returns-bind _ (Spent 1 f w) (ensure_current_block cleanup order c e f (count_write w)) _
        (Returns-Every (HasRoom c f (count_write w)) (Ready c e f (count_write w))
          (ensure_current_block cleanup order c e f (count_write w))
          (ensure_current_block-HasRoom cleanup order c run e f (count_write w) counted l' left)
          (ensure_current_block-Ready cleanup order c run.set_up e f (count_write w) counted))
        λ o k.
          Returns-map (Spent 1 o.1 o.2) (Spent 1 f w) (write_mapped c e.logical_address o.0 o.1 o.2)
            (write_mapped-Spent o.1 o.2 e.logical_address o.0 x k.1.inv k.0.live k.0.has_current
              k.0.room (rw k.1.same_event h) (rw k.1.same_event unset))
            λ o' s. (s.0, s.1 ∙ k.0.same_left)
