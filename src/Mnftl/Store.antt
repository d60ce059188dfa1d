-- ===== src/Mnftl/Store.antt =====
-- The write of mn_ftl.cpp, as an operation on the contents of the logical pages.
use mnftl.Base.{
  ℕ, ◌+◌, ◌^◌, ◌<◌, ◌≡◌, refl, sym, ap, ◌∙◌, subst, inl, inr, true, false, ◌&&◌, Option, none, some,
  List, arith, ltb, ◌==◌, if◌then◌else◌, Bool-cases, u32, ok, ◌>>=◌, ◌>>◌, assert, Every,
  Every-bind, Every-assert, Every-trivial,
}
use mnftl.Config.{Config, EventType, rank}
use mnftl.Address.{Address}
use mnftl.Event.{Event, incr_time_taken, set_address}
use mnftl.Flash.Page.{Memory, store_payload, store}
use mnftl.Flash.Effect.{Target}
use mnftl.Ssd
use mnftl.Ssd.{Ssd}
use mnftl.Ssd.Effects.{ssd_view}
use mnftl.Ssd.FreePage.{FreePage, FreePage-view, get_free_page-FreePage}
use mnftl.BlockManager.{Machine, issue}
use mnftl.BlockManager.Issue.{Issued, issue-write-Issued}
use mnftl.Mnftl.Tables.{get_slot, get_anchor, put_slot, put_anchor}
use mnftl.Mnftl.Tables.Laws.{
  entry, anchor, entry-ensure, anchor-ensure, entry-put_slot, anchor-put_anchor,
}
use mnftl.Mnftl.{
  Mnftl, Cleanup, lbn_of, pmd_index_of, map_slot_of, num_pmd_of, q_of, write, write_mapped,
  ensure_tables, ensure_current_block, alloc_page_in_current_block, read_oob, replace_old,
  issue_event, count_write,
}
use mnftl.Mnftl.Places.{Addressable}
use mnftl.Mnftl.Inv.{IsSetUp, Inv, content, Ready, ensure_current_block-Ready}
use mnftl.Mnftl.Commit.{put, Served, Committed, Commit-Inv, Commit-content}

-- A request to write one page of data.
pub record IsWrite (e : Event) (v : ℕ) : Type 0 where
  pub event_type : e.event_type ≡ EventType.write
  pub size : e.size ≡ 1
  pub noop : e.noop ≡ false
  pub payload : e.payload ≡ some v

pub read_oob-IsWrite :
    (c : Config) (o : Option ℕ) (e : Event) (v : ℕ) → IsWrite e v → IsWrite (read_oob c o e) v
unfolding read_oob incr_time_taken
read_oob-IsWrite c none e v h = h
read_oob-IsWrite c (some p) e v h = record {
  event_type = h.event_type;
  size = h.size;
  noop = h.noop;
  payload = h.payload;
}

pub replace_old-IsWrite :
    (c : Config) (o : Option ℕ) (e : Event) (v : ℕ) → IsWrite e v → IsWrite (replace_old c o e) v
unfolding replace_old
replace_old-IsWrite c none e v h = h
replace_old-IsWrite c (some p) e v h = record {
  event_type = h.event_type;
  size = h.size;
  noop = h.noop;
  payload = h.payload;
}

-- The page that `alloc_page_in_current_block` finds, and what it changes.
record Allocated (c : Config) (f : Mnftl) (o : Address × Mnftl) : Type 0 where
  free : FreePage c f.current_block o.0
  has_current : f.has_current_block ≡ true
  same_rest : o.1 ≡ record f { current_page_offset = o.1.current_page_offset }

alloc_page-Allocated :
    (c : Config) (f : Mnftl) (w : Machine)
    → Every (Allocated c f) (alloc_page_in_current_block c f w)
unfolding alloc_page_in_current_block
alloc_page-Allocated c f w = elim (Bool-cases f.has_current_block) [
  | inr e ↦ rw e tt
  | inl e ↦
      let k : Every (Allocated c f) (do
        assert (ltb 0 (rank f.current_block.valid))
        a ← Ssd.get_free_page c f.current_block w.ssd
        ok (a, record f { current_page_offset = u32 (f.current_page_offset + 1) })) =
        Every-assert (Allocated c f) (ltb 0 (rank f.current_block.valid)) _ (
          Every-bind (FreePage c f.current_block) (Allocated c f)
            (Ssd.get_free_page c f.current_block w.ssd) _
            (get_free_page-FreePage c f.current_block w.ssd)
            λ a h. record { free = h; has_current = e; same_rest = refl }) in
      subst
        (λ b. Every (Allocated c f) (
          assert b >> (do
            assert (ltb 0 (rank f.current_block.valid))
            a ← Ssd.get_free_page c f.current_block w.ssd
            ok (a, record f { current_page_offset = u32 (f.current_page_offset + 1) }))))
        (sym e) k
]

module _ (c : Config) (set_up : IsSetUp c) (enabled : c.page_enable_data ≡ true) where
  -- What the event that is issued does to the memory.
  store_payload-eq :
      (e : Event) (m : Memory) (v : ℕ)
      → IsWrite e v
      → (store_payload c e m).page_data
        ≡ (λ i. if i == e.address.real_address then v else m.page_data i)
  unfolding store_payload store
  store_payload-eq e m v h = rw (enabled, h.noop, h.payload) refl

  module _ (f : Mnftl) (w : Machine) (v : Inv c f w) (lpn x : ℕ)
      (addressable : Addressable c lpn) where
    -- The last step of `write`: the event is issued, with the tables that name its page.
    finish :
        (e : Event) (a : Address) (f' : Mnftl)
        → IsWrite e x
        → e.address ≡ a
        → FreePage c f.current_block a
        → f.has_current_block ≡ true
        → f'.current_block ≡ f.current_block
        → f'.has_current_block ≡ f.has_current_block
        → ((lbn' i j : ℕ)
            → entry lbn' i j f'.pmt ≡ (
                if (lbn_of c lpn == lbn') && (pmd_index_of c lpn == i) && (map_slot_of c lpn == j)
                then some a.real_address
                else entry lbn' i j f.pmt))
        → ((lbn' i : ℕ)
            → anchor lbn' i f'.pmd ≡ (
                if (lbn_of c lpn == lbn') && (pmd_index_of c lpn == i)
                then some a.real_address
                else anchor lbn' i f.pmd))
        → Every (Served c (put lpn x (content c f w))) (issue_event c e f' w)
    unfolding issue_event
    finish e a f' h same free has cur has' pmt pmd =
        let small : a.real_address < 2 ^ 32 =
          (let room = v.current has in let near = free.near in omega arith) in
        let view = λ (d : Ssd). FreePage-view c f.current_block a d free small in
        Every-bind
          (λ o. Issued e w (store_payload c e w.memory) o × Target ssd_view e.address w.ssd o.2.ssd)
          (Served c (put lpn x (content c f w))) (issue c e w) _
          (issue-write-Issued c e w h.event_type h.size h.noop)
          λ o k.
            let done : Committed c f w lpn a.real_address x f' o.2 = record {
              small = small;
              fresh = λ u. k.1.fresh (rw (same, view w.ssd) u);
              now = rw (← view o.2.ssd, ← same) k.1.now;
              kept = k.0.kept;
              same_manager = k.0.same_manager;
              stored =
                  ap (λ (m : Memory). m.page_data) k.0.same_memory
                  ∙ store_payload-eq e w.memory x h
                  ∙ ap
                      (λ (b : Address).
                        λ i. if i == b.real_address then x else w.memory.page_data i)
                      same;
              same_current = cur;
              same_has_current = has';
              pmt = pmt;
              pmd = pmd;
            } in
            record {
              done = k.0.done;
              inv = Commit-Inv c f w v lpn a.real_address x f' o.2 done;
              contents =
                  Commit-content c f w v lpn a.real_address x f' o.2 done set_up.block_pos
                    addressable;
            }

    pub write_mapped-Served :
        (e : Event)
        → IsWrite e x
        → Every (Served c (put lpn x (content c f w))) (write_mapped c lpn e f w)
    unfolding write_mapped ensure_tables
    write_mapped-Served e h =
        let f0 = ensure_tables c (lbn_of c lpn) f in
        let P = Served c (put lpn x (content c f w)) in
        Every-bind _ P (get_anchor (lbn_of c lpn) (pmd_index_of c lpn) f0.pmd) _ (Every-trivial _)
          λ top _.
            Every-bind (Allocated c f0) P (alloc_page_in_current_block c f0 w) _
              (alloc_page-Allocated c f0 w)
              λ r k.
                Every-bind _ P
                  (get_slot (lbn_of c lpn) (pmd_index_of c lpn) (map_slot_of c lpn) r.1.pmt) _
                  (Every-trivial _)
                  λ old _.
                    Every-bind _ P
                      (put_slot (lbn_of c lpn) (pmd_index_of c lpn) (map_slot_of c lpn)
                        (some r.0.real_address) r.1.pmt)
                      _
                      (entry-put_slot (lbn_of c lpn) (pmd_index_of c lpn) (map_slot_of c lpn)
                        (some r.0.real_address) r.1.pmt)
                      λ pmt hs.
                        Every-bind _ P
                          (put_anchor (lbn_of c lpn) (pmd_index_of c lpn) (some r.0.real_address)
                            r.1.pmd)
                          _
                          (anchor-put_anchor (lbn_of c lpn) (pmd_index_of c lpn)
                            (some r.0.real_address) r.1.pmd)
                          λ pmd ha.
                            finish (set_address r.0 (replace_old c old (read_oob c top e))) r.0
                              (record r.1 { pmt = pmt; pmd = pmd })
                              (let g =
                                  replace_old-IsWrite c old (read_oob c top e) x
                                    (read_oob-IsWrite c top e x h) in
                                record {
                                  event_type = g.event_type;
                                  size = g.size;
                                  noop = g.noop;
                                  payload = g.payload;
                                })
                              refl k.free k.has_current
                              (ap (λ (y : Mnftl). y.current_block) k.same_rest)
                              (ap (λ (y : Mnftl). y.has_current_block) k.same_rest)
                              (λ lbn' i j.
                                hs lbn' i j
                                ∙ (rw
                                    (
                                      ap (λ (y : Mnftl). y.pmt) k.same_rest,
                                      entry-ensure (lbn_of c lpn) (num_pmd_of c) (q_of c) lbn' i j
                                          f.pmt,
                                    )
                                    refl))
                              (λ lbn' i.
                                ha lbn' i
                                ∙ (rw
                                    (
                                      ap (λ (y : Mnftl). y.pmd) k.same_rest,
                                      anchor-ensure (lbn_of c lpn) (num_pmd_of c) lbn' i f.pmd,
                                    )
                                    refl))

  module _ (cleanup : Cleanup) (order : Ssd → List ℕ) where
    -- On a device set up for MNFTL that stores data, from a state with the invariant: a write with
    -- data of one addressable page that returns, and is no noop, has succeeded, its logical page
    -- holds the data, every other page what it held before, and the invariant is kept.
    pub write-Served :
        (e : Event) (f : Mnftl) (w : Machine) (x : ℕ)
        → Inv c f w
        → IsWrite e x
        → Addressable c e.logical_address
        → Every (Served c (put e.logical_address x (content c f w))) (write cleanup order c e f w)
    unfolding write
    write-Served e f w x v h lt =
        let counted : Inv c f (count_write w) = record {
          returns = v.returns;
          current = v.current;
          anchored = v.anchored;
          used = v.used;
        } in
        let P = Served c (put e.logical_address x (content c f w)) in
        Every-bind (Ready c e f (count_write w)) P
          (ensure_current_block cleanup order c e f (count_write w)) _
          (ensure_current_block-Ready cleanup order c set_up e f (count_write w) counted)
          λ o r.
            let same : content c o.1 o.2 ≡ content c f w = rw (r.same_pmt, r.same_memory) refl in
            subst
              (λ g.
                Every (Served c (put e.logical_address x g))
                  (write_mapped c e.logical_address o.0 o.1 o.2))
              same
              (write_mapped-Served o.1 o.2 r.inv e.logical_address x lt o.0 (rw r.same_event h))
