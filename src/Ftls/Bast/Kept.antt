-- ===== src/Ftls/Bast/Kept.antt =====
-- What writes to BAST keep.
use mnftl.Base.{
  ℕ, suc, ◌-◌, ◌%◌, ◌≤◌, ◌<◌, ◌≡◌, refl, sym, ap, ◌∙◌, subst, ◌≢◌, inl, inr, Option, none, some,
  List, arith, ltb, leb, if◌then◌else◌, ltb→lt, if_cases, Option-cases, ok, fetch, Every,
  Every-bind, Every-assert, Every-trivial, Every-fetch, Every-map, length, set, length-set, All-set,
}
use mnftl.Config.{Config, Status, log_block}
use mnftl.Address.{Address}
use mnftl.Event.{Event}
use mnftl.Ssd.{Ssd}
use mnftl.Ssd.Queries.{controller_num_valid, controller_free_page}
use mnftl.BlockManager.{Machine, issue}
use mnftl.BlockManager.Alloc.{get_free_block}
use mnftl.BlockManager.Alloc.Keeps.{get_free_block-Keeps}
use mnftl.Mnftl.Tables.{find, insert}
use mnftl.Ftls.Parent.{parent_cleanup}
use mnftl.Ftls.Bast.{LogPageBlock, new_log, Bast, block_of, page_of, memory_read, ftl_write}
use mnftl.Ftls.Bast.Merge.{merge_log, evict, allocate_new_logblock}
use mnftl.Ftls.Bast.Requests.{set_page, write_log, write_merged, ensure_log, replace_data, write}
use mnftl.Ftls.Bast.Tables.{
  length-insert, length-update, length-erase_key, length-erase_known, get_elem?-known, Values,
  Values-insert, Values-update, Values-erase_key, Values-find,
}
use mnftl.Ftls.Bast.Inv.{InBlock, IsLog, IsBast, new_log-IsLog, Merged, merge_log-Merged}

-- Of what an operation on the log blocks returns.
abbrev pub Stays : Config → Event × Bast × Machine → Type 0
Stays c o = IsBast c o.1

module _ (c : Config) where
  Merged-IsBast : (lba : ℕ) (f g : Bast) → IsBast c f → Merged lba f g → IsBast c g
  Merged-IsBast lba f g h k = record {
    within =
        (let z = ap length k.log_map in
          let small = length-erase_key lba f.log_map in let le = h.within in omega arith);
    logs =
        subst (Values (IsLog c)) (sym k.log_map) (Values-erase_key (IsLog c) lba f.log_map h.logs);
    entries = ap length k.data_list ∙ length-set f.data_list lba (some k.start) ∙ h.entries;
  }

  -- A log block less.
  Merged-less :
      (lba : ℕ) (f g : Bast)
      → find lba f.log_map ≢ none
      → Merged lba f g
      → suc (length g.log_map) ≤ length f.log_map
  Merged-less lba f g known k =
      let z = ap length k.log_map in
      let less = length-erase_known lba f.log_map known in omega arith

  insert-IsBast :
      (lba : ℕ) (a : Address) (f : Bast)
      → IsBast c f
      → length f.log_map < c.bast_log_block_limit
      → IsBast c (record f { log_map = insert lba (new_log c a) f.log_map })
  insert-IsBast lba a f h room = record {
    within = (let more = length-insert lba (new_log c a) f.log_map in omega arith);
    logs = Values-insert (IsLog c) lba (new_log c a) f.log_map (new_log-IsLog c a) h.logs;
    entries = h.entries;
  }

  pub set_page-IsBast :
      (lba page : ℕ) (v : Option ℕ) (b : LogPageBlock) (f : Bast)
      → IsBast c f
      → IsLog c b
      → InBlock c v
      → Every (IsBast c) (set_page lba page v b f)
  unfolding set_page
  set_page-IsBast lba page v b f h l within =
      Every-bind _ (IsBast c) (fetch b.pages page) _ (Every-trivial _) λ old _. record {
        within =
            (let same = length-update lba (record b { pages = set b.pages page v }) f.log_map in
              let le = h.within in omega arith);
        logs =
            Values-update (IsLog c) lba (record b { pages = set b.pages page v }) f.log_map
              (length-set b.pages page v ∙ l.0, All-set (InBlock c) b.pages page v l.1 within)
              h.logs;
        entries = h.entries;
      }

  module _ (order : Ssd → List ℕ) (random : ℕ → ℕ) where
    evict-IsBast :
        (e : Event) (f : Bast) (w : Machine)
        → IsBast c f
        → Every
            (λ o. IsBast c o.1 × (suc (length o.1.log_map) ≤ length f.log_map))
            (evict order random c e f w)
    unfolding evict
    evict-IsBast e f w h =
        let P = λ (o : Event × Bast × Machine).
          IsBast c o.1 × (suc (length o.1.log_map) ≤ length f.log_map) in
        let f' = record f { draws = suc f.draws } in
        let h' : IsBast c f' = record { within = h.within; logs = h.logs; entries = h.entries } in
        Every-assert P (ltb 0 (length f.log_map)) _ (
          Every-fetch P f.log_map (random f.draws % length f.log_map - 1) _ λ x there.
            Every-bind _ P (merge_log order c x.1 x.0 e f' w) _
              (merge_log-Merged order c x.1 x.0 e f' w)
              λ o k. (
                Merged-IsBast x.0 f' o.1 h' k,
                Merged-less x.0 f' o.1 (get_elem?-known f.log_map _ x.0 x.1 there) k,
              ))

    allocate-IsBast :
        (lba : ℕ) (e : Event) (f : Bast) (w : Machine)
        → IsBast c f
        → Every (Stays c) (allocate_new_logblock order random c lba e f w)
    unfolding allocate_new_logblock
    allocate-IsBast lba e f w h =
        let P = Stays c in
        let R = λ (o : Event × Bast × Machine).
          IsBast c o.1 × (length o.1.log_map < c.bast_log_block_limit) in
        let made : Every R (
            if leb c.bast_log_block_limit (length f.log_map)
            then evict order random c e f w
            else ok (e, f, w)) =
          if_cases (Every R) (leb c.bast_log_block_limit (length f.log_map))
            (λ _.
              Every-map _ R (evict order random c e f w)
                (λ o k. (k.0, (let z = k.1 in let le = h.within in omega arith)))
                (evict-IsBast e f w h))
            (λ q. (h, ground arith)) in
        Every-bind R P
          (if leb c.bast_log_block_limit (length f.log_map)
            then evict order random c e f w
            else ok (e, f, w))
          _ made
          λ o k.
            Every-bind (λ x. x.2 ≡ o.1) P
              (get_free_block parent_cleanup order c log_block o.0 o.1 o.2) _
              (get_free_block-Keeps parent_cleanup order c (λ g. g ≡ o.1) (λ e b g w p. tt)
                log_block o.0 o.1 o.2 refl)
              λ x same.
                subst
                  (λ (g : Bast).
                    IsBast c (record g { log_map = insert lba (new_log c x.0) g.log_map }))
                  (sym same) (insert-IsBast lba x.0 o.1 k.0 k.1)

    write_merged-IsBast :
        (b : LogPageBlock) (lba : ℕ) (e : Event) (f : Bast) (w : Machine)
        → 0 < c.block_size
        → IsBast c f
        → Every (Stays c) (write_merged order random c b lba e f w)
    unfolding write_merged
    write_merged-IsBast b lba e f w pos h =
        let P = Stays c in
        Every-bind _ P (merge_log order c b lba e f w) _ (merge_log-Merged order c b lba e f w)
          λ o k.
            Every-bind _ P (allocate_new_logblock order random c lba o.0 o.1 o.2) _
              (allocate-IsBast lba o.0 o.1 o.2 (Merged-IsBast lba f o.1 h k))
              λ x s. elim (Option-cases (find lba x.1.log_map)) [
                | inl q ↦ rw q tt
                | inr (b', q) ↦ rw q (
                    Every-bind (IsBast c) P
                      (set_page lba (page_of c e.logical_address) (some 0) b' x.1) _
                      (set_page-IsBast lba (page_of c e.logical_address) (some 0) b' x.1 s
                        (Values-find (IsLog c) lba b' x.1.log_map s.logs q) pos)
                      λ g k'. k')
              ]

    ensure_log-IsBast :
        (lba : ℕ) (e : Event) (f : Bast) (w : Machine)
        → IsBast c f
        → Every (Stays c) (ensure_log order random c lba e f w)
    unfolding ensure_log
    ensure_log-IsBast lba e f w h = elim (Option-cases (find lba f.log_map)) [
      | inl q ↦ rw (q, ensure_log) (allocate-IsBast lba e f w h)
      | inr (b, q) ↦ rw (q, ensure_log) h
    ]

    write_log-IsBast :
        (b : LogPageBlock) (lba num_valid : ℕ) (e : Event) (f : Bast) (w : Machine)
        → IsBast c f
        → IsLog c b
        → num_valid < c.block_size
        → Every (Stays c) (write_log c b lba num_valid e f w)
    unfolding write_log
    write_log-IsBast b lba n e f w h l room =
        let P = Stays c in
        Every-bind _ P (fetch b.pages (page_of c e.logical_address)) _ (Every-trivial _) λ old _.
          Every-bind (IsBast c) P (set_page lba (page_of c e.logical_address) (some n) b f) _
            (set_page-IsBast lba (page_of c e.logical_address) (some n) b f h l room)
            λ g k.
              Every-bind _ P (controller_free_page c b.address w.ssd) _ (Every-trivial _) λ a _. k

    -- With a page at least in a block, from a state of BAST with at most as many log blocks as
    -- allowed, whose log blocks have an entry per page, each a place in a block, and with a data
    -- entry per logical block: a write that returns keeps all of that.
    pub write-IsBast :
        (e : Event) (f : Bast) (w : Machine)
        → 0 < c.block_size
        → IsBast c f
        → Every (λ o. IsBast c o.2) (write order random c e f w)
    unfolding write
    write-IsBast e f w pos h =
        let P = λ (o : Status × Event × Bast × Machine). IsBast c o.2 in
        let lba = block_of f e.logical_address in
        Every-bind (Stays c) P (ensure_log order random c lba e f w) _
          (ensure_log-IsBast lba e f w h)
          λ o k. elim (Option-cases (find lba o.1.log_map)) [
            | inl q ↦ rw q tt
            | inr (b, q) ↦
                let l = Values-find (IsLog c) lba b o.1.log_map k.logs q in
                rw q (
                  Every-bind _ P (controller_num_valid b.address o.2.ssd) _ (Every-trivial _) λ n _.
                    Every-bind (Stays c) P
                      (if ltb n c.block_size
                        then write_log c b lba n o.0 o.1 (memory_read o.2)
                        else write_merged order random c b lba o.0 o.1 (memory_read o.2))
                      _
                      (if_cases (Every (Stays c)) (ltb n c.block_size)
                        (λ r.
                          write_log-IsBast b lba n o.0 o.1 (memory_read o.2) k l
                            (ltb→lt n c.block_size r))
                        (λ _. write_merged-IsBast b lba o.0 o.1 (memory_read o.2) pos k))
                      λ x s.
                        Every-bind _ P (replace_data c x.1 lba x.0 x.2) _ (Every-trivial _) λ e3 _.
                          Every-bind _ P (issue c e3 (ftl_write x.2)) _ (Every-trivial _) λ y _. s)
          ]
