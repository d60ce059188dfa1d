-- ===== src/Ftls/Bast/Forget.antt =====
-- What trims to BAST keep.
use mnftl.Base.{
  ℕ, ◌+◌, ◌%◌, ◌≡◌, refl, ◌∙◌, true, Option, none, some, arith, if_cases, fetch, Every, Every-bind,
  Every-trivial, length-set,
}
use mnftl.Config.{Config, AddressValid, Status, data_block, log_block}
use mnftl.Address.{Address, at}
use mnftl.Event.{Event, set_address, set_noop}
use mnftl.BlockManager.{Machine, issue, erase_and_invalidate}
use mnftl.Mnftl.Tables.{find}
use mnftl.Ftls.Bast.{LogPageBlock, Bast, block_of, page_of, in_log, memory_read, dispose_logblock}
use mnftl.Ftls.Bast.Requests.{
  set_page, trim_log_page, trim_log, trim_data, trim, invalidate_at, is_inactive, count_trim,
}
use mnftl.Ftls.Bast.Tables.{length-erase_key, Values-erase_key, Values-find}
use mnftl.Ftls.Bast.Inv.{IsLog, IsBast}
use mnftl.Ftls.Bast.Kept.{Stays, set_page-IsBast}

module _ (c : Config) where
  dispose-IsBast : (lba : ℕ) (f : Bast) → IsBast c f → IsBast c (dispose_logblock lba f)
  dispose-IsBast lba f h = record {
    within = (let small = length-erase_key lba f.log_map in let le = h.within in omega arith);
    logs = Values-erase_key (IsLog c) lba f.log_map h.logs;
    entries = h.entries;
  }

  trim_log_page-IsBast :
      (b : LogPageBlock) (lba : ℕ) (i : Option ℕ) (e : Event) (f : Bast) (w : Machine)
      → IsBast c f
      → IsLog c b
      → Every (λ o. IsBast c o.2) (trim_log_page c b lba i e f w)
  unfolding trim_log_page
  trim_log_page-IsBast b lba none e f w h l = h
  trim_log_page-IsBast b lba (some j) e f w h l =
      let P = λ (o : Address × Event × Bast × Machine). IsBast c o.2 in
      Every-bind _ P (invalidate_at (in_log c b j) w) _ (Every-trivial _) λ x _.
        Every-bind (IsBast c) P (set_page lba (page_of c e.logical_address) none b f) _
          (set_page-IsBast c lba (page_of c e.logical_address) none b f h l tt)
          λ g k.
            if_cases (Every P) (is_inactive x.0.state)
              (λ _.
                Every-bind _ P (erase_and_invalidate c (in_log c b j) log_block e x.1) _
                  (Every-trivial _) λ y _. dispose-IsBast lba g k)
              (λ _. k)

  trim_log-IsBast :
      (o : Option LogPageBlock) (lba : ℕ) (e : Event) (f : Bast) (w : Machine)
      → IsBast c f
      → find lba f.log_map ≡ o
      → Every (λ o. IsBast c o.2) (trim_log c o lba e f w)
  unfolding trim_log
  trim_log-IsBast none lba e f w h q = h
  trim_log-IsBast (some b) lba e f w h q =
      Every-bind _ (λ (o : Address × Event × Bast × Machine). IsBast c o.2)
        (fetch b.pages (page_of c e.logical_address)) _ (Every-trivial _)
        λ i _. trim_log_page-IsBast b lba i e f w h (Values-find (IsLog c) lba b f.log_map h.logs q)

  trim_data-IsBast :
      (lba : ℕ) (d : Option ℕ) (e : Event) (f : Bast) (w : Machine)
      → IsBast c f
      → Every (Stays c) (trim_data c lba d e f w)
  unfolding trim_data
  trim_data-IsBast lba none e f w h = h
  trim_data-IsBast lba (some start) e f w h =
      let a = at c (start + e.logical_address % c.block_size) AddressValid.page in
      Every-bind _ (Stays c) (invalidate_at a w) _ (Every-trivial _) λ x _.
        if_cases (Every (Stays c)) (is_inactive x.0.state)
          (λ _.
            Every-bind _ (Stays c) (erase_and_invalidate c a data_block e x.1) _ (Every-trivial _)
              λ y _. record {
                within = h.within;
                logs = h.logs;
                entries = length-set f.data_list lba none ∙ h.entries;
              })
          (λ _. h)

  -- From a state of BAST with at most as many log blocks as allowed, whose log blocks have an entry
  -- per page, each a place in a block, and with a data entry per logical block: a trim that returns
  -- keeps all of that.
  pub trim-IsBast :
      (e : Event) (f : Bast) (w : Machine) → IsBast c f → Every (λ o. IsBast c o.2) (trim c e f w)
  unfolding trim
  trim-IsBast e f w h =
      let P = λ (o : Status × Event × Bast × Machine). IsBast c o.2 in
      let lba = block_of f e.logical_address in
      Every-bind _ P (trim_log c (find lba f.log_map) lba e f (memory_read w)) _
        (trim_log-IsBast (find lba f.log_map) lba e f (memory_read w) h refl)
        λ o k. Every-bind _ P (fetch o.2.data_list lba) _ (Every-trivial _) λ d _.
          Every-bind (Stays c) P (trim_data c lba d o.1 o.2 o.3) _
            (trim_data-IsBast lba d o.1 o.2 o.3 k)
            λ x s.
              Every-bind _ P (issue c (set_noop true (set_address o.0 x.0)) (count_trim x.2)) _
                (Every-trivial _) λ y _. s
