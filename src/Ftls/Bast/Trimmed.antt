-- ===== src/Ftls/Bast/Trimmed.antt =====
-- What trims to BAST change of its tables.
use mnftl.Base.{
  ℕ, ◌+◌, ◌%◌, ◌≡◌, refl, sym, ap, ◌∙◌, subst, ◌⊎◌, inl, inr, true, false, Option, none, some, List,
  [], ◌∷◌, arith, ◌==◌, if◌then◌else◌, ==_iff, if_cases, Bool-cases, fetch, Every, Every-bind,
  Every-trivial, Every-fetch, get_elem?, set, get_elem?-set,
}
use mnftl.Config.{Config, AddressValid, Status, data_block, log_block}
use mnftl.Address.{Address, at}
use mnftl.Event.{Event, set_address, set_noop}
use mnftl.BlockManager.{Machine, issue, erase_and_invalidate}
use mnftl.Mnftl.Tables.{Map, find, erase_key}
use mnftl.Ftls.Bast.{
  LogPageBlock, Bast, block_of, page_of, in_log, memory_read, dispose_logblock, update,
}
use mnftl.Ftls.Bast.Requests.{
  set_page, trim_log_page, trim_log, trim_data, trim, invalidate_at, is_inactive, count_trim,
}

module _ {V : Type 0} where
  find-erase_key :
      (k j : ℕ) (m : Map V) → find j (erase_key k m) ≡ (if k == j then none else find j m)
  unfolding find erase_key
  find-erase_key k j [] = ground arith
  find-erase_key k j ((i, u) ∷ m) = let rest = find-erase_key k j m in ground arith

  find-update_self :
      (k : ℕ) (v u : V) (m : Map V) → find k m ≡ some u → find k (update k v m) ≡ some v
  unfolding find update
  find-update_self k v u [] h = cc
  find-update_self k v u ((i, x) ∷ m) h = let rest = find-update_self k v u m in ground arith

  find-update_ne :
      (k j : ℕ) (v : V) (m : Map V) → (k == j) ≡ false → find j (update k v m) ≡ find j m
  unfolding find update
  find-update_ne k j v [] h = refl
  find-update_ne k j v ((i, x) ∷ m) h = let rest = find-update_ne k j v m h in ground arith

-- The entry of a page in a log block, none where there is no log block or no such page.
abbrev pub stored_entry : Option (Option ℕ) → Option ℕ
stored_entry none = none
stored_entry (some v) = v

abbrev pub entry_in : Option LogPageBlock → ℕ → Option ℕ
entry_in none page = none
entry_in (some b) page = stored_entry (get_elem? b.pages page)

-- The log blocks after a trim of a page of a logical block: the page has no entry, the other pages of
-- the logical block have theirs unless its log block is gone, and the other log blocks are the same.
pub record LogCleared (lba page : ℕ) (f g : Bast) : Type 0 where
  pub slot :
      (find lba g.log_map ≡ none)
      ⊎ ((p : ℕ)
          → entry_in (find lba g.log_map) p
            ≡ (if page == p then none else entry_in (find lba f.log_map) p))
  pub other_logs :
      (k : ℕ) → find k g.log_map ≡ (if lba == k then find lba g.log_map else find k f.log_map)

-- Its data blocks: that of the logical block may be gone.
abbrev pub DataCleared : ℕ → Bast → Bast → Type 0
DataCleared lba f g = (g.data_list ≡ f.data_list) ⊎ (g.data_list ≡ set f.data_list lba none)

same_key :
    (V : Type 0) (lba k : ℕ) (m : Map V) → find k m ≡ (if lba == k then find lba m else find k m)
same_key V lba k m = elim (Bool-cases (lba == k)) [
  | inl q ↦ let e = (==_iff lba k).0 q in rw q (ap (λ (n : ℕ). find n m) (sym e))
  | inr q ↦ rw q refl
]

slot_set :
    (ps : List (Option ℕ)) (page p : ℕ) (old : Option ℕ)
    → get_elem? ps page ≡ some old
    → stored_entry (get_elem? (set ps page none) p)
      ≡ (if page == p then none else stored_entry (get_elem? ps p))
slot_set ps page p old h = ground (arith, get_elem?-set ps page p none h)

slot_none :
    (b : LogPageBlock) (page p : ℕ)
    → get_elem? b.pages page ≡ some none
    → entry_in (some b) p ≡ (if page == p then none else entry_in (some b) p)
slot_none b page p h = elim (Bool-cases (page == p)) [
  | inl q ↦
      let e = (==_iff page p).0 q in rw q (ap stored_entry (ap (get_elem? b.pages) (sym e) ∙ h))
  | inr q ↦ rw q refl
]

-- The entry is reset.
reset_entry : (lba page : ℕ) → LogPageBlock → Bast → Bast
reset_entry lba page b f = record f {
  log_map = update lba (record b { pages = set b.pages page none }) f.log_map;
}

reset_entry-LogCleared :
    (lba page : ℕ) (b : LogPageBlock) (f : Bast) (old : Option ℕ)
    → find lba f.log_map ≡ some b
    → get_elem? b.pages page ≡ some old
    → LogCleared lba page f (reset_entry lba page b f)
unfolding reset_entry
reset_entry-LogCleared lba page b f old h there = record {
  slot = inr λ p.
      ap (λ o. entry_in o p)
        (find-update_self lba (record b { pages = set b.pages page none }) b f.log_map h)
      ∙ slot_set b.pages page p old there
      ∙ ap (λ o. if page == p then none else entry_in o p) (sym h);
  other_logs = λ k. elim (Bool-cases (lba == k)) [
    | inl q ↦
        let e = (==_iff lba k).0 q in
        rw q (ap (λ (n : ℕ). find n (reset_entry lba page b f).log_map) (sym e))
    | inr q ↦ rw q (find-update_ne lba k (record b { pages = set b.pages page none }) f.log_map q)
  ];
}

dispose-LogCleared :
    (lba page : ℕ) (f g : Bast)
    → LogCleared lba page f g
    → LogCleared lba page f (dispose_logblock lba g)
dispose-LogCleared lba page f g h = record {
  slot = inl (find-erase_key lba lba g.log_map ∙ (ground arith));
  other_logs = λ k.
      let at_k = find-erase_key lba k g.log_map in
      let at_lba = find-erase_key lba lba g.log_map in let before = h.other_logs k in ground arith;
}

moved_map :
    (lba page : ℕ) (f g h : Bast)
    → LogCleared lba page f g
    → h.log_map ≡ g.log_map
    → LogCleared lba page f h
moved_map lba page f g h k same = record {
  slot =
      subst
        (λ (m : Map LogPageBlock).
          (find lba m ≡ none)
          ⊎ ((p : ℕ)
              → entry_in (find lba m) p
                ≡ (if page == p then none else entry_in (find lba f.log_map) p)))
        (sym same) k.slot;
  other_logs =
      subst
        (λ (m : Map LogPageBlock).
          (j : ℕ) → find j m ≡ (if lba == j then find lba m else find j f.log_map))
        (sym same) k.other_logs;
}

module _ (c : Config) where
  trim_log_page-LogCleared :
      (b : LogPageBlock) (lba : ℕ) (i : Option ℕ) (e : Event) (f : Bast) (w : Machine)
      → find lba f.log_map ≡ some b
      → get_elem? b.pages (page_of c e.logical_address) ≡ some i
      → Every
          (λ o. LogCleared lba (page_of c e.logical_address) f o.2 × (o.2.data_list ≡ f.data_list))
          (trim_log_page c b lba i e f w)
  unfolding trim_log_page set_page reset_entry
  trim_log_page-LogCleared b lba none e f w h there = (
    record {
      slot = inr λ p.
          let page = page_of c e.logical_address in
          subst (λ o. entry_in o p ≡ (if page == p then none else entry_in o p)) (sym h)
            (slot_none b page p there);
      other_logs = λ k. same_key LogPageBlock lba k f.log_map;
    },
    refl,
  )
  trim_log_page-LogCleared b lba (some j) e f w h there =
      let page = page_of c e.logical_address in
      let P = λ (o : Address × Event × Bast × Machine).
        LogCleared lba page f o.2 × (o.2.data_list ≡ f.data_list) in
      let g = reset_entry lba page b f in
      let k = reset_entry-LogCleared lba page b f (some j) h there in
      Every-bind _ P (invalidate_at (in_log c b j) w) _ (Every-trivial _) λ x _. rw there (
        if_cases (Every P) (is_inactive x.0.state)
          (λ _.
            Every-bind _ P (erase_and_invalidate c (in_log c b j) log_block e x.1) _
              (Every-trivial _) λ y _. (dispose-LogCleared lba page f g k, refl))
          (λ _. (k, refl)))

  trim_log-LogCleared :
      (b : Option LogPageBlock) (lba : ℕ) (e : Event) (f : Bast) (w : Machine)
      → find lba f.log_map ≡ b
      → Every
          (λ o. LogCleared lba (page_of c e.logical_address) f o.2 × (o.2.data_list ≡ f.data_list))
          (trim_log c b lba e f w)
  unfolding trim_log
  trim_log-LogCleared none lba e f w h =
      (record { slot = inl h; other_logs = λ k. same_key LogPageBlock lba k f.log_map }, refl)
  trim_log-LogCleared (some b) lba e f w h =
      Every-fetch
        (λ (o : Address × Event × Bast × Machine).
          LogCleared lba (page_of c e.logical_address) f o.2 × (o.2.data_list ≡ f.data_list))
        b.pages (page_of c e.logical_address) _
        λ i there. trim_log_page-LogCleared b lba i e f w h there

  trim_data-DataCleared :
      (lba : ℕ) (d : Option ℕ) (e : Event) (f : Bast) (w : Machine)
      → Every (λ o. (o.1.log_map ≡ f.log_map) × DataCleared lba f o.1) (trim_data c lba d e f w)
  unfolding trim_data
  trim_data-DataCleared lba none e f w = (refl, inl refl)
  trim_data-DataCleared lba (some start) e f w =
      let P = λ (o : Event × Bast × Machine). (o.1.log_map ≡ f.log_map) × DataCleared lba f o.1 in
      let a = at c (start + e.logical_address % c.block_size) AddressValid.page in
      Every-bind _ P (invalidate_at a w) _ (Every-trivial _) λ x _.
        if_cases (Every P) (is_inactive x.0.state)
          (λ _.
            Every-bind _ P (erase_and_invalidate c a data_block e x.1) _ (Every-trivial _)
              λ y _. (refl, inr refl))
          (λ _. (refl, inl refl))

  -- A trim to BAST that returns changes the tables of its logical block only. Either the log block
  -- of that is gone, or its page has no entry in it and the other pages have theirs as before; the
  -- log blocks of all other logical blocks are the same; the data entries are as before, or that of
  -- the logical block alone is reset.
  pub trim-Cleared :
      (e : Event) (f : Bast) (w : Machine)
      → Every
          (λ o.
            LogCleared (block_of f e.logical_address) (page_of c e.logical_address) f o.2
            × DataCleared (block_of f e.logical_address) f o.2)
          (trim c e f w)
  unfolding trim
  trim-Cleared e f w =
      let lba = block_of f e.logical_address in
      let page = page_of c e.logical_address in
      let P = λ (o : Status × Event × Bast × Machine).
        LogCleared lba page f o.2 × DataCleared lba f o.2 in
      Every-bind _ P (trim_log c (find lba f.log_map) lba e f (memory_read w)) _
        (trim_log-LogCleared (find lba f.log_map) lba e f (memory_read w) refl)
        λ o k. Every-bind _ P (fetch o.2.data_list lba) _ (Every-trivial _) λ d _.
          Every-bind _ P (trim_data c lba d o.1 o.2 o.3) _ (trim_data-DataCleared lba d o.1 o.2 o.3)
            λ x s.
              Every-bind _ P (issue c (set_noop true (set_address o.0 x.0)) (count_trim x.2)) _
                (Every-trivial _)
                λ y _. (
                  moved_map lba page f o.2 x.1 k.0 s.0,
                  subst
                      (λ (ds : List (Option ℕ)).
                        (x.1.data_list ≡ ds) ⊎ (x.1.data_list ≡ set ds lba none))
                      k.1 s.1,
                )
