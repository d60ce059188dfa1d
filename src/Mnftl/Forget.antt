-- ===== src/Mnftl/Forget.antt =====
-- The trim of mn_ftl.cpp, as an operation on the contents of the logical pages.
use mnftl.Base.{
  ℕ, ◌<◌, ◌≡◌, refl, inl, inr, true, ◌&&◌, Option, none, some, List, arith, ltb, ◌==◌,
  if◌then◌else◌, Bool-cases, Every, Every-bind, length,
}
use mnftl.Config.{Config, AddressValid, Status, success, EventType}
use mnftl.Address.{at}
use mnftl.Event.{Event, set_address, set_noop}
use mnftl.BlockManager.{Machine}
use mnftl.BlockManager.Issue.{issue-trim-eq}
use mnftl.Mnftl.Tables.{find, put_slot}
use mnftl.Mnftl.Tables.Laws.{entry, anchor, entry-put_slot, anchor_missing, anchor_short}
use mnftl.Mnftl.{
  Mnftl, lbn_of, pmd_index_of, map_slot_of, trim, trim_entries, clear_slot, issue_noop, issue_event,
  count_trim,
}
use mnftl.Mnftl.Places.{Addressable, same_place, same_place-eq}
use mnftl.Mnftl.Inv.{Inv, content}
use mnftl.Mnftl.Commit.{drop, Served}

-- A logical page is forgotten: its slot is empty, and all the rest is as it was.
pub record Forgotten (c : Config) (f : Mnftl) (lpn : ℕ) (f' : Mnftl) : Type 0 where
  pub same_rest : f' ≡ record f { pmt = f'.pmt }
  pub pmt :
      (lbn i j : ℕ)
      → entry lbn i j f'.pmt ≡ (
          if (lbn_of c lpn == lbn) && (pmd_index_of c lpn == i) && (map_slot_of c lpn == j)
          then none
          else entry lbn i j f.pmt)

module _ (c : Config) (f : Mnftl) (w : Machine) (v : Inv c f w) (lpn : ℕ) where
  -- A page without an anchor is mapped to nothing, so that it is forgotten already.
  unmapped-Forgotten : anchor (lbn_of c lpn) (pmd_index_of c lpn) f.pmd ≡ none → Forgotten c f lpn f
  unmapped-Forgotten h = record {
    same_rest = refl;
    pmt = λ lbn i j. same lbn i j (entry lbn i j f.pmt) refl;
  }
    where
      same :
          (lbn i j : ℕ) (o : Option ℕ)
          → entry lbn i j f.pmt ≡ o
          → entry lbn i j f.pmt ≡ (
              if (lbn_of c lpn == lbn) && (pmd_index_of c lpn == i) && (map_slot_of c lpn == j)
              then none
              else entry lbn i j f.pmt)
      same lbn i j none q = ground arith
      same lbn i j (some p) q = let there = v.anchored lbn i j p q in ground arith

  clear_slot-Forgotten :
      (anchors : List (Option ℕ))
      → find (lbn_of c lpn) f.pmd ≡ some anchors
      → Every (Forgotten c f lpn) (clear_slot c lpn anchors f)
  unfolding clear_slot
  clear_slot-Forgotten anchors q = elim (Bool-cases (ltb (pmd_index_of c lpn) (length anchors))) [
    | inl e ↦ rw e (
        Every-bind _ (Forgotten c f lpn)
          (put_slot (lbn_of c lpn) (pmd_index_of c lpn) (map_slot_of c lpn) none f.pmt) _
          (entry-put_slot (lbn_of c lpn) (pmd_index_of c lpn) (map_slot_of c lpn) none f.pmt)
          λ pmt h. record { same_rest = refl; pmt = h })
    | inr e ↦
        rw e
          (unmapped-Forgotten (anchor_short (lbn_of c lpn) (pmd_index_of c lpn) f.pmd anchors q e))
  ]

  module _ (f' : Mnftl) (k : Forgotten c f lpn f') where
    Forgotten-keeps : (lbn i j p : ℕ) → entry lbn i j f'.pmt ≡ some p → entry lbn i j f.pmt ≡ some p
    Forgotten-keeps lbn i j p q = let slot = k.pmt lbn i j in ground arith

    Forgotten-Inv : Inv c f' w
    Forgotten-Inv = record {
      returns = v.returns;
      current = rw k.same_rest v.current;
      anchored = λ lbn i j p q. rw k.same_rest (v.anchored lbn i j p (Forgotten-keeps lbn i j p q));
      used = λ lbn i j p q. v.used lbn i j p (Forgotten-keeps lbn i j p q);
    }

    Forgotten-content :
        0 < c.block_size
        → Addressable c lpn
        → (n : ℕ) → Addressable c n
        → content c f' w n ≡ drop lpn (content c f w) n
    Forgotten-content pos here n there =
        rw
          (
            k.pmt (lbn_of c n) (pmd_index_of c n) (map_slot_of c n),
            ← same_place-eq c lpn n pos here there,
          )
          (elim (Bool-cases (same_place c lpn n)) [ inl e ↦ rw e refl | inr e ↦ rw e refl ])

-- A request to forget one page.
pub record IsTrim (e : Event) : Type 0 where
  pub event_type : e.event_type ≡ EventType.trim
  pub size : e.size ≡ 1

module _ (c : Config) (pos : 0 < c.block_size) (e : Event) (f : Mnftl) (w : Machine) (v : Inv c f w)
    (h : IsTrim e) (here : Addressable c e.logical_address) where
  Trimmed : Status × Event × Mnftl × Machine → Type 0
  Trimmed o = Served c (drop e.logical_address (content c f w)) o × (o.3 ≡ count_trim w)

  trim_done :
      (s : Event) (f' : Mnftl)
      → Forgotten c f e.logical_address f'
      → Trimmed (success, s, f', count_trim w)
  unfolding Trimmed
  trim_done s f' k =
      let held = Forgotten-Inv c f w v e.logical_address f' k in
      (
        record {
          done = refl;
          inv = record {
            returns = held.returns;
            current = held.current;
            anchored = held.anchored;
            used = held.used;
          };
          contents = Forgotten-content c f w v e.logical_address f' k pos here;
        },
        refl,
      )

  trim_entries-Trimmed :
      (o : Option (List (Option ℕ)))
      → find (lbn_of c e.logical_address) f.pmd ≡ o
      → Every Trimmed (trim_entries c o e f (count_trim w))
  unfolding trim_entries issue_noop issue_event
  trim_entries-Trimmed none q =
      let lpn = e.logical_address in
      trim_done e f (
        unmapped-Forgotten c f w v lpn (anchor_missing (lbn_of c lpn) (pmd_index_of c lpn) f.pmd q))
  trim_entries-Trimmed (some anchors) q =
      let lpn = e.logical_address in
      let noop = set_address (at c 0 AddressValid.page) (set_noop true e) in
      Every-bind (Forgotten c f lpn) Trimmed (clear_slot c lpn anchors f) _
        (clear_slot-Forgotten c f w v lpn anchors q)
        λ f' k. rw (issue-trim-eq c noop (count_trim w) h.event_type h.size) (trim_done noop f' k)

-- With a page at least in a block, from a state with the invariant: a trim of one addressable page
-- that returns has succeeded, its logical page holds nothing, every other page what it held before,
-- the machine differs in the count of trims only, and the invariant is kept.
pub trim-Served :
    (c : Config) (e : Event) (f : Mnftl) (w : Machine)
    → 0 < c.block_size
    → Inv c f w
    → IsTrim e
    → Addressable c e.logical_address
    → Every
        (λ o. Served c (drop e.logical_address (content c f w)) o × (o.3 ≡ count_trim w))
        (trim c e f w)
unfolding trim Trimmed
trim-Served c e f w pos v h here =
    trim_entries-Trimmed c pos e f w v h here (find (lbn_of c e.logical_address) f.pmd) refl
