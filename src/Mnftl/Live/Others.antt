-- ===== src/Mnftl/Live/Others.antt =====
-- When the read and the trim of MNFTL return.
use mnftl.Base.{
  ℕ, ◌<◌, ◌≡◌, refl, sym, ap, ◌∙◌, inl, inr, Bool, true, Option, none, some, List, arith, ltb,
  lt→ltb, Option-cases, u32, ok, ◌>>=◌, Returns, Returns-bind, Returns-fetch, Returns-Every, length,
  get_elem?_total,
}
use mnftl.Config.{Config, Status, success, AddressValid, total_pages, rank}
use mnftl.Address.{no_address, at, set_linear_address}
use mnftl.Event.{Event, incr_time_taken, set_address, set_noop}
use mnftl.Flash.Kept.{raise_zero}
use mnftl.Ssd.Returns.{ssd_count}
use mnftl.Ssd.Numbers.{first_page}
use mnftl.Controller.Returns.{Replaceable, no_rise}
use mnftl.BlockManager.{Machine, issue}
use mnftl.BlockManager.Alloc.Returns.{linear-InRange}
use mnftl.BlockManager.Issue.{issue-trim-eq}
use mnftl.BlockManager.Issue.Returns.{Raised, issue-read-Returns}
use mnftl.Mnftl.Tables.{find, get_slot, put_slot}
use mnftl.Mnftl.Tables.Laws.{entry, entry-put_slot}
use mnftl.Mnftl.Tables.Shape.{IsShaped, get_slot-Returns, put_slot-Returns}
use mnftl.Mnftl.{
  Mnftl, lbn_of, pmd_index_of, map_slot_of, num_pmd_of, q_of, read, read_entries, read_anchor,
  read_slot, trim, trim_entries, clear_slot, issue_event, issue_noop, count_read, count_trim,
}
use mnftl.Mnftl.Fetch.{IsRead}
use mnftl.Mnftl.Forget.{IsTrim}
use mnftl.Mnftl.Live.{IsRunnable, Live}
use mnftl.Mnftl.Live.Store.{Spent, index_lt, slot_lt}

module _ (c : Config) (f : Mnftl) (w : Machine) (l : Live c f w) where
  -- A machine whose counts are the same.
  same_counts-Live : (w' : Machine) → Raised c no_rise w w' → Live c f w'
  same_counts-Live w' k =
      let same = λ (n : ℕ). k.1 (first_page c n) ∙ raise_zero _ in
      record {
        shaped = k.0;
        unwritten = λ n h b. same n ∙ l.unwritten n h (rw (← k.2) b);
        current = λ b.
            (let on = l.current b in
              record {
                number = on.number;
                below = rw k.2 on.below;
                inside = on.inside;
                address = on.address;
                count = same on.number ∙ on.count;
                offset = on.offset;
              });
        tables = l.tables;
        mapped = l.mapped;
      }

module _ (c : Config) (run : IsRunnable c) (f : Mnftl) (w : Machine) (l : Live c f w) where
  -- A read that is issued, of any address.
  issue_read-Spent :
      (e : Event)
      → IsRead e
      → rank e.replace_address.valid ≡ 0
      → (n : ℕ) (b : Bool)
      → Returns
          (Spent c run 0 f w)
          (issue_event c (set_address (at c n AddressValid.page) (record e { noop = b })) f w)
  unfolding issue_event Spent at set_linear_address Replaceable
  issue_read-Spent e h unset n b =
      let e' = set_address (at c n AddressValid.page) (record e { noop = b }) in
      Returns-bind (λ o. Raised c no_rise w o.2) (Spent c run 0 f w) (issue c e' w) _
        (issue-read-Returns c run.timed e' w h.size l.shaped
          (linear-InRange c (u32 n) AddressValid.page no_address run.sized) (omega arith)
          (inl unset) h.event_type)
        λ o k. (same_counts-Live c f w l o.2 k, rw k.2 (omega arith))

  read_slot-Spent :
      (o : Option ℕ) (e : Event)
      → IsRead e
      → rank e.replace_address.valid ≡ 0
      → Returns (Spent c run 0 f w) (read_slot c o e f w)
  unfolding read_slot issue_noop
  read_slot-Spent none e h unset = issue_read-Spent e h unset 0 true
  read_slot-Spent (some p) e h unset = issue_read-Spent e h unset p e.noop

  read_anchor-Spent :
      (lpn : ℕ) (o : Option ℕ) (e : Event) (xs : List (Option ℕ))
      → IsRead e
      → rank e.replace_address.valid ≡ 0
      → find (lbn_of c lpn) f.pmd ≡ some xs
      → Returns (Spent c run 0 f w) (read_anchor c lpn o e f w)
  unfolding read_anchor issue_noop incr_time_taken
  read_anchor-Spent lpn none e xs h unset known = issue_read-Spent e h unset 0 true
  read_anchor-Spent lpn (some a) e xs h unset known =
      elim (Option-cases (find (lbn_of c lpn) f.pmt)) [
        | inl q ↦ absurd (l.tables.both (lbn_of c lpn) xs known q)
        | inr (ts, q) ↦
            Returns-bind _ (Spent c run 0 f w)
              (get_slot (lbn_of c lpn) (pmd_index_of c lpn) (map_slot_of c lpn) f.pmt) _
              (get_slot-Returns (num_pmd_of c) (q_of c) f.pmd f.pmt l.tables (lbn_of c lpn)
                (pmd_index_of c lpn) (map_slot_of c lpn) ts q (index_lt c run lpn)
                (slot_lt c run lpn))
              λ o _.
                read_slot-Spent o (incr_time_taken c.oob_read_delay e)
                  (record { event_type = h.event_type; size = h.size; noop = h.noop }) unset
      ]

  read_entries-Spent :
      (e : Event)
      → IsRead e
      → rank e.replace_address.valid ≡ 0
      → Returns (Spent c run 0 f w) (read_entries c (find (lbn_of c e.logical_address) f.pmd) e f w)
  unfolding read_entries issue_noop
  read_entries-Spent e h unset = elim (Option-cases (find (lbn_of c e.logical_address) f.pmd)) [
    | inl q ↦ rw q (issue_read-Spent e h unset 0 true)
    | inr (xs, q) ↦
        let lt : pmd_index_of c e.logical_address < length xs =
          (let z = l.tables.anchors (lbn_of c e.logical_address) xs q in
            rw z (index_lt c run e.logical_address)) in
        let (o, there) = get_elem?_total xs (pmd_index_of c e.logical_address) lt in
        rw q (
          Returns-fetch (Spent c run 0 f w) xs (pmd_index_of c e.logical_address) _ o there
            (read_anchor-Spent e.logical_address o e xs h unset q))
  ]

  -- What the trim makes of the tables keeps requests going.
  cleared-Spent :
      (pmt : List (ℕ × List (List (Option ℕ)))) (s : Status) (e : Event)
      → IsShaped (num_pmd_of c) (q_of c) f.pmd pmt
      → ((lbn i j p : ℕ) → entry lbn i j pmt ≡ some p → p < total_pages c)
      → Spent c run 0 f w (s, e, record f { pmt = pmt }, w)
  unfolding Spent
  cleared-Spent pmt s e shaped mapped = (
    record {
      shaped = l.shaped;
      unwritten = l.unwritten;
      current = λ b.
          (let on = l.current b in
            record {
              number = on.number;
              below = on.below;
              inside = on.inside;
              address = on.address;
              count = on.count;
              offset = on.offset;
            });
      tables = shaped;
      mapped = mapped;
    },
    omega arith,
  )

  trim_entries-Spent :
      (e : Event)
      → IsTrim e
      → Returns (Spent c run 0 f w) (trim_entries c (find (lbn_of c e.logical_address) f.pmd) e f w)
  unfolding trim_entries clear_slot issue_noop issue_event
  trim_entries-Spent e h =
      let lpn = e.logical_address in
      let P = Spent c run 0 f w in
      let noop = set_address (at c 0 AddressValid.page) (set_noop true e) in
      elim (Option-cases (find (lbn_of c lpn) f.pmd)) [
        | inl q ↦ rw q (cleared-Spent f.pmt success e l.tables l.mapped)
        | inr (xs, q) ↦ elim (Option-cases (find (lbn_of c lpn) f.pmt)) [
          | inl gone ↦ absurd (l.tables.both (lbn_of c lpn) xs q gone)
          | inr (ts, known) ↦
              let lt : ltb (pmd_index_of c lpn) (length xs) ≡ true =
                (let z = l.tables.anchors (lbn_of c lpn) xs q in
                  rw z (lt→ltb _ _ (index_lt c run lpn))) in
              rw (q, lt)
                (Returns-bind _ P
                  (do
                    pmt ←
                        put_slot (lbn_of c lpn) (pmd_index_of c lpn) (map_slot_of c lpn) none f.pmt
                    ok (record f { pmt = pmt }))
                  _
                  (Returns-bind _ (λ (f' : Mnftl). Spent c run 0 f w (success, noop, f', w))
                    (put_slot (lbn_of c lpn) (pmd_index_of c lpn) (map_slot_of c lpn) none f.pmt) _
                    (Returns-Every _ _ _
                      (put_slot-Returns (num_pmd_of c) (q_of c) f.pmd f.pmt l.tables (lbn_of c lpn)
                        (pmd_index_of c lpn) (map_slot_of c lpn) none ts known (index_lt c run lpn)
                        (slot_lt c run lpn))
                      (entry-put_slot (lbn_of c lpn) (pmd_index_of c lpn) (map_slot_of c lpn) none
                        f.pmt))
                    λ pmt k. cleared-Spent pmt success noop k.0.0 λ lbn i j p r.
                      (let slot = k.1 lbn i j in let old = l.mapped lbn i j p in ground arith))
                  λ f' k. rw (issue-trim-eq c noop w h.event_type h.size) k)
        ]
      ]

module _ (c : Config) (run : IsRunnable c) (e : Event) (f : Mnftl) (w : Machine)
    (l : Live c f w) where
  restated : (w' : Machine) → w'.ssd ≡ w.ssd → w'.manager ≡ w.manager → Live c f w'
  restated w' same same' =
      same_counts-Live c f w l w'
        (rw same l.shaped, (λ a. ap (ssd_count a) same ∙ sym (raise_zero _)), same')

  -- On a device that MNFTL can run on, from a state with the conditions of `Live`: a read of one
  -- page, that is no noop and replaces nothing, returns, keeps the conditions, and as many pages are
  -- left as before.
  pub read-Spent :
      IsRead e → rank e.replace_address.valid ≡ 0 → Returns (Spent c run 0 f w) (read c e f w)
  unfolding read Spent
  read-Spent h unset =
      read_entries-Spent c run f (count_read w) (restated (count_read w) refl refl) e h unset

  -- On a device that MNFTL can run on, from a state with the conditions of `Live`: a trim of one
  -- page returns, keeps the conditions, and as many pages are left as before.
  pub trim-Spent : IsTrim e → Returns (Spent c run 0 f w) (trim c e f w)
  unfolding trim Spent
  trim-Spent h = trim_entries-Spent c run f (count_trim w) (restated (count_trim w) refl refl) e h
