-- ===== src/Mnftl/Fetch.antt =====
-- The read of mn_ftl.cpp, as an operation on the contents of the logical pages and the buffer.
use mnftl.Base.{
  ℕ, ◌^◌, ◌<◌, ◌≡◌, refl, sym, ap, ◌∙◌, true, false, Option, none, some, List, fetch, Every,
  Every-bind,
}
use native.Mathlib.Nat.{mod-eq_of_lt}
use mnftl.Config.{Config, AddressValid, Status, EventType}
use mnftl.Address.{at, set_linear_address}
use mnftl.Event.{Event, incr_time_taken, set_address, set_noop}
use mnftl.Flash.Page.{Memory, point_to}
use mnftl.BlockManager.{Machine, issue}
use mnftl.BlockManager.Issue.{Issued, issue-read-Issued}
use mnftl.Mnftl.Tables.{find, get_slot}
use mnftl.Mnftl.Tables.Laws.{anchor, get_slot-entry, anchor_missing, fetch-anchor}
use mnftl.Mnftl.{
  Mnftl, lbn_of, pmd_index_of, map_slot_of, read, read_slot, read_anchor, read_entries, issue_noop,
  issue_event, count_read,
}
use mnftl.Mnftl.Inv.{Inv, lookup, content, data_at}
use mnftl.Mnftl.Commit.{Served}

-- A request to read one page.
pub record IsRead (e : Event) : Type 0 where
  pub event_type : e.event_type ≡ EventType.read
  pub size : e.size ≡ 1
  pub noop : e.noop ≡ false

-- The data that the global buffer points to.
abbrev pub buffered : Memory → Option ℕ
buffered m = data_at m.page_data m.global_buffer

-- What is in the buffer after a read: the data of the page, or what was there before.
abbrev pub shown : Option ℕ → Option ℕ → Option ℕ
shown none before = before
shown (some v) before = some v

incr-IsRead : (t : ℕ) (e : Event) → IsRead e → IsRead (incr_time_taken t e)
unfolding incr_time_taken
incr-IsRead t e h = record { event_type = h.event_type; size = h.size; noop = h.noop }

module _ (c : Config) (enabled : c.page_enable_data ≡ true) (f : Mnftl) (w : Machine)
    (v : Inv c f w) (lpn : ℕ) where
  Shown : Status × Event × Mnftl × Machine → Type 0
  Shown o =
      Served c (content c f w) o
      × (o.2 ≡ f)
      × (buffered o.3.memory ≡ shown (content c f w lpn) (buffered w.memory))

  -- An event that is issued with the tables as they are, and points the buffer to the page, if any.
  issue-Shown :
      (e : Event)
      → e.event_type ≡ EventType.read
      → e.size ≡ 1
      → (point_to c e w.memory).page_data ≡ w.memory.page_data
      → buffered (point_to c e w.memory) ≡ shown (content c f w lpn) (buffered w.memory)
      → Every Shown (issue_event c e f w)
  unfolding issue_event Shown
  issue-Shown e t s same b =
      Every-bind (Issued e w (point_to c e w.memory)) Shown (issue c e w) _
        (issue-read-Issued c e w t s)
        λ o k.
          let pages : o.2.memory.page_data ≡ w.memory.page_data =
            ap (λ (m : Memory). m.page_data) k.same_memory ∙ same in
          (
            record {
              done = k.done;
              inv = record {
                returns = rw k.same_manager v.returns;
                current = v.current;
                anchored = v.anchored;
                used = λ lbn i j p q. (
                  (v.used lbn i j p q).0,
                  k.kept (at c p AddressValid.page) (v.used lbn i j p q).1,
                );
              };
              contents = λ n _. rw pages refl;
            },
            refl,
            (rw k.same_memory b),
          )

  noop-Shown : (e : Event) → IsRead e → lookup c f lpn ≡ none → Every Shown (issue_noop c e f w)
  unfolding issue_noop point_to
  noop-Shown e h q =
      issue-Shown (set_address (at c 0 AddressValid.page) (set_noop true e)) h.event_type h.size
        refl (rw q refl)

  slot-Shown :
      (o : Option ℕ) (e : Event) → IsRead e → o ≡ lookup c f lpn → Every Shown (read_slot c o e f w)
  unfolding read_slot point_to at set_linear_address
  slot-Shown none e h q = noop-Shown e h (sym q)
  slot-Shown (some p) e h q =
      let small : p < 2 ^ 32 =
        (v.used (lbn_of c lpn) (pmd_index_of c lpn) (map_slot_of c lpn) p (sym q)).0 in
      issue-Shown (set_address (at c p AddressValid.page) e) h.event_type h.size
        (rw (h.noop, enabled) refl) (rw (h.noop, enabled, ← q, mod-eq_of_lt small) refl)

  anchor-Shown :
      (o : Option ℕ) (e : Event)
      → IsRead e
      → o ≡ anchor (lbn_of c lpn) (pmd_index_of c lpn) f.pmd
      → Every Shown (read_anchor c lpn o e f w)
  unfolding read_anchor
  anchor-Shown none e h q = noop-Shown e h (go (lookup c f lpn) refl)
    where
      go : (x : Option ℕ) → lookup c f lpn ≡ x → x ≡ none
      go none r = refl
      go (some p) r =
          absurd (v.anchored (lbn_of c lpn) (pmd_index_of c lpn) (map_slot_of c lpn) p r (sym q))
  anchor-Shown (some a) e h q =
      Every-bind _ Shown (get_slot (lbn_of c lpn) (pmd_index_of c lpn) (map_slot_of c lpn) f.pmt) _
        (get_slot-entry (lbn_of c lpn) (pmd_index_of c lpn) (map_slot_of c lpn) f.pmt)
        λ o r.
          slot-Shown o (incr_time_taken c.oob_read_delay e) (incr-IsRead c.oob_read_delay e h) r

module _ (c : Config) (enabled : c.page_enable_data ≡ true) (e : Event) (f : Mnftl) (w : Machine)
    (v : Inv c f w) (h : IsRead e) where
  entries-Shown :
      (o : Option (List (Option ℕ)))
      → find (lbn_of c e.logical_address) f.pmd ≡ o
      → Every (Shown c enabled f w v e.logical_address) (read_entries c o e f w)
  unfolding read_entries
  entries-Shown none q =
      anchor-Shown c enabled f w v e.logical_address none e h (
        sym
          (anchor_missing (lbn_of c e.logical_address) (pmd_index_of c e.logical_address) f.pmd q))
  entries-Shown (some anchors) q =
      Every-bind _ (Shown c enabled f w v e.logical_address)
        (fetch anchors (pmd_index_of c e.logical_address)) _
        (fetch-anchor (lbn_of c e.logical_address) (pmd_index_of c e.logical_address) f.pmd anchors
          q)
        λ o r. anchor-Shown c enabled f w v e.logical_address o e h r

-- On a device that stores data, from a state with the invariant: a read of one page that returns,
-- and is no noop, has succeeded, the buffer is at the data of the page, or as it was where the page
-- holds none, and the tables, the contents and the invariant are kept.
pub read-Served :
    (c : Config) (e : Event) (f : Mnftl) (w : Machine)
    → c.page_enable_data ≡ true
    → Inv c f w
    → IsRead e
    → Every
        (λ o.
          Served c (content c f w) o
          × (o.2 ≡ f)
          × (buffered o.3.memory ≡ shown (content c f w e.logical_address) (buffered w.memory)))
        (read c e f w)
unfolding read Shown
read-Served c e f w enabled v h =
    let counted : Inv c f (count_read w) = record {
      returns = v.returns;
      current = v.current;
      anchored = v.anchored;
      used = v.used;
    } in
    entries-Shown c enabled e f (count_read w) counted h (find (lbn_of c e.logical_address) f.pmd)
      refl
