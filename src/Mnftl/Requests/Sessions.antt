-- ===== src/Mnftl/Requests/Sessions.antt =====
-- When sessions of requests against MNFTL return.
use mnftl.Base.{
  ℕ, ◌+◌, ◌*◌, ◌≤◌, ◌<◌, ◌≡◌, refl, sym, ap, ◌∙◌, true, Option, none, some, List, [], ◌∷◌, arith,
  leb, le→leb, ok, Returns, Returns-bind, Returns-assert, Returns-Every, Returns-map, All,
}
use mathlib.Core.Bool.{false≢true}
use mnftl.Config.{Config, EventType, read, write, erase, merge, trim, total_pages, AddressValid}
use mnftl.Event.{new_event}
use mnftl.Address.{no_address, at}
use mnftl.Flash.Effect.{IsUsed}
use mnftl.Ssd.Effects.{ssd_view}
use mnftl.Ssd.{Ssd, new_ssd}
use mnftl.BlockManager.{Machine, new_block_manager}
use mnftl.Mnftl
use mnftl.Mnftl.{Mnftl, Cleanup, new_mnftl, lbn_of, pmd_index_of, map_slot_of}
use mnftl.Mnftl.Inv.{Inv, lookup}
use mnftl.Mnftl.Initial.{new_mnftl-Inv}
use mnftl.Mnftl.Requests.{
  Request, IsPage, serve, run, dispatch, event_arrive, event_of, apply, Answers, run_contents,
  Holds, has_data, serve-Stepped, run-Answers,
}
use mnftl.Mnftl.Fetch.{buffered}
use mnftl.Mnftl.Live.{IsRunnable, Live, pages_left}
use mnftl.Mnftl.Live.Store.{Spent, write-Spent}
use mnftl.Mnftl.Live.Others.{read-Spent, trim-Spent}
use mnftl.Mnftl.Live.Initial.{new_mnftl-Live}

-- How many pages a request takes, and a session.
abbrev pub cost : EventType → ℕ
cost write = 1
cost _ = 0

abbrev pub writes : List Request → ℕ
writes [] = 0
writes (r ∷ rs) = cost r.event_type + writes rs

-- A request that passes the check of the addresses, of one page.
pub record IsAllowed (c : Config) (r : Request) : Type 0 where
  pub page : IsPage c r
  pub inside : r.logical_address * c.virtual_page_size ≤ total_pages c

pages_of : (c : Config) (rs : List Request) → All (IsAllowed c) rs → All (IsPage c) rs
pages_of c [] h = tt
pages_of c (r ∷ rs) h = (h.0.page, pages_of c rs h.1)

module _ (cleanup : Cleanup) (order : Ssd → List ℕ) (c : Config) (runs : IsRunnable c) where
  module _ (r : Request) (page : IsPage c r) (f : Mnftl) (w : Machine) (v : Inv c f w)
      (l : Live c f w) where
    write_data-Spent :
        (o : Option ℕ)
        → r.event_type ≡ write
        → r.buffer ≡ o
        → 1 ≤ pages_left c f w
        → Returns (Spent c runs 1 f w) (Mnftl.write cleanup order c (event_of r) f w)
    unfolding event_of new_event no_address
    write_data-Spent none t b left = absurd (false≢true (ap has_data (sym b) ∙ page.payload))
    write_data-Spent (some x) t b left =
        write-Spent c runs cleanup order (event_of r) f w x v l left
          (record { event_type = t; size = page.size; noop = refl; payload = b }) refl

    dispatch-Spent :
        (t : EventType)
        → r.event_type ≡ t
        → cost t ≤ pages_left c f w
        → Returns (Spent c runs (cost t) f w) (dispatch cleanup order t c (event_of r) f w)
    unfolding dispatch event_of new_event Spent no_address
    dispatch-Spent read t left =
        read-Spent c runs (event_of r) f w l
          (record { event_type = t; size = page.size; noop = refl }) refl
    dispatch-Spent write t left = write_data-Spent r.buffer t refl left
    dispatch-Spent trim t left =
        trim-Spent c runs (event_of r) f w l (record { event_type = t; size = page.size })
    dispatch-Spent erase t left = (l, omega arith)
    dispatch-Spent merge t left = (l, omega arith)

    -- The request is served, at its cost.
    Paid : (ℕ × Option ℕ) × Mnftl × Machine → Type 0
    Paid o = Live c o.1 o.2 × (pages_left c o.1 o.2 + cost r.event_type ≡ pages_left c f w)

    serve-Paid :
        cost r.event_type ≤ pages_left c f w
        → r.logical_address * c.virtual_page_size ≤ total_pages c
        → Returns Paid (serve cleanup order c r f w)
    unfolding serve event_arrive event_of new_event Spent Paid
    serve-Paid left inside =
        Returns-assert Paid (leb (r.logical_address * c.virtual_page_size) (total_pages c)) _
          (le→leb _ _ inside)
          (Returns-bind (Spent c runs (cost r.event_type) f w) Paid
            (dispatch cleanup order r.event_type c (event_of r) f w)
            (λ x. ok ((x.1.time_taken, buffered x.3.memory), x.2, x.3))
            (dispatch-Spent r.event_type refl left) λ o k. k)

  module _ (enabled : c.page_enable_data ≡ true) where
    run-Live :
        (rs : List Request) (f : Mnftl) (w : Machine) (g : ℕ → Option ℕ)
        → All (IsAllowed c) rs
        → Inv c f w
        → Live c f w
        → Holds c f w g
        → writes rs ≤ pages_left c f w
        → Returns
            (λ o. Live c o.1 o.2 × (pages_left c o.1 o.2 + writes rs ≡ pages_left c f w))
            (run cleanup order c rs f w)
    unfolding run Paid
    run-Live [] f w g pages v l h left = (l, omega arith)
    run-Live (r ∷ rs) f w g pages v l h left =
        let P = λ (o : List (Option ℕ) × Mnftl × Machine).
          Live c o.1 o.2 × (pages_left c o.1 o.2 + writes (r ∷ rs) ≡ pages_left c f w) in
        Returns-bind _ P (serve cleanup order c r f w) _
          (Returns-Every _ _ _ (serve-Paid r pages.0.page f w v l (omega arith) pages.0.inside)
            (serve-Stepped cleanup order c runs.set_up enabled r pages.0.page f w v g h))
          λ o k.
            Returns-bind _ P (run cleanup order c rs o.1 o.2) _
              (run-Live rs o.1 o.2 (apply r g) pages.1 k.1.0 k.0.0 k.1.1
                (let z = k.0.1 in omega arith))
              λ o' k'. (k'.0, (let y = k'.1 in let z = k.0.1 in omega arith))

    -- On a device that MNFTL can run on and that stores data, from a state with the invariant and
    -- the conditions of `Live` whose logical pages hold `g`: a session of requests, each of one
    -- addressable page that passes the check of the addresses and with a buffer, and with no more
    -- writes than pages are left, returns; it has answered each read of a page that holds data with
    -- the data last written to it, leaves the pages as the writes and trims make them of `g`, keeps
    -- the invariant and the conditions, and each write has taken one page.
    pub run-Session :
        (rs : List Request) (f : Mnftl) (w : Machine) (g : ℕ → Option ℕ)
        → All (IsAllowed c) rs
        → Inv c f w
        → Live c f w
        → Holds c f w g
        → writes rs ≤ pages_left c f w
        → Returns
            (λ o.
              (Answers rs g o.0 × Inv c o.1 o.2 × Holds c o.1 o.2 (run_contents rs g))
              × (Live c o.1 o.2 × (pages_left c o.1 o.2 + writes rs ≡ pages_left c f w)))
            (run cleanup order c rs f w)
    run-Session rs f w g allowed v l h left =
        Returns-map _ _ (run cleanup order c rs f w)
          (Returns-Every _ _ _ (run-Live rs f w g allowed v l h left)
            (run-Answers cleanup order c runs.set_up enabled rs f w g (pages_of c rs allowed) v h))
          λ o k. (k.1, k.0)

    -- On a device that MNFTL can run on and that stores data, with the device, MNFTL and the block
    -- manager as their constructors leave them: a session of requests, each of one addressable page
    -- that passes the check of the addresses and with a buffer, and with no more writes than the
    -- device has pages, returns, has answered each read of a page that holds data with the data last
    -- written to it, and leaves the pages as its writes and trims make them.
    pub run-new_device :
        (rs : List Request) (w : Machine)
        → All (IsAllowed c) rs
        → w.ssd ≡ new_ssd c
        → w.manager ≡ new_block_manager c
        → writes rs ≤ total_pages c
        → Returns
            (λ o. Answers rs (λ _. none) o.0 × Holds c o.1 o.2 (run_contents rs (λ _. none)))
            (run cleanup order c rs (new_mnftl c) w)
    run-new_device rs w allowed device manager left =
        let v = new_mnftl-Inv c w runs.set_up manager in
        let l = new_mnftl-Live c w runs device manager in
        Returns-map _ _ (run cleanup order c rs (new_mnftl c) w)
          (run-Session rs (new_mnftl c) w (λ _. none) allowed v.0 l.0 (λ lpn _. v.1 lpn)
            (rw l.1 left))
          λ o k. (k.0.0, k.0.2)

    -- On a device that MNFTL can run on and that stores data, with the device, MNFTL and the block
    -- manager as their constructors leave them: a session of requests, each of one addressable page
    -- that passes the check of the addresses and with a buffer, and with no more writes than the
    -- device has pages, returns, and each physical page that a logical page is mapped to then is a
    -- page of the device, and one in use.
    pub run-InDevice :
        (rs : List Request) (w : Machine)
        → All (IsAllowed c) rs
        → w.ssd ≡ new_ssd c
        → w.manager ≡ new_block_manager c
        → writes rs ≤ total_pages c
        → Returns
            (λ o.
              (lpn ppn : ℕ)
              → lookup c o.1 lpn ≡ some ppn
              → (ppn < total_pages c) × IsUsed (ssd_view (at c ppn AddressValid.page) o.2.ssd))
            (run cleanup order c rs (new_mnftl c) w)
    run-InDevice rs w allowed device manager left =
        let v = new_mnftl-Inv c w runs.set_up manager in
        let l = new_mnftl-Live c w runs device manager in
        Returns-map _ _ (run cleanup order c rs (new_mnftl c) w)
          (run-Session rs (new_mnftl c) w (λ _. none) allowed v.0 l.0 (λ lpn _. v.1 lpn)
            (rw l.1 left))
          λ o k lpn ppn e. (
            k.1.0.mapped (lbn_of c lpn) (pmd_index_of c lpn) (map_slot_of c lpn) ppn e,
            (k.0.1.used (lbn_of c lpn) (pmd_index_of c lpn) (map_slot_of c lpn) ppn e).1,
          )
