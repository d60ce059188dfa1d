-- ===== src/Device/Sessions.antt =====
-- What sessions of requests keep of the state of an FTL.
use mnftl.Base.{
  ℕ, ◌*◌, ◌≤◌, ◌<◌, true, List, [], ◌∷◌, leb, if◌then◌else◌, ok, Every, Every-bind, Every-assert,
  Every-trivial, Every-map, All,
}
use mnftl.Config.{
  Config, EventType, read, write, erase, merge, trim, Status, AddressValid, total_pages,
}
use mnftl.Event.{Event, new_event, set_payload, set_address, set_noop}
use mnftl.Address.{at}
use mnftl.Flash.Page.{is_invalid}
use mnftl.Ssd.{Ssd}
use mnftl.Ssd.Queries.{controller_state}
use mnftl.Mnftl.Tables.{find}
use mnftl.BlockManager.{Machine, issue}
use mnftl.Mnftl.Requests.{Request}
use mnftl.Ftls.Bast
use mnftl.Ftls.Bast.{Bast, new_bast, block_of, read_place, memory_read, ftl_read}
use mnftl.Ftls.Bast.Inv.{IsBast, new_bast-IsBast}
use mnftl.Ftls.Bast.Kept.{write-IsBast}
use mnftl.Ftls.Bast.Forget.{trim-IsBast}
use mnftl.Ftls.PageFtl
use mnftl.Ftls.PageFtl.{PageFtl, capacity, count_read}
use mnftl.Ftls.PageFtl.Active.{write-InCapacity}
use mnftl.Device.{FtlParent, bast_parent, page_parent, arrive_as, device_arrive, device_run}

module _ {S : Type 0} (ftl : FtlParent S) (c : Config) (P : S → Type 0) (R : EventType → Type 0)
    (keeps : (t : EventType) (e : Event) (s : S) (w : Machine)
      → R t
      → P s
      → Every (λ o. P o.2) (arrive_as ftl t c e s w)) where
  run-keeps :
      (rs : List Request) (s : S) (w : Machine)
      → All (λ r. R r.event_type) rs
      → P s
      → Every (λ o. P o.1) (device_run ftl c rs s w)
  unfolding device_run device_arrive new_event
  run-keeps [] s w rights p = p
  run-keeps (r ∷ rs) s w rights p =
      let Q = λ (o : List ℕ × S × Machine). P o.1 in
      let e = set_payload r.buffer (new_event r.event_type r.logical_address r.size r.start_time) in
      Every-bind (λ (o : ℕ × S × Machine). P o.1) Q (device_arrive ftl c r s w) _
        (Every-assert (λ (o : ℕ × S × Machine). P o.1)
          (leb (r.logical_address * c.virtual_page_size) (total_pages c)) _
          (Every-bind (λ o. P o.2) (λ (o : ℕ × S × Machine). P o.1)
            (arrive_as ftl r.event_type c e s w) (λ x. ok (x.1.time_taken, x.2, x.3))
            (keeps r.event_type e s w rights.0 p) λ o k. k))
        λ o k.
          Every-bind Q Q (device_run ftl c rs o.1 o.2) _ (run-keeps rs o.1 o.2 rights.1 k)
            λ o' k'. k'

module _ (order : Ssd → List ℕ) (random : ℕ → ℕ) (c : Config) (pos : 0 < c.block_size) where
  read-IsBast :
      (e : Event) (f : Bast) (w : Machine)
      → IsBast c f
      → Every (λ o. IsBast c o.2) (Bast.read c e f w)
  unfolding Bast.read
  read-IsBast e f w h =
      let P = λ (o : Status × Event × Bast × Machine). IsBast c o.2 in
      let w1 = memory_read w in
      Every-bind _ P
        (read_place c e.logical_address f (find (block_of f e.logical_address) f.log_map)) _
        (Every-trivial _)
        λ a _. Every-bind _ P (controller_state a w1.ssd) _ (Every-trivial _) λ s _.
          Every-bind _ P
            (issue c (set_address (if is_invalid s then at c 0 AddressValid.page else a) e)
              (ftl_read w1))
            _ (Every-trivial _) λ o _. h

  -- Every request to BAST keeps what holds of it.
  bast_keeps :
      (t : EventType) (e : Event) (f : Bast) (w : Machine)
      → Unit {0}
      → IsBast c f
      → Every (λ o. IsBast c o.2) (arrive_as (bast_parent order random) t c e f w)
  unfolding arrive_as
  bast_keeps read e f w _ h = read-IsBast e f w h
  bast_keeps write e f w _ h = write-IsBast c order random e f w pos h
  bast_keeps trim e f w _ h = trim-IsBast c e f w h
  bast_keeps erase e f w _ h = h
  bast_keeps merge e f w _ h = h

  -- With a page at least in a block: after any session of requests to a new device with BAST that
  -- returns there are at most as many log blocks as allowed, each log block has an entry per page,
  -- each a place in a block, and there is a data entry per logical block.
  pub device_run-IsBast :
      (shift : ℕ) (rs : List Request) (w : Machine)
      → Every (λ o. IsBast c o.1) (device_run (bast_parent order random) c rs (new_bast c shift) w)
  device_run-IsBast shift rs w =
      run-keeps (bast_parent order random) c (IsBast c) (λ _. Unit {0}) bast_keeps rs
        (new_bast c shift) w (any rs) (new_bast-IsBast c shift)
    where
      any : (rs : List Request) → All (λ r. Unit {0}) rs
      any [] = tt
      any (r ∷ rs) = (tt, any rs)

-- Any request but a trim.
abbrev pub IsNoTrim : EventType → Type 0
IsNoTrim trim = ⊥
IsNoTrim _ = Unit

module _ (c : Config) (pos : 0 < c.block_size) (fits : c.block_size ≤ capacity c) where
  page_keeps :
      (t : EventType) (e : Event) (f : PageFtl) (w : Machine)
      → IsNoTrim t
      → f.num_pages_active ≤ capacity c
      → Every (λ o. o.2.num_pages_active ≤ capacity c) (arrive_as page_parent t c e f w)
  unfolding arrive_as PageFtl.read
  page_keeps read e f w _ h =
      Every-bind _ (λ (o : Status × Event × PageFtl × Machine). o.2.num_pages_active ≤ capacity c)
        (issue c (set_noop true (set_address (at c 0 AddressValid.page) e)) (count_read w)) _
        (Every-trivial _) λ o _. h
  page_keeps write e f w _ h =
      Every-map _ _ (PageFtl.write c e f w) (λ o k. k.1) (write-InCapacity c pos fits e f w h)
  page_keeps trim e f w never h = absurd never
  page_keeps erase e f w _ h = h
  page_keeps merge e f w _ h = h

  -- With a page at least in a block and a block at least in the capacity, which is the 32-bit
  -- product that the code computes: from at most as many pages in use as the capacity, a session of
  -- requests to the page-level FTL without a trim that returns leaves at most as many pages in use
  -- as the capacity.
  pub device_run-InCapacity :
      (rs : List Request) (f : PageFtl) (w : Machine)
      → All (λ r. IsNoTrim r.event_type) rs
      → f.num_pages_active ≤ capacity c
      → Every (λ o. o.1.num_pages_active ≤ capacity c) (device_run page_parent c rs f w)
  device_run-InCapacity rs f w no_trims h =
      run-keeps page_parent c (λ f. f.num_pages_active ≤ capacity c) IsNoTrim page_keeps rs f w
        no_trims h
