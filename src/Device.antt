-- ===== src/Device.antt =====
-- The interface between the controller and its FTL: `class FtlParent` of ssd.h, the choice of an FTL
-- in ssd_controller.cpp, and requests to a device with any FTL.
pub mod Sessions
use mnftl.Base.{
  ℕ, zero, suc, ◌+◌, ◌-◌, ◌*◌, ◌/◌, ◌%◌, ◌^◌, ◌≤◌, ◌<◌, max, ◌≡◌, refl, sym, ap, ◌∙◌, subst, ◌≢◌,
  ◌↔◌, ◌⊎◌, inl, inr, Bool, true, false, not, ◌&&◌, ◌||◌, Option, none, some, List, [], ◌∷◌, ◌++◌,
  map, arith, ltb, leb, ◌==◌, if◌then◌else◌, ltb→lt, lt→ltb, leb→le, le→leb, ==_iff, if_cases,
  Bool-cases, Option-cases, u32, u64, Run, ok, abort, ◌>>=◌, ◌>>◌, assert, or_abort, fetch, Every,
  Every-bind, Every-assert, Every_ok, Every-trivial, Every-fetch, Every-both, Every-map, Returns,
  Returns-bind, Returns-assert, Returns-fetch, Returns-Every, Returns-map, Returns-eq, length,
  get_elem?, set, replicate, count_if, keep_if, All, length-append, length-set, length-replicate,
  get_elem?-lt, get_elem?_total, get_elem?-set_self, get_elem?-set_ne, get_elem?-set,
  get_elem?-replicate, count_if-set, count_if-replicate, All_get, All-set,
}
use mnftl.Config.{Config, EventType, read, write, erase, merge, trim, Status, failure, total_pages}
use mnftl.Event.{Event, new_event, set_payload}
use mnftl.Ssd.{Ssd}
use mnftl.BlockManager.{Machine}
use mnftl.Mnftl
use mnftl.Mnftl.{Mnftl, Cleanup}
use mnftl.Mnftl.Requests.{Request}
use mnftl.Ftls.Bast
use mnftl.Ftls.Bast.{Bast}
use mnftl.Ftls.Bast.Requests
use mnftl.Ftls.PageFtl
use mnftl.Ftls.PageFtl.{PageFtl}

-- The virtual functions of `class FtlParent` by which requests reach an FTL, with its state.
pub record FtlParent (S : Type 0) : Type 0 where
  pub ftl_read : Config → Event → S → Machine → Run (Status × Event × S × Machine)
  pub ftl_write : Config → Event → S → Machine → Run (Status × Event × S × Machine)
  pub ftl_trim : Config → Event → S → Machine → Run (Status × Event × S × Machine)

-- `FtlImpl_MNftl`, `FtlImpl_Bast` and `FtlImpl_Page`
abbrev pub mnftl_parent : Cleanup → (Ssd → List ℕ) → FtlParent Mnftl
mnftl_parent cleanup order = record {
  ftl_read = Mnftl.read;
  ftl_write = Mnftl.write cleanup order;
  ftl_trim = Mnftl.trim;
}

abbrev pub bast_parent : (Ssd → List ℕ) → (ℕ → ℕ) → FtlParent Bast
bast_parent order random = record {
  ftl_read = Bast.read;
  ftl_write = Requests.write order random;
  ftl_trim = Requests.trim;
}

abbrev pub page_parent : FtlParent PageFtl
page_parent = record { ftl_read = PageFtl.read; ftl_write = PageFtl.write; ftl_trim = PageFtl.trim }

-- The switch of `Controller::Controller`; without a case the pointer to the FTL is left unset.
pub data FtlKind : Type 0 where
  page_ftl bast_ftl fast_ftl dftl_ftl bdftl_ftl mnftl_ftl : FtlKind

pub chosen : Config → Option FtlKind
chosen c =
    let n = c.ftl_implementation in
    if n == 0
    then some FtlKind.page_ftl
    else if n == 1
    then some FtlKind.bast_ftl
    else if n == 2
    then some FtlKind.fast_ftl
    else if n == 3
    then some FtlKind.dftl_ftl
    else if n == 4
    then some FtlKind.bdftl_ftl
    else if n == 5
    then some FtlKind.mnftl_ftl
    else none

module _ {S : Type 0} (ftl : FtlParent S) where
  -- `Controller::event_arrive`, by the type of the event.
  unfoldable pub arrive_as :
      EventType → Config → Event → S → Machine → Run (Status × Event × S × Machine)
  arrive_as read c e s w = ftl.ftl_read c e s w
  arrive_as write c e s w = ftl.ftl_write c e s w
  arrive_as trim c e s w = ftl.ftl_trim c e s w
  arrive_as erase c e s w = ok (failure, e, s, w)
  arrive_as merge c e s w = ok (failure, e, s, w)

  -- `Ssd::event_arrive`; the message about a request that failed is I/O.
  unfoldable pub device_arrive : Config → Request → S → Machine → Run (ℕ × S × Machine)
  unfolding arrive_as
  device_arrive c r s w = do
    assert (leb (r.logical_address * c.virtual_page_size) (total_pages c))
    let e = set_payload r.buffer (new_event r.event_type r.logical_address r.size r.start_time)
    (_, e', s', w') ← arrive_as e.event_type c e s w
    ok (e'.time_taken, s', w')

  -- Requests in order, with the time that each takes.
  unfoldable pub device_run : Config → List Request → S → Machine → Run (List ℕ × S × Machine)
  unfolding device_arrive
  device_run c [] s w = ok ([], s, w)
  device_run c (r ∷ rs) s w = do
    (time, s1, w1) ← device_arrive c r s w
    (times, s2, w2) ← device_run c rs s1 w1
    ok (time ∷ times, s2, w2)
