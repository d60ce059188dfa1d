-- ===== src/Flash/Page.antt =====
-- ssd_page.cpp: a page, and the memory that holds the data of all pages.
use mnftl.Base.{
  ℕ, Bool, true, false, not, ◌&&◌, ◌||◌, Option, none, some, ◌==◌, if◌then◌else◌, Run, ok, ◌>>◌,
  assert,
}
use mnftl.Config.{Config, PageState, empty, valid, invalid, Status, success}
use mnftl.Event.{Event, incr_time_taken}
use mnftl.Address.{get_linear_address}

-- `class Page` of ssd.h; the delays are those of the configuration.
pub record Page : Type 0 where
  pub state : PageState

-- `page_data`, a page of data for each linear address, and `global_buffer`, which points into it.
pub record Memory : Type 0 where
  pub page_data : ℕ → ℕ
  pub global_buffer : Option ℕ

-- `Page::Page`
abbrev pub new_page : Page
new_page = record { state = empty }

-- What an operation of the hardware returns: its status, with the event, the memory and the part of
-- the hardware as it leaves them.
abbrev pub Outcome {ℓ} : Type ℓ → Type ℓ
Outcome A = Run (Status × Event × Memory × A)

-- `memcpy` to the page of a linear address.
unfoldable pub store : ℕ → ℕ → Memory → Memory
store n v m = record m { page_data = λ i. if i == n then v else m.page_data i }

-- What a read makes of the memory.
unfoldable pub point_to : Config → Event → Memory → Memory
point_to c e m =
    if not e.noop && c.page_enable_data
    then record m { global_buffer = some (get_linear_address e.address) }
    else m

-- `Page::_read`
unfoldable pub read : Config → Event → Memory → Page → Outcome Page
unfolding point_to
read c e m p = do let e' = incr_time_taken c.page_read_delay e; ok (success, e', point_to c e' m, p)

-- `PAGE_ENABLE_DATA && event.get_payload() != NULL && event.get_noop() == false`
unfoldable pub store_payload : Config → Event → Memory → Memory
unfolding store
store_payload c e m =
    if c.page_enable_data && not e.noop
    then elim e.payload [ none ↦ m | some v ↦ store (get_linear_address e.address) v m ]
    else m

abbrev pub is_empty : PageState → Bool
is_empty empty = true
is_empty _ = false

abbrev pub is_valid : PageState → Bool
is_valid valid = true
is_valid _ = false

abbrev pub is_invalid : PageState → Bool
is_invalid invalid = true
is_invalid _ = false

-- `Page::_write`
unfoldable pub write : Config → Event → Memory → Page → Outcome Page
unfolding store_payload
write c e m p = do
  let e' = incr_time_taken c.page_write_delay e
  let m' = store_payload c e' m
  assert (e.noop || is_empty p.state)
  ok (success, e', m', if e.noop then p else record p { state = valid })
