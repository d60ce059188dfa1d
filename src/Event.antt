-- ===== src/Event.antt =====
-- ssd_event.cpp: a request, with its addresses, its payload and the time that it takes.
use mnftl.Base.{
  ℕ, ◌+◌, ◌≤◌, ◌≡◌, refl, ap, ◌∙◌, Bool, false, Option, none, arith, ltb, if◌then◌else◌,
}
use mnftl.Config.{EventType}
use mnftl.Address.{Address, no_address}

-- `class Event` of ssd.h. The payload is the page of data that the pointer leads to. The list that
-- `next` makes is a list of events in `Controller.issue`.
pub record Event : Type 0 where
  pub start_time : ℕ
  pub time_taken : ℕ
  pub bus_wait_time : ℕ
  pub event_type : EventType
  pub logical_address : ℕ
  pub address : Address
  pub merge_address : Address
  pub replace_address : Address
  pub size : ℕ
  pub payload : Option ℕ
  pub noop : Bool

-- `Event::Event`
unfoldable pub new_event : EventType → ℕ → ℕ → ℕ → Event
new_event t logical_address size start_time = record {
  start_time = start_time;
  time_taken = 0;
  bus_wait_time = 0;
  event_type = t;
  logical_address = logical_address;
  address = no_address;
  merge_address = no_address;
  replace_address = no_address;
  size = size;
  payload = none;
  noop = false;
}

-- `Event::incr_time_taken`. A time is never negative here, and adding 0 changes nothing.
unfoldable pub incr_time_taken : ℕ → Event → Event
incr_time_taken t e = record e { time_taken = if ltb 0 t then e.time_taken + t else e.time_taken }

-- `Event::incr_bus_wait_time`
unfoldable pub incr_bus_wait_time : ℕ → Event → Event
incr_bus_wait_time t e = record e {
  bus_wait_time = if ltb 0 t then e.bus_wait_time + t else e.bus_wait_time;
}

-- `Event::set_address`, `set_replace_address`, `set_noop` and `set_payload`.
abbrev pub set_address : Address → Event → Event
set_address a e = record e { address = a }

abbrev pub set_replace_address : Address → Event → Event
set_replace_address a e = record e { replace_address = a }

abbrev pub set_noop : Bool → Event → Event
set_noop b e = record e { noop = b }

abbrev pub set_payload : Option ℕ → Event → Event
set_payload p e = record e { payload = p }

-- Two events differ in their times at most, and the second has taken as long or longer.
pub record Later (e f : Event) : Type 0 where
  pub elapsed : e.time_taken ≤ f.time_taken
  pub same : f ≡ record e { time_taken = f.time_taken; bus_wait_time = f.bus_wait_time }

pub Later-refl : (e : Event) → Later e e
Later-refl e = record { elapsed = omega arith; same = refl }

pub Later-trans : (e f g : Event) → Later e f → Later f g → Later e g
Later-trans e f g p q = record {
  elapsed = omega arith;
  same =
      q.same
      ∙ ap (λ (x : Event). record x { time_taken = g.time_taken; bus_wait_time = g.bus_wait_time })
          p.same;
}

pub incr_time_taken-eq :
    (t : ℕ) (e : Event) → incr_time_taken t e ≡ record e { time_taken = e.time_taken + t }
unfolding incr_time_taken
incr_time_taken-eq t e = ground arith

pub incr_bus_wait_time-eq :
    (t : ℕ) (e : Event) → incr_bus_wait_time t e ≡ record e { bus_wait_time = e.bus_wait_time + t }
unfolding incr_bus_wait_time
incr_bus_wait_time-eq t e = ground arith

pub incr_time_taken-Later : (t : ℕ) (e : Event) → Later e (incr_time_taken t e)
incr_time_taken-Later t e = rw incr_time_taken-eq (record { elapsed = omega arith; same = refl })

pub incr_bus_wait_time-Later : (t : ℕ) (e : Event) → Later e (incr_bus_wait_time t e)
incr_bus_wait_time-Later t e =
    rw incr_bus_wait_time-eq (record { elapsed = omega arith; same = refl })
