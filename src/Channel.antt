-- ===== src/Channel.antt =====
-- ssd_channel.cpp: one channel of the bus, with its table of the times for which it is taken.
pub mod Order
pub mod Schedule
use mnftl.Base.{
  ℕ, zero, suc, ◌+◌, ◌-◌, ◌*◌, ◌/◌, ◌%◌, ◌^◌, ◌≤◌, ◌<◌, max, ◌≡◌, refl, sym, ap, ◌∙◌, subst, ◌≢◌,
  ◌↔◌, ◌⊎◌, inl, inr, Bool, true, false, not, ◌&&◌, ◌||◌, Option, none, some, List, [], ◌∷◌, ◌++◌,
  map, arith, ltb, leb, ◌==◌, if◌then◌else◌, ltb→lt, lt→ltb, leb→le, le→leb, ==_iff, Bool-cases,
  Option-cases, u32, u64, Run, ok, abort, ◌>>=◌, ◌>>◌, assert, or_abort, fetch, length, get_elem?,
  set, replicate, count_if, keep_if, All, length-append, length-set, length-replicate, get_elem?-lt,
  get_elem?_total, get_elem?-set_self, get_elem?-set_ne, get_elem?-replicate, count_if-set,
  count_if-replicate, All_get, All-set,
}
use mnftl.Config.{Config, Status, success, failure}
use mnftl.Event.{Event, incr_time_taken, incr_bus_wait_time}

pub record LockTimes : Type 0 where
  pub lock_time : ℕ
  pub unlock_time : ℕ

-- `class Channel` of ssd.h. `ready_at` is `none` for the -1 of a channel not yet used.
pub record Channel : Type 0 where
  pub timings : List LockTimes
  pub num_connected : ℕ
  pub max_connections : ℕ
  pub ready_at : Option ℕ

-- `Channel::Channel`
unfoldable pub new_channel : Config → Channel
new_channel c = record {
  timings = [];
  num_connected = 0;
  max_connections = c.bus_max_connect;
  ready_at = none;
}

-- `Channel::connect` and `Channel::disconnect`
unfoldable pub connect : Channel → Status × Channel
connect ch =
    if ltb ch.num_connected ch.max_connections
    then (success, record ch { num_connected = ch.num_connected + 1 })
    else (failure, ch)

pub disconnect : Channel → Status × Channel
disconnect ch =
    if ltb 0 ch.num_connected
    then (success, record ch { num_connected = ch.num_connected - 1 })
    else (failure, ch)

-- The sort of `Channel::unlock`, by `timings_sorter`.
pub insert_by_lock : LockTimes → List LockTimes → List LockTimes
insert_by_lock t [] = t ∷ []
insert_by_lock t (u ∷ us) =
    let rest = insert_by_lock t us in if ltb u.lock_time t.lock_time then u ∷ rest else t ∷ u ∷ us

pub sort_by_lock : List LockTimes → List LockTimes
unfolding insert_by_lock
sort_by_lock [] = []
sort_by_lock (t ∷ ts) = insert_by_lock t (sort_by_lock ts)

-- `Channel::unlock`: drop the entries that are over, and sort the others.
pub unlock : ℕ → List LockTimes → List LockTimes
unfolding sort_by_lock
unlock start ts = sort_by_lock (keep_if (λ t. ltb start t.unlock_time) ts)

-- The loop of `Channel::lock` over neighbouring entries, up to its `break`.
pub find_gap : ℕ → ℕ → List LockTimes → Option ℕ
find_gap start duration [] = none
find_gap start duration (t ∷ []) = none
find_gap start duration (t ∷ u ∷ us) =
    let rest = find_gap start duration (u ∷ us) in
    if leb start t.unlock_time && leb (t.unlock_time + duration) u.lock_time
    then some t.unlock_time
    else rest

-- `timings.back().unlock_time`
pub back_unlock : LockTimes → List LockTimes → ℕ
back_unlock t [] = t.unlock_time
back_unlock t (u ∷ us) = back_unlock u us

after_gap : Option ℕ → LockTimes → List LockTimes → ℕ
after_gap (some s) t ts = s
after_gap none t ts = back_unlock t ts

-- The time at which `Channel::lock` schedules: `start` on an empty table or before its first entry,
-- else the first gap that is long enough, else after the last entry.
pub schedule : ℕ → ℕ → List LockTimes → ℕ
unfolding find_gap back_unlock after_gap
schedule start duration [] = start
schedule start duration (t ∷ ts) =
    if ltb start t.lock_time && leb (start + duration) t.lock_time
    then start
    else after_gap (find_gap start duration (t ∷ ts)) t ts

-- `if (lt.unlock_time > ready_at) ready_at = lt.unlock_time`
abbrev pub later_of : Option ℕ → ℕ → Option ℕ
later_of none t = some t
later_of (some r) t = some (if ltb r t then t else r)

-- `Channel::lock`
unfoldable pub lock : ℕ → ℕ → Event → Channel → Run (Status × Event × Channel)
unfolding unlock schedule
lock start duration e ch = do
  assert (leb ch.num_connected ch.max_connections)
  let table = unlock start ch.timings
  let sched = schedule start duration table
  let e' = incr_time_taken (sched + duration - start) (incr_bus_wait_time (sched - start) e)
  ok (
    success,
    e',
    record ch {
      timings = table ++ record { lock_time = sched; unlock_time = sched + duration } ∷ [];
      ready_at = later_of ch.ready_at (sched + duration);
    },
  )
