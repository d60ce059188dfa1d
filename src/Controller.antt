-- ===== src/Controller.antt =====
-- ssd_controller.cpp: the controller passes the events of the FTL on to the hardware, and keeps the
-- statistics of ssd_stats.cpp.
pub mod Effects
pub mod Returns
use mnftl.Base.{
  ℕ, zero, suc, ◌+◌, ◌-◌, ◌*◌, ◌/◌, ◌%◌, ◌^◌, ◌≤◌, ◌<◌, max, ◌≡◌, refl, sym, ap, ◌∙◌, subst, ◌≢◌,
  ◌↔◌, ◌⊎◌, inl, inr, Bool, true, false, not, ◌&&◌, ◌||◌, Option, none, some, List, [], ◌∷◌, ◌++◌,
  map, arith, ltb, leb, ◌==◌, if◌then◌else◌, ltb→lt, lt→ltb, leb→le, le→leb, ==_iff, if_cases,
  Bool-cases, Option-cases, u32, u64, Run, ok, abort, ◌>>=◌, ◌>>◌, assert, or_abort, fetch, length,
  get_elem?, set, replicate, count_if, keep_if, All, length-append, length-set, length-replicate,
  get_elem?-lt, get_elem?_total, get_elem?-set_self, get_elem?-set_ne, get_elem?-replicate,
  count_if-set, count_if-replicate, All_get, All-set,
}
use mnftl.Config.{
  Config, EventType, read, write, erase, merge, trim, Status, failure, success, rank,
}
use mnftl.Event.{Event}
use mnftl.Bus.{Bus, ram_read, ram_write}
use mnftl.Bus
use mnftl.Flash.Page.{Memory, Outcome}
use mnftl.Ssd
use mnftl.Ssd.{Ssd}

-- One call of a chain `a == FAILURE || b == FAILURE || …`: the next is made after a success only.
infixl 5 ◌▷◌
abbrev pub ◌▷◌ : Outcome Ssd → (Event → Memory → Ssd → Outcome Ssd) → Outcome Ssd
r ▷ next = do (s, e, m, d) ← r; elim s [ failure ↦ ok (failure, e, m, d) | success ↦ next e m d ]

-- `ssd.bus.lock(cur->get_address().package, start, duration, *cur)`
pub lock_bus : (start duration : ℕ) → Event → Memory → Ssd → Outcome Ssd
lock_bus start duration e m d = do
  (s, e', bus) ← Bus.lock e.address.pkg start duration e d.bus
  ok (s, e', m, record d { bus = bus })

-- `ssd.ram.write(*cur)`, then `ssd.ram.read(*cur)`
pub buffer : Config → Event → Memory → Ssd → Outcome Ssd
buffer c e m d =
    let (s, e') = ram_write c e in
    elim s [
      | failure ↦ ok (failure, e', m, d)
      | success ↦ (let (t, e'') = ram_read c e' in ok (t, e'', m, d))
    ]

-- The branches of `Controller::issue`, by the type of the event.
pub issue_read : Config → Event → Memory → Ssd → Outcome Ssd
unfolding lock_bus buffer
issue_read c e m d =
    lock_bus e.start_time c.bus_ctrl_delay e m d
    ▷ Ssd.read c
    ▷ (λ e' m' d'.
        lock_bus (e'.start_time + e'.time_taken) (c.bus_ctrl_delay + c.bus_data_delay) e' m' d')
    ▷ buffer c
    ▷ Ssd.replace

pub issue_write : Config → Event → Memory → Ssd → Outcome Ssd
unfolding lock_bus buffer
issue_write c e m d =
    lock_bus e.start_time (c.bus_ctrl_delay + c.bus_data_delay) e m d
    ▷ buffer c
    ▷ Ssd.write c
    ▷ Ssd.replace

pub issue_erase : Config → Event → Memory → Ssd → Outcome Ssd
unfolding lock_bus
issue_erase c e m d = lock_bus e.start_time c.bus_ctrl_delay e m d ▷ Ssd.erase c

pub issue_merge : Config → Event → Memory → Ssd → Outcome Ssd
unfolding lock_bus
issue_merge c e m d = do
  assert (ltb 0 (rank e.merge_address.valid))
  lock_bus e.start_time c.bus_ctrl_delay e m d ▷ Ssd.merge c

-- `Controller::issue`, of the one event that its callers pass: none of them calls `set_next`.
unfoldable pub issue : Config → Event → Memory → Ssd → Outcome Ssd
unfolding issue_read issue_write issue_erase issue_merge
issue c e m d =
    if e.size == 1
    then elim e.event_type [
      | read ↦ assert (ltb 0 (rank e.address.valid)) >> issue_read c e m d
      | write ↦ assert (ltb 0 (rank e.address.valid)) >> issue_write c e m d
      | erase ↦ assert (ltb 0 (rank e.address.valid)) >> issue_erase c e m d
      | merge ↦ assert (ltb 0 (rank e.address.valid)) >> issue_merge c e m d
      | trim ↦ ok (success, e, m, d)
    ]
    else ok (failure, e, m, d)

-- `class Stats` of ssd.h: the counters that the modelled code counts.
pub record Stats : Type 0 where
  pub num_ftl_read : ℕ
  pub num_ftl_write : ℕ
  pub num_ftl_erase : ℕ
  pub num_ftl_trim : ℕ
  pub num_gc_write : ℕ
  pub valid_page_copies : ℕ
  pub num_wl_read : ℕ
  pub num_wl_write : ℕ
  pub num_log_merge_switch : ℕ
  pub num_log_merge_partial : ℕ
  pub num_log_merge_full : ℕ
  pub num_page_block_to_page_conversion : ℕ
  pub num_cache_hits : ℕ
  pub num_cache_faults : ℕ
  pub num_memory_read : ℕ
  pub num_memory_write : ℕ

-- `Stats::reset`. It does not reset `valid_page_copies`, which is kept here.
pub reset : Stats → Stats
reset s = record {
  num_ftl_read = 0;
  num_ftl_write = 0;
  num_ftl_erase = 0;
  num_ftl_trim = 0;
  num_gc_write = 0;
  valid_page_copies = s.valid_page_copies;
  num_wl_read = 0;
  num_wl_write = 0;
  num_log_merge_switch = 0;
  num_log_merge_partial = 0;
  num_log_merge_full = 0;
  num_page_block_to_page_conversion = 0;
  num_cache_hits = 0;
  num_cache_faults = 0;
  num_memory_read = 0;
  num_memory_write = 0;
}
