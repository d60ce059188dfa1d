-- ===== src/Controller/Returns/Issue.antt =====
-- When the branches of `Controller::issue` for a write and for a read return.
use mnftl.Base.{
  ◌+◌, ◌^◌, ◌≤◌, ◌<◌, ◌≡◌, refl, sym, ap, ◌∙◌, subst, false, arith, ltb, if◌then◌else◌, lt→ltb, ok,
  Returns, Returns-assert,
}
use mnftl.Config.{Config, EventType, rank}
use mnftl.Address.{Address}
use mnftl.Address.Linear.{InRange}
use mnftl.Event.{Event}
use mnftl.Flash.Page.{Memory, point_to, store_payload}
use mnftl.Flash.Kept.{raise, raise_zero}
use mnftl.Ssd
use mnftl.Ssd.{Ssd}
use mnftl.Ssd.Effects
use mnftl.Ssd.Effects.{ssd_view}
use mnftl.Ssd.Returns
use mnftl.Ssd.Returns.{IsDevice, ssd_count, in_ssd}
use mnftl.Controller.Effects.{of_type}
use mnftl.Controller.{◌▷◌, lock_bus, buffer, issue_read, issue_write, issue}
use mnftl.Controller.Returns.{
  Runs, no_rise, rise_in, Replaceable, ▷-Runs, Runs-eq, lock_bus-Runs, buffer-Runs, device-Runs,
  replace-Runs, moved,
}

module _ (c : Config) where
  -- A write of one page at the end of a block with room returns.
  pub issue_write-Runs :
      (e : Event) (m : Memory) (d : Ssd)
      → 0 < c.bus_ctrl_delay
      → c.block_size < 2 ^ 32
      → IsDevice c d
      → e.noop ≡ false
      → InRange c e.address
      → 4 ≤ rank e.address.valid
      → ssd_count e.address d ≡ ok e.address.page
      → Replaceable c e d
      → Returns (Runs c (rise_in e.address) e d) (issue_write c e m d)
  unfolding issue_write
  issue_write-Runs e m d pos small s n lt full at_end rep =
      let lock = lock_bus e.start_time (c.bus_ctrl_delay + c.bus_data_delay) e m d in
      let up = rise_in e.address in
      Runs-eq c (λ a. 0 + 0 + up a + 0) up e d (issue_write c e m d) (λ a. omega arith)
        (▷-Runs c (λ a. 0 + 0 + up a) no_rise e d (lock ▷ buffer c ▷ Ssd.write c) Ssd.replace
          (▷-Runs c (λ a. 0 + 0) up e d (lock ▷ buffer c) (Ssd.write c)
            (▷-Runs c no_rise no_rise e d lock (buffer c)
              (lock_bus-Runs c e.start_time (c.bus_ctrl_delay + c.bus_data_delay) e m d s lt.pkg_lt
                (omega arith))
              λ o k. buffer-Runs c o.1 o.2 o.3 k.shaped)
            λ o k.
              let same : o.1.address ≡ e.address = ap (λ (x : Event). x.address) k.later.same in
              let quiet : o.1.noop ≡ false = ap (λ (x : Event). x.noop) k.later.same ∙ n in
              subst
                (λ (a : Address). Returns (Runs c (rise_in a) o.1 o.3) (Ssd.write c o.1 o.2 o.3))
                same
                (device-Runs c (in_ssd o.1.address) 1 o.1 (store_payload c o.1 o.2) o.3
                  (Ssd.write c o.1 o.2 o.3)
                  (Returns.write-Kept c o.3 k.shaped o.1 o.2 small quiet (rw same lt) (rw same full)
                    (rw same
                      (k.counts e.address ∙ ap (raise 0) at_end ∙ raise_zero (ok e.address.page))))
                  (Effects.write-Effect c o.1 o.2 o.3)))
          λ o k.
            let same : o.1.address ≡ e.address = ap (λ (x : Event). x.address) k.later.same in
            replace-Runs c o.1 o.2 o.3 k.shaped (rw same lt)
              (moved c (λ a. 0 + 0 + up a) e d o k rep))

  -- A read of one page of the device returns.
  pub issue_read-Runs :
      (e : Event) (m : Memory) (d : Ssd)
      → 0 < c.bus_ctrl_delay
      → IsDevice c d
      → InRange c e.address
      → 4 ≤ rank e.address.valid
      → Replaceable c e d
      → Returns (Runs c no_rise e d) (issue_read c e m d)
  unfolding issue_read
  issue_read-Runs e m d pos s lt full rep =
      let ctrl = lock_bus e.start_time c.bus_ctrl_delay e m d in
      let send = λ (x : Event) (n : Memory) (y : Ssd).
        lock_bus (x.start_time + x.time_taken) (c.bus_ctrl_delay + c.bus_data_delay) x n y in
      Runs-eq c (λ a. 0 + 0 + 0 + 0 + 0) no_rise e d (issue_read c e m d) (λ a. refl)
        (▷-Runs c (λ a. 0 + 0 + 0 + 0) no_rise e d (ctrl ▷ Ssd.read c ▷ send ▷ buffer c) Ssd.replace
          (▷-Runs c (λ a. 0 + 0 + 0) no_rise e d (ctrl ▷ Ssd.read c ▷ send) (buffer c)
            (▷-Runs c (λ a. 0 + 0) no_rise e d (ctrl ▷ Ssd.read c) send
              (▷-Runs c no_rise no_rise e d ctrl (Ssd.read c)
                (lock_bus-Runs c e.start_time c.bus_ctrl_delay e m d s lt.pkg_lt pos)
                λ o k.
                  let same : o.1.address ≡ e.address = ap (λ (x : Event). x.address) k.later.same in
                  let here = in_ssd o.1.address in
                  Runs-eq c (λ a. if here a then 0 else 0) no_rise o.1 o.3 (Ssd.read c o.1 o.2 o.3)
                    (λ a. ground arith)
                    (device-Runs c here 0 o.1 (point_to c o.1 o.2) o.3 (Ssd.read c o.1 o.2 o.3)
                      (Returns.read-Kept c o.3 k.shaped o.1 o.2 (rw same lt) (rw same full))
                      (Effects.read-Effect c o.1 o.2 o.3)))
              λ o k.
                let same : o.1.address ≡ e.address = ap (λ (x : Event). x.address) k.later.same in
                lock_bus-Runs c (o.1.start_time + o.1.time_taken)
                  (c.bus_ctrl_delay + c.bus_data_delay) o.1 o.2 o.3 k.shaped (rw same lt.pkg_lt)
                  (omega arith))
            λ o k. buffer-Runs c o.1 o.2 o.3 k.shaped)
          λ o k.
            let same : o.1.address ≡ e.address = ap (λ (x : Event). x.address) k.later.same in
            replace-Runs c o.1 o.2 o.3 k.shaped (rw same lt)
              (moved c (λ a. 0 + 0 + 0 + 0) e d o k rep))

  -- The same of `issue`, which selects the branch by the type.
  pub issue-write-Runs :
      (e : Event) (m : Memory) (d : Ssd)
      → 0 < c.bus_ctrl_delay
      → c.block_size < 2 ^ 32
      → e.event_type ≡ EventType.write
      → e.size ≡ 1
      → IsDevice c d
      → e.noop ≡ false
      → InRange c e.address
      → 4 ≤ rank e.address.valid
      → ssd_count e.address d ≡ ok e.address.page
      → Replaceable c e d
      → Returns (Runs c (rise_in e.address) e d) (issue c e m d)
  unfolding issue Replaceable
  issue-write-Runs e m d pos small t z s n lt full at_end rep =
      let x = record e { event_type = EventType.write; size = 1 } in
      subst (λ (y : Event). Returns (Runs c (rise_in y.address) y d) (issue c y m d))
        (sym (of_type e EventType.write t z))
        (Returns-assert (Runs c (rise_in x.address) x d) (ltb 0 (rank x.address.valid))
          (issue_write c x m d) (lt→ltb 0 (rank e.address.valid) (omega arith))
          (issue_write-Runs x m d pos small s n lt full at_end rep))

  pub issue-read-Runs :
      (e : Event) (m : Memory) (d : Ssd)
      → 0 < c.bus_ctrl_delay
      → e.event_type ≡ EventType.read
      → e.size ≡ 1
      → IsDevice c d
      → InRange c e.address
      → 4 ≤ rank e.address.valid
      → Replaceable c e d
      → Returns (Runs c no_rise e d) (issue c e m d)
  unfolding issue Replaceable
  issue-read-Runs e m d pos t z s lt full rep =
      let x = record e { event_type = EventType.read; size = 1 } in
      subst (λ (y : Event). Returns (Runs c no_rise y d) (issue c y m d))
        (sym (of_type e EventType.read t z))
        (Returns-assert (Runs c no_rise x d) (ltb 0 (rank x.address.valid)) (issue_read c x m d)
          (lt→ltb 0 (rank e.address.valid) (omega arith)) (issue_read-Runs x m d pos s lt full rep))
