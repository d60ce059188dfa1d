-- ===== src/Controller/Effects.antt =====
-- What `Controller::issue` does for a read and for a write.
use mnftl.Base.{
  ℕ, ◌+◌, ◌≡◌, refl, sym, ap, ◌∙◌, subst, false, ltb, leb, ok, abort, Every, Every-bind,
  Every-assert, Every-fetch, Every-both,
}
use mnftl.Config.{Config, Status, success, EventType, rank}
use mnftl.Address.{Address}
use mnftl.Event.{Event, Later, Later-trans, incr_time_taken-Later, incr_bus_wait_time-Later}
use mnftl.Channel
use mnftl.Channel.{Channel}
use mnftl.Bus
use mnftl.Bus.{Bus, ram_read, ram_write}
use mnftl.Flash.Page.{Memory, Outcome, point_to, store_payload}
use mnftl.Flash.Effect.{IsUsed, Effect, Target}
use mnftl.Ssd
use mnftl.Ssd.{Ssd}
use mnftl.Ssd.Effects
use mnftl.Ssd.Effects.{ssd_view}
use mnftl.Controller.{◌▷◌, lock_bus, buffer, issue_read, issue_write, issue}

-- The chain goes on after a call that goes through.
▷-Every {ℓ} :
    (P : Status × Event × Memory × Ssd → Type ℓ) (e : Event) (m : Memory) (d : Ssd)
    (r : Outcome Ssd) (next : Event → Memory → Ssd → Outcome Ssd)
    → Every (Effect ssd_view e m d) r
    → ((e' : Event) (d' : Ssd)
        → Later e e'
        → ((a : Address) → IsUsed (ssd_view a d) → IsUsed (ssd_view a d'))
        → Every P (next e' m d'))
    → Every P (r ▷ next)
▷-Every P e m d r next h k =
    Every-bind (Effect ssd_view e m d) P r _ h
      λ o g. rw (g.done, g.memory) (k o.1 o.3 g.later g.kept)

-- Two effects in a row.
▷-Effect :
    (e : Event) (m m' : Memory) (d : Ssd) (r : Outcome Ssd)
    (next : Event → Memory → Ssd → Outcome Ssd)
    → Every (Effect ssd_view e m d) r
    → ((e' : Event) (d' : Ssd) → Later e e' → Every (Effect ssd_view e' m' d') (next e' m d'))
    → Every (Effect ssd_view e m' d) (r ▷ next)
▷-Effect e m m' d r next h k =
    ▷-Every (Effect ssd_view e m' d) e m d r next h
      λ e' d' l g. weaken e' d' l g (next e' m d') (k e' d' l)
  where
    weaken :
        (e' : Event) (d' : Ssd)
        → Later e e'
        → ((a : Address) → IsUsed (ssd_view a d) → IsUsed (ssd_view a d'))
        → (x : Outcome Ssd) → Every (Effect ssd_view e' m' d') x
        → Every (Effect ssd_view e m' d) x
    weaken e' d' l g (ok o) f = record {
      done = f.done;
      later = Later-trans e e' o.1 l f.later;
      memory = f.memory;
      kept = λ a u. f.kept a (g a u);
    }
    weaken e' d' l g abort f = tt

channel_lock :
    (start duration : ℕ) (e : Event) (ch : Channel)
    → Every (λ o. (o.0 ≡ success) × Later e o.1) (Channel.lock start duration e ch)
unfolding Channel.lock
channel_lock start duration e ch =
    Every-assert (λ o. (o.0 ≡ success) × Later e o.1) (leb ch.num_connected ch.max_connections) _
      (refl, Later-trans e _ _ (incr_bus_wait_time-Later _ e) (incr_time_taken-Later _ _))

bus_lock :
    (channel start duration : ℕ) (e : Event) (b : Bus)
    → Every (λ o. (o.0 ≡ success) × Later e o.1) (Bus.lock channel start duration e b)
unfolding Bus.lock
bus_lock channel start duration e b =
    let P = λ (o : Status × Event × Bus). (o.0 ≡ success) × Later e o.1 in
    Every-assert P (ltb 0 duration) _ (
      Every-fetch P b.channels channel _ λ ch _.
        Every-bind (λ o. (o.0 ≡ success) × Later e o.1) P (Channel.lock start duration e ch) _
          (channel_lock start duration e ch) λ o k. k)

pub lock_bus-Effect :
    (start duration : ℕ) (e : Event) (m : Memory) (d : Ssd)
    → Every (Effect ssd_view e m d) (lock_bus start duration e m d)
unfolding lock_bus
lock_bus-Effect start duration e m d =
    Every-bind (λ o. (o.0 ≡ success) × Later e o.1) (Effect ssd_view e m d)
      (Bus.lock e.address.pkg start duration e d.bus) _ (bus_lock _ start duration e d.bus)
      λ o k. record { done = k.0; later = k.1; memory = refl; kept = λ a u. u }

pub buffer-Effect :
    (c : Config) (e : Event) (m : Memory) (d : Ssd) → Every (Effect ssd_view e m d) (buffer c e m d)
unfolding buffer ram_read ram_write
buffer-Effect c e m d = record {
  done = refl;
  later = Later-trans e _ _ (incr_time_taken-Later _ e) (incr_time_taken-Later _ _);
  memory = refl;
  kept = λ a u. u;
}

store_payload-Later :
    (c : Config) (e f : Event) (m : Memory) → Later e f → store_payload c f m ≡ store_payload c e m
unfolding store_payload
store_payload-Later c e f m l = ap (λ (x : Event). store_payload c x m) l.same

point_to-Later :
    (c : Config) (e f : Event) (m : Memory) → Later e f → point_to c f m ≡ point_to c e m
unfolding point_to
point_to-Later c e f m l = ap (λ (x : Event). point_to c x m) l.same

module _ (c : Config) (e : Event) (m : Memory) (d : Ssd) where
  locked : Outcome Ssd
  locked = lock_bus e.start_time (c.bus_ctrl_delay + c.bus_data_delay) e m d ▷ buffer c

  locked-Effect : Every (Effect ssd_view e m d) locked
  unfolding locked
  locked-Effect =
      ▷-Effect e m m d (lock_bus e.start_time (c.bus_ctrl_delay + c.bus_data_delay) e m d)
        (buffer c) (lock_bus-Effect e.start_time (c.bus_ctrl_delay + c.bus_data_delay) e m d)
        λ e' d' _. buffer-Effect c e' m d'

  stored :
      (e' : Event) (d' : Ssd)
      → Later e e'
      → Every (Effect ssd_view e' (store_payload c e m) d') (Ssd.write c e' m d')
  stored e' d' l =
      subst (λ x. Every (Effect ssd_view e' x d') (Ssd.write c e' m d'))
        (store_payload-Later c e e' m l) (Effects.write-Effect c e' m d')

  -- A write goes through if it returns: it stores its payload, and keeps every page in use.
  pub issue_write-Effect : Every (Effect ssd_view e (store_payload c e m) d) (issue_write c e m d)
  unfolding issue_write locked
  issue_write-Effect =
      let after = store_payload c e m in
      ▷-Effect e after after d (locked ▷ Ssd.write c) Ssd.replace
        (▷-Effect e m after d locked (Ssd.write c) locked-Effect stored)
        λ e' d' _. Effects.replace-Effect e' after d'

  same_address : (e' : Event) → Later e e' → e'.address ≡ e.address
  same_address e' l = ap (λ (x : Event). x.address) l.same

  same_noop : (e' : Event) → Later e e' → e'.noop ≡ e.noop
  same_noop e' l = ap (λ (x : Event). x.noop) l.same

  written_page :
      (d0 : Ssd) (x : Outcome Ssd) (e' : Event)
      → Later e e'
      → Every (λ o. Target ssd_view e'.address d0 o.3) x
      → ((a : Address) → IsUsed (ssd_view a d) → IsUsed (ssd_view a d0))
      → Every (λ o. Target ssd_view e.address d o.3) x
  written_page d0 (ok o) e' l t k = record {
    fresh = λ u. t.fresh (rw (same_address e' l) (k e.address u));
    now = rw (← same_address e' l) t.now;
  }
  written_page d0 abort e' l t k = tt

  -- The page that a write returns from was empty before, and is in use then.
  pub issue_write-Target :
      e.noop ≡ false → Every (λ o. Target ssd_view e.address d o.3) (issue_write c e m d)
  unfolding issue_write locked
  issue_write-Target h =
      ▷-target (locked ▷ Ssd.write c)
        (▷-Effect e m (store_payload c e m) d locked (Ssd.write c) locked-Effect stored)
        (▷-Every (λ o. Target ssd_view e.address d o.3) e m d locked (Ssd.write c) locked-Effect
          λ e' d' l k.
            written_page d' (Ssd.write c e' m d') e' l
              (Effects.write-Target c e' m d' (same_noop e' l ∙ h)) k)
    where
      ▷-target :
          (r : Outcome Ssd)
          → Every (Effect ssd_view e (store_payload c e m) d) r
          → Every (λ o. Target ssd_view e.address d o.3) r
          → Every (λ o. Target ssd_view e.address d o.3) (r ▷ Ssd.replace)
      ▷-target abort f t = tt
      ▷-target (ok o) f t =
          rw f.done (go (Ssd.replace o.1 o.2 o.3) (Effects.replace-Effect o.1 o.2 o.3))
        where
          go :
              (x : Outcome Ssd)
              → Every (Effect ssd_view o.1 o.2 o.3) x
              → Every (λ y. Target ssd_view e.address d y.3) x
          go abort g = tt
          go (ok y) g = record { fresh = t.fresh; now = g.kept e.address t.now }

  -- A read goes through if it returns: it points the buffer to its page, and keeps every page in use.
  pub issue_read-Effect : Every (Effect ssd_view e (point_to c e m) d) (issue_read c e m d)
  unfolding issue_read
  issue_read-Effect =
      let after = point_to c e m in
      let ctrl = lock_bus e.start_time c.bus_ctrl_delay e m d in
      let send = λ (e' : Event) (m' : Memory) (d' : Ssd).
        lock_bus (e'.start_time + e'.time_taken) (c.bus_ctrl_delay + c.bus_data_delay) e' m' d' in
      ▷-Effect e after after d (ctrl ▷ Ssd.read c ▷ send ▷ buffer c) Ssd.replace
        (▷-Effect e after after d (ctrl ▷ Ssd.read c ▷ send) (buffer c)
          (▷-Effect e after after d (ctrl ▷ Ssd.read c) send
            (▷-Effect e m after d ctrl (Ssd.read c)
              (lock_bus-Effect e.start_time c.bus_ctrl_delay e m d)
              λ e' d' l.
                subst (λ x. Every (Effect ssd_view e' x d') (Ssd.read c e' m d'))
                  (point_to-Later c e e' m l) (Effects.read-Effect c e' m d'))
            λ e' d' _. lock_bus-Effect _ _ e' after d')
          λ e' d' _. buffer-Effect c e' after d')
        λ e' d' _. Effects.replace-Effect e' after d'

pub of_type :
    (e : Event) (t : EventType)
    → e.event_type ≡ t
    → e.size ≡ 1
    → e ≡ record e { event_type = t; size = 1 }
of_type e t p q =
    ap (λ (x : EventType). record e { event_type = x }) p
    ∙ ap (λ (n : ℕ). record e { event_type = t; size = n }) q

module _ (c : Config) (e : Event) (m : Memory) (d : Ssd) where
  -- A write of one page that is no noop and returns from `issue` has succeeded: its page was empty
  -- and is in use, every page in use still is, the event differs in its times only, and the memory
  -- is what `store_payload` makes of it: where page data are enabled and there is a payload, that
  -- stands at the linear address of its page; else the memory is as it was.
  pub issue-write :
      e.event_type ≡ EventType.write
      → e.size ≡ 1
      → e.noop ≡ false
      → Every
          (λ o. Effect ssd_view e (store_payload c e m) d o × Target ssd_view e.address d o.3)
          (issue c e m d)
  unfolding issue
  issue-write t s h =
      let x = record e { event_type = EventType.write; size = 1 } in
      subst
        (λ (y : Event).
          Every (λ o. Effect ssd_view y (store_payload c y m) d o × Target ssd_view y.address d o.3)
            (issue c y m d))
        (sym (of_type e EventType.write t s))
        (Every-assert _ (ltb 0 (rank x.address.valid)) (issue_write c x m d) (
          Every-both (Effect ssd_view x (store_payload c x m) d)
            (λ o. Target ssd_view x.address d o.3) (issue_write c x m d)
            (issue_write-Effect c x m d) (issue_write-Target c x m d h)))

  -- A read of one page that returns from `issue` has succeeded: every page in use is still in use,
  -- the event differs in its times only, and the memory is what `point_to` makes of it: the data as
  -- they were, with the buffer at its page where page data are enabled and the event is no noop, and
  -- else the buffer as it was.
  pub issue-read :
      e.event_type ≡ EventType.read
      → e.size ≡ 1
      → Every (Effect ssd_view e (point_to c e m) d) (issue c e m d)
  unfolding issue
  issue-read t s =
      let x = record e { event_type = EventType.read; size = 1 } in
      subst (λ (y : Event). Every (Effect ssd_view y (point_to c y m) d) (issue c y m d))
        (sym (of_type e EventType.read t s))
        (Every-assert _ (ltb 0 (rank x.address.valid)) (issue_read c x m d)
          (issue_read-Effect c x m d))

  pub issue-trim :
      e.event_type ≡ EventType.trim → e.size ≡ 1 → issue c e m d ≡ ok (success, e, m, d)
  unfolding issue
  issue-trim t s =
      subst (λ (y : Event). issue c y m d ≡ ok (success, y, m, d))
        (sym (of_type e EventType.trim t s)) refl
