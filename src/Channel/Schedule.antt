-- ===== src/Channel/Schedule.antt =====
-- The time at which `Channel::lock` schedules an event, against the reservations of the table.
use mnftl.Base.{
  ℕ, ◌+◌, ◌-◌, ◌≤◌, ◌<◌, ◌≡◌, refl, sym, subst, inl, inr, true, ◌&&◌, Option, none, some, List, [],
  ◌∷◌, ◌++◌, arith, ltb, leb, le→leb, if_cases, Bool-cases, ok, keep_if, All,
}
use native.Mathlib.Nat.{le_refl}
use mnftl.Config.{success}
use mnftl.Event.{Event, incr_time_taken-eq, incr_bus_wait_time-eq}
use mnftl.Channel.{
  LockTimes, Channel, unlock, find_gap, back_unlock, after_gap, schedule, later_of, lock,
}
use mnftl.Channel.Order.{
  Busy, Apart, AllApart, IsValid, Ordered, All-sort, All-keep, kept_late, AllApart-keep,
  Ordered-sort,
}

abbrev pub slot : ℕ → ℕ → LockTimes
slot s duration = record { lock_time = s; unlock_time = s + duration }

-- A table that `unlock` has cleaned and sorted.
record IsTable (start : ℕ) (ts : List LockTimes) : Type 0 where
  busy : All Busy ts
  ordered : Ordered ts
  late : All (λ t. start < t.unlock_time) ts

unlock-IsTable :
    (start : ℕ) (ts : List LockTimes) → All Busy ts → AllApart ts → IsTable start (unlock start ts)
unfolding unlock
unlock-IsTable start ts b a =
    let p = λ (t : LockTimes). ltb start t.unlock_time in
    record {
      busy = All-sort Busy (keep_if p ts) (All-keep Busy p ts b);
      ordered = Ordered-sort (keep_if p ts) (All-keep Busy p ts b) (AllApart-keep p ts a);
      late = All-sort (λ t. start < t.unlock_time) (keep_if p ts) (kept_late start ts);
    }

-- What a time must satisfy to be free for `duration` from `start` on.
abbrev Free : ℕ → ℕ → ℕ → List LockTimes → Type 0
Free start duration s ts = (start ≤ s) × All (Apart (slot s duration)) ts

free_before :
    (s duration n : ℕ) (ts : List LockTimes)
    → s + duration ≤ n
    → All (λ (u : LockTimes). n ≤ u.lock_time) ts
    → All (Apart (slot s duration)) ts
free_before s duration n [] h a = tt
free_before s duration n (t ∷ ts) h a = (inl (omega arith), free_before s duration n ts h a.1)

weaken :
    (m n : ℕ) (ts : List LockTimes)
    → m ≤ n
    → All (λ (u : LockTimes). n ≤ u.lock_time) ts
    → All (λ (u : LockTimes). m ≤ u.lock_time) ts
weaken m n [] h a = tt
weaken m n (t ∷ ts) h a = (omega arith, weaken m n ts h a.1)

both_true : (a b c d : ℕ) → (leb a b && leb c d) ≡ true → (a ≤ b) × (c ≤ d)
both_true a b c d e = ground arith

-- A gap that the loop finds is free, and lies behind the first entry.
find_gap-Free :
    (start duration : ℕ) (t : LockTimes) (ts : List LockTimes) {s : ℕ}
    → All Busy (t ∷ ts)
    → Ordered (t ∷ ts)
    → find_gap start duration (t ∷ ts) ≡ some s
    → (t.unlock_time ≤ s) × Free start duration s (t ∷ ts)
unfolding find_gap
find_gap-Free start duration t [] b o h = ground arith
find_gap-Free start duration t (u ∷ us) {s} b o h =
    elim (Bool-cases (leb start t.unlock_time && leb (t.unlock_time + duration) u.lock_time)) [
      | inl e ↦
          let here : s ≡ t.unlock_time = ground arith in
          let (ge, fits) = both_true start t.unlock_time (t.unlock_time + duration) u.lock_time e in
          subst (λ n. (t.unlock_time ≤ n) × Free start duration n (t ∷ u ∷ us)) (sym here)
            (
              le_refl _,
              (
                ge,
                (
                  inr (le_refl _),
                  free_before t.unlock_time duration u.lock_time (u ∷ us) fits
                      (le_refl _, weaken u.lock_time u.unlock_time us (omega arith) o.1.0),
                ),
              ),
            )
      | inr e ↦
          let later : find_gap start duration (u ∷ us) ≡ some s = ground arith in
          let (after, (ge, apart)) = find_gap-Free start duration u us b.1 o.1 later in
          (omega arith, (ge, (inr (omega arith), apart)))
    ]

back_unlock-ge :
    (t : LockTimes) (ts : List LockTimes)
    → All Busy ts
    → Ordered (t ∷ ts)
    → All (λ (u : LockTimes). u.unlock_time ≤ back_unlock t ts) (t ∷ ts)
unfolding back_unlock
back_unlock-ge t [] b o = (omega arith, tt)
back_unlock-ge t (u ∷ us) b o = let rest = back_unlock-ge u us b.1 o.1 in (omega arith, rest)

free_after :
    (s duration : ℕ) (ts : List LockTimes)
    → All (λ (u : LockTimes). u.unlock_time ≤ s) ts
    → All (Apart (slot s duration)) ts
free_after s duration [] h = tt
free_after s duration (t ∷ ts) h = (inr h.0, free_after s duration ts h.1)

-- The time that `lock` chooses is free.
schedule-Free :
    (start duration : ℕ) (ts : List LockTimes)
    → 0 < duration
    → IsTable start ts
    → Free start duration (schedule start duration ts) ts
unfolding schedule
schedule-Free start duration [] h v = (le_refl _, tt)
schedule-Free start duration (t ∷ ts) h v =
    if_cases (λ s. Free start duration s (t ∷ ts))
      (ltb start t.lock_time && leb (start + duration) t.lock_time)
      (λ e. (
        le_refl _,
        (
          inl (ground arith),
          free_before start duration t.unlock_time ts (ground arith) v.ordered.0,
        ),
      ))
      (λ e. found (find_gap start duration (t ∷ ts)) refl)
  where
    found :
        (g : Option ℕ)
        → find_gap start duration (t ∷ ts) ≡ g
        → Free start duration (after_gap g t ts) (t ∷ ts)
    found none e =
        let ge = back_unlock-ge t ts v.busy.1 v.ordered in
        (omega arith, free_after _ duration (t ∷ ts) ge)
    found (some s) e = (find_gap-Free start duration t ts v.busy v.ordered e).1

Ordered-AllApart : (ts : List LockTimes) → Ordered ts → AllApart ts
Ordered-AllApart [] o = tt
Ordered-AllApart (t ∷ ts) o = (go ts o.0, Ordered-AllApart ts o.1)
  where
    go :
        (us : List LockTimes)
        → All (λ (u : LockTimes). t.unlock_time ≤ u.lock_time) us
        → All (Apart t) us
    go [] a = tt
    go (u ∷ us) a = (inl a.0, go us a.1)

Apart-sym : (t u : LockTimes) → Apart t u → Apart u t
Apart-sym t u (inl h) = inr h
Apart-sym t u (inr h) = inl h

AllApart-snoc :
    (ts : List LockTimes) (t : LockTimes) → AllApart ts → All (Apart t) ts → AllApart (ts ++ t ∷ [])
AllApart-snoc [] t a h = (tt, tt)
AllApart-snoc (u ∷ us) t a h = (go us a.0, AllApart-snoc us t a.1 h.1)
  where
    go : (xs : List LockTimes) → All (Apart u) xs → All (Apart u) (xs ++ t ∷ [])
    go [] _ = (Apart-sym t u h.0, tt)
    go (x ∷ xs) b = (b.0, go xs b.1)

All-snoc {ℓ} :
    (P : LockTimes → Type ℓ) (ts : List LockTimes) (t : LockTimes)
    → All P ts
    → P t
    → All P (ts ++ t ∷ [])
All-snoc P [] t a h = (h, tt)
All-snoc P (u ∷ us) t a h = (a.0, All-snoc P us t a.1 h)

-- On a valid channel and for a positive duration `lock` returns: the event gets the channel from a
-- time at `start` or later, waits until then and is done the duration later; the table is what
-- `unlock` leaves with the reservation added, no two reservations of it overlap, and `ready_at`
-- covers it.
pub lock_lem :
    (start duration : ℕ) (e : Event) (ch : Channel)
    → 0 < duration
    → IsValid ch
    → (s : ℕ) × (f : Event) × (d : Channel) × (lock start duration e ch ≡ ok (success, f, d))
      × (start ≤ s)
      × (f ≡ record e {
        time_taken = e.time_taken + (s + duration - start);
        bus_wait_time = e.bus_wait_time + (s - start);
      })
      × (d.timings ≡ unlock start ch.timings ++ slot s duration ∷ [])
      × (d.ready_at ≡ later_of ch.ready_at (s + duration))
      × IsValid d
unfolding lock
lock_lem start duration e ch h v =
    let v' = unlock-IsTable start ch.timings v.busy v.apart in
    let table = unlock start ch.timings in
    let s = schedule start duration table in
    let (ge, apart) = schedule-Free start duration table h v' in
    (
      s,
      record e {
        time_taken = e.time_taken + (s + duration - start);
        bus_wait_time = e.bus_wait_time + (s - start);
      },
      record ch {
        timings = table ++ slot s duration ∷ [];
        ready_at = later_of ch.ready_at (s + duration);
      },
      rw
          (
            le→leb ch.num_connected ch.max_connections v.connected,
            incr_time_taken-eq,
            incr_bus_wait_time-eq,
          )
          refl,
      ge,
      refl,
      refl,
      refl,
      record {
        connected = v.connected;
        busy = All-snoc Busy table (slot s duration) v'.busy (omega arith);
        apart = AllApart-snoc table (slot s duration) (Ordered-AllApart table v'.ordered) apart;
      },
    )
