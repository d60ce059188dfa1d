-- ===== src/Channel/Order.antt =====
-- Reservations that do not overlap, and what the sort of `Channel::unlock` makes of them.
use mnftl.Base.{
  ℕ, ◌≤◌, ◌<◌, ◌⊎◌, inl, inr, Bool, List, [], ◌∷◌, arith, ltb, ltb→lt, Bool-cases, keep_if, All,
}
use mnftl.Channel.{LockTimes, Channel, insert_by_lock, sort_by_lock}

-- A reservation takes some time.
abbrev pub Busy : LockTimes → Type 0
Busy t = t.lock_time < t.unlock_time

-- Two reservations do not overlap.
abbrev pub Apart : LockTimes → LockTimes → Type 0
Apart t u = (t.unlock_time ≤ u.lock_time) ⊎ (u.unlock_time ≤ t.lock_time)

abbrev pub AllApart : List LockTimes → Type 0
AllApart [] = Unit {0}
AllApart (t ∷ ts) = All (Apart t) ts × AllApart ts

pub record IsValid (ch : Channel) : Type 0 where
  pub connected : ch.num_connected ≤ ch.max_connections
  pub busy : All Busy ch.timings
  pub apart : AllApart ch.timings

-- One after the other.
abbrev pub Ordered : List LockTimes → Type 0
Ordered [] = Unit {0}
Ordered (t ∷ ts) = All (λ (u : LockTimes). t.unlock_time ≤ u.lock_time) ts × Ordered ts

pub All-insert {ℓ} :
    (P : LockTimes → Type ℓ) (t : LockTimes) (us : List LockTimes)
    → P t
    → All P us
    → All P (insert_by_lock t us)
unfolding insert_by_lock
All-insert P t [] h hs = (h, tt)
All-insert P t (u ∷ us) h hs = elim (Bool-cases (ltb u.lock_time t.lock_time)) [
  | inl e ↦ rw e (hs.0, All-insert P t us h hs.1)
  | inr e ↦ rw e (h, (hs.0, hs.1))
]

pub All-sort {ℓ} :
    (P : LockTimes → Type ℓ) (ts : List LockTimes) → All P ts → All P (sort_by_lock ts)
unfolding sort_by_lock
All-sort P [] h = tt
All-sort P (t ∷ ts) h = All-insert P t (sort_by_lock ts) h.0 (All-sort P ts h.1)

pub All-keep {ℓ} :
    (P : LockTimes → Type ℓ) (p : LockTimes → Bool) (ts : List LockTimes)
    → All P ts
    → All P (keep_if p ts)
All-keep P p [] h = tt
All-keep P p (t ∷ ts) h = elim (Bool-cases (p t)) [
  | inl e ↦ rw e (h.0, All-keep P p ts h.1)
  | inr e ↦ rw e (All-keep P p ts h.1)
]

pub kept_late :
    (start : ℕ) (ts : List LockTimes)
    → All (λ t. start < t.unlock_time) (keep_if (λ t. ltb start t.unlock_time) ts)
kept_late start [] = tt
kept_late start (t ∷ ts) = elim (Bool-cases (ltb start t.unlock_time)) [
  | inl e ↦ rw e (ltb→lt start t.unlock_time e, kept_late start ts)
  | inr e ↦ rw e (kept_late start ts)
]

pub AllApart-keep :
    (p : LockTimes → Bool) (ts : List LockTimes) → AllApart ts → AllApart (keep_if p ts)
AllApart-keep p [] h = tt
AllApart-keep p (t ∷ ts) h = elim (Bool-cases (p t)) [
  | inl e ↦ rw e (All-keep (Apart t) p ts h.0, AllApart-keep p ts h.1)
  | inr e ↦ rw e (AllApart-keep p ts h.1)
]

pub later_than :
    (t u : LockTimes) (us : List LockTimes)
    → t.unlock_time ≤ u.unlock_time
    → All (λ (x : LockTimes). u.unlock_time ≤ x.lock_time) us
    → All (λ (x : LockTimes). t.unlock_time ≤ x.lock_time) us
later_than t u [] h hs = tt
later_than t u (x ∷ xs) h hs = (omega arith, later_than t u xs h hs.1)

Ordered-insert :
    (t : LockTimes) (us : List LockTimes)
    → Busy t
    → All Busy us
    → All (Apart t) us
    → Ordered us
    → Ordered (insert_by_lock t us)
unfolding insert_by_lock
Ordered-insert t [] b bs a o = (tt, tt)
Ordered-insert t (u ∷ us) b bs a o = elim (Bool-cases (ltb u.lock_time t.lock_time)) [
  | inl e ↦ rw e (
    All-insert (λ (x : LockTimes). u.unlock_time ≤ x.lock_time) t us
        (let l = ltb→lt _ _ e in omega arith) o.0,
    Ordered-insert t us b bs.1 a.1 o.1,
  )
  | inr e ↦ rw e (
      let first : t.unlock_time ≤ u.lock_time = ground arith in
      ((first, later_than t u us (omega arith) o.0), (o.0, o.1)))
]

pub Ordered-sort : (ts : List LockTimes) → All Busy ts → AllApart ts → Ordered (sort_by_lock ts)
unfolding sort_by_lock
Ordered-sort [] b a = tt
Ordered-sort (t ∷ ts) b a =
    Ordered-insert t (sort_by_lock ts) b.0 (All-sort Busy ts b.1) (All-sort (Apart t) ts a.0)
      (Ordered-sort ts b.1 a.1)
