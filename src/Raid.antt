-- ===== src/Raid.antt =====
-- ssd_raidssd.cpp: several devices behind one interface, either with a part of the data of each
-- request on each, or with the logical addresses split between them.
use mnftl.Base.{
  ℕ, zero, suc, ◌+◌, ◌%◌, ◌≡◌, refl, sym, ap, ◌∙◌, subst, ◌≢◌, inl, inr, Option, none, some, List,
  [], ◌∷◌, arith, ltb, ◌==◌, if◌then◌else◌, Bool-cases, Run, ok, abort, ◌>>=◌, ◌>>◌, assert, fetch,
  Every, Every-bind, Every-assert, Every-trivial, Every-fetch, length, get_elem?, set, length-set,
  get_elem?-lt, get_elem?-set_self, get_elem?-set_ne,
}
use mathlib.Core.Option.{some-injective}
use mnftl.Config.{EventType}

-- `(char*)buffer + i * PAGE_SIZE`, or NULL.
abbrev pub buffer_at : Option (ℕ → ℕ) → ℕ → Option ℕ
buffer_at none i = none
buffer_at (some pages) i = some (pages i)

-- What a device does with a request is a parameter, with the state that all devices share.
module _ {D G : Type 0}
    (arrive : EventType
      → (logical_address size start_time : ℕ) → (buffer : Option ℕ) → D
      → G
      → Run (ℕ × D × G)) where
  -- The first loop of the striping: the devices from `i` on, each with its page of the buffer.
  stripe :
      EventType
      → (logical_address size start_time : ℕ) → Option (ℕ → ℕ)
      → (i : ℕ) → List D
      → G
      → Run (List ℕ × List D × G)
  stripe t lpn size start buffer i [] g = ok ([], [], g)
  stripe t lpn size start buffer i (d ∷ ds) g = do
    (time, d', g1) ← arrive t lpn size start (buffer_at buffer i) d g
    (times, ds', g2) ← stripe t lpn size start buffer (suc i) ds g1
    ok (time ∷ times, d' ∷ ds', g2)

  -- `RaidSsd::event_arrive`; the mode is PARALLELISM_MODE. The messages about the times are I/O.
  pub raid_event_arrive :
      (mode : ℕ)
      → EventType
      → (logical_address size start_time : ℕ) → Option (ℕ → ℕ)
      → List D
      → G
      → Run (ℕ × List D × G)
  unfolding stripe
  raid_event_arrive mode t lpn size start buffer ds g =
      let striped = (do
        (times, ds', g') ← stripe t lpn size start buffer 0 ds g
        time ← fetch times 0
        ok (time, ds', g')) in
      let split = (do
        assert (ltb 0 (length ds))
        d ← fetch ds (lpn % length ds)
        (time, d', g') ← arrive t lpn size start (buffer_at buffer 0) d g
        ok (time, set ds (lpn % length ds) d', g')) in
      if mode == 1 then striped else if mode == 2 then split else ok (0, ds, g)

  -- A device has served the request, with its page of the buffer.
  pub HasServed :
      EventType → (lpn size start : ℕ) → Option (ℕ → ℕ) → (page : ℕ) → (before after : D) → Type 0
  HasServed t lpn size start buffer i d d' =
      (time : ℕ) × (g : G) × (g' : G) × (arrive t lpn size start (buffer_at buffer i) d g
        ≡ ok (time, d', g'))

  -- Each of the devices has, from page `i` on.
  pub AllServed :
      EventType → (lpn size start : ℕ) → Option (ℕ → ℕ) → (i : ℕ) → (before after : List D) → Type 0
  AllServed t lpn size start buffer i ds ds' =
      (length ds' ≡ length ds)
      × ((j : ℕ) (d : D)
          → get_elem? ds j ≡ some d
          → (d' : D) × (get_elem? ds' j ≡ some d') × HasServed t lpn size start buffer (i + j) d d')

  -- Only the device that the address names has.
  pub OneServed :
      EventType → (lpn size start : ℕ) → Option (ℕ → ℕ) → (before after : List D) → Type 0
  OneServed t lpn size start buffer ds ds' =
      (length ds' ≡ length ds)
      × ((j : ℕ) → j ≢ lpn % length ds → get_elem? ds' j ≡ get_elem? ds j)
      × ((d : D)
          → get_elem? ds (lpn % length ds) ≡ some d
          → (d' : D) × (get_elem? ds' (lpn % length ds) ≡ some d')
            × HasServed t lpn size start buffer 0 d d')

  pub ServedBy :
      (mode : ℕ)
      → EventType
      → (lpn size start : ℕ) → Option (ℕ → ℕ)
      → (before after : List D) → Type 0
  unfolding AllServed OneServed HasServed
  ServedBy mode t lpn size start buffer ds ds' =
      if mode == 1
      then AllServed t lpn size start buffer 0 ds ds'
      else if mode == 2
      then OneServed t lpn size start buffer ds ds'
      else (ds' ≡ ds)

  module _ (t : EventType) (lpn size start : ℕ) (buffer : Option (ℕ → ℕ)) where
    returns_it : {A : Type 0} (m : Run A) → Every (λ a. m ≡ ok a) m
    returns_it (ok a) = refl
    returns_it abort = tt

    stripe-AllServed :
        (i : ℕ) (ds : List D) (g : G)
        → Every
            (λ o. AllServed t lpn size start buffer i ds o.1)
            (stripe t lpn size start buffer i ds g)
    unfolding stripe AllServed HasServed
    stripe-AllServed i [] g = (refl, λ j d e. cc)
    stripe-AllServed i (d ∷ ds) g =
        let P = λ (o : List ℕ × List D × G). AllServed t lpn size start buffer i (d ∷ ds) o.1 in
        Every-bind _ P (arrive t lpn size start (buffer_at buffer i) d g) _ (returns_it _) λ o r.
          Every-bind _ P (stripe t lpn size start buffer (suc i) ds o.2) _
            (stripe-AllServed (suc i) ds o.2) λ x k. (ap suc k.0, here o x.1 r k.1)
      where
        here :
            (o : ℕ × D × G) (ds' : List D)
            → arrive t lpn size start (buffer_at buffer i) d g ≡ ok o
            → ((j : ℕ) (d : D)
                → get_elem? ds j ≡ some d
                → (d' : D) × (get_elem? ds' j ≡ some d')
                  × HasServed t lpn size start buffer (suc i + j) d d')
            → (j : ℕ) (d1 : D) → get_elem? (d ∷ ds) j ≡ some d1
            → (d' : D) × (get_elem? (o.1 ∷ ds') j ≡ some d')
              × HasServed t lpn size start buffer (i + j) d1 d'
        here o ds' r k zero d1 e =
            let first : d ≡ d1 = some-injective d d1 e in
            (
              o.1,
              refl,
              (
                o.0,
                g,
                o.2,
                subst
                    (λ (x : D).
                      arrive t lpn size start (buffer_at buffer (i + 0)) x g ≡ ok (o.0, o.1, o.2))
                    first
                    (subst
                      (λ (n : ℕ).
                        arrive t lpn size start (buffer_at buffer n) d g ≡ ok (o.0, o.1, o.2))
                      (omega arith) r),
              ),
            )
        here o ds' r k (suc j) d1 e =
            let (d', q, served) = k j d1 e in
            (
              d',
              q,
              subst (λ (n : ℕ). HasServed t lpn size start buffer n d1 d') (omega arith) served,
            )

    split_served :
        (ds : List D) (g : G)
        → Every
            (λ (o : ℕ × List D × G). OneServed t lpn size start buffer ds o.1)
            (do
              assert (ltb 0 (length ds))
              d ← fetch ds (lpn % length ds)
              (time, d', g') ← arrive t lpn size start (buffer_at buffer 0) d g
              ok (time, set ds (lpn % length ds) d', g'))
    unfolding OneServed HasServed
    split_served ds g =
        let P = λ (o : ℕ × List D × G). OneServed t lpn size start buffer ds o.1 in
        let i = lpn % length ds in
        Every-assert P (ltb 0 (length ds)) _ (
          Every-fetch P ds i _ λ d q.
            Every-bind (λ o. arrive t lpn size start (buffer_at buffer 0) d g ≡ ok o) P
              (arrive t lpn size start (buffer_at buffer 0) d g) _ (returns_it _)
              λ o r. (
                length-set ds i o.1,
                (λ j other. get_elem?-set_ne ds i j o.1 (λ e. other (sym e))),
                (λ d1 e. (
                  o.1,
                  get_elem?-set_self ds i o.1 (get_elem?-lt ds i q),
                  (
                    o.0,
                    g,
                    o.2,
                    subst (λ (x : D). arrive t lpn size start (buffer_at buffer 0) x g ≡ ok o)
                        (some-injective d d1 (sym q ∙ e)) r,
                  ),
                )),
              ))

    -- Whatever a device does with a request: a request to the RAID device that returns was served,
    -- by striping, by every device with its own page of the buffer, by splitting, by the device
    -- alone that the remainder of its address names, with the first page, and otherwise by none.
    pub raid_event_arrive-ServedBy :
        (mode : ℕ) (ds : List D) (g : G)
        → Every
            (λ o. ServedBy mode t lpn size start buffer ds o.1)
            (raid_event_arrive mode t lpn size start buffer ds g)
    unfolding raid_event_arrive ServedBy
    raid_event_arrive-ServedBy mode ds g =
        let P = λ (o : ℕ × List D × G). ServedBy mode t lpn size start buffer ds o.1 in
        elim (Bool-cases (mode == 1)) [
          | inl q ↦ rw q (
              Every-bind _ (λ (x : ℕ × List D × G). AllServed t lpn size start buffer 0 ds x.1)
                (stripe t lpn size start buffer 0 ds g) _ (stripe-AllServed 0 ds g)
                λ o k.
                  Every-bind _ (λ (x : ℕ × List D × G). AllServed t lpn size start buffer 0 ds x.1)
                    (fetch o.0 0) _ (Every-trivial _) λ time _. k)
          | inr q ↦ elim (Bool-cases (mode == 2)) [
            | inl r ↦ rw (q, r) (split_served ds g)
            | inr r ↦ rw (q, r) refl
          ]
        ]
