-- ===== src/Ssd/Queries.antt =====
-- The queries of ssd_ssd.cpp that the FTL under study does not make, and those of
-- ssd_controller.cpp, which pass on to them.
use mnftl.Base.{
  ℕ, zero, suc, ◌≤◌, ◌≡◌, refl, sym, ◌∙◌, ◌⊎◌, inl, inr, ◌&&◌, Option, none, some, List, [], ◌∷◌,
  arith, ltb, leb, if◌then◌else◌, Bool-cases, Run, ok, ◌>>=◌, ◌>>◌, assert, fetch, get_elem?, All,
}
use mnftl.Config.{Config, BlockState, PageState, rank}
use mnftl.Address.{Address}
use mnftl.Channel.{Channel}
use mnftl.Flash.Package
use mnftl.Ssd
use mnftl.Ssd.{Ssd}

-- `Ssd::get_block_state`, `Ssd::get_num_free` and `Ssd::get_num_invalid`
pub get_block_state : Address → Ssd → Run BlockState
get_block_state a d = do
  assert (ltb a.pkg d.size && leb 1 (rank a.valid))
  p ← fetch d.packages a.pkg
  Package.get_block_state a p

pub get_num_free : Address → Ssd → Run ℕ
get_num_free a d = ok 0

pub get_num_invalid : Address → Ssd → Run ℕ
get_num_invalid a d = do
  assert (leb 1 (rank a.valid))
  p ← fetch d.packages a.pkg
  Package.get_num_invalid a p

-- The queries of the controller assert `address.valid > NONE` first.
abbrev checked {ℓ} : {A : Type ℓ} → (Address → Ssd → Run A) → Address → Ssd → Run A
checked query a d = assert (ltb 0 (rank a.valid)) >> query a d

-- The queries of `Controller`.
pub controller_erases_remaining : Address → Ssd → Run ℕ
controller_erases_remaining = checked Ssd.get_erases_remaining

pub controller_least_worn : Address → Ssd → Run Address
controller_least_worn = checked Ssd.get_least_worn

pub controller_last_erase_time : Address → Ssd → Run ℕ
controller_last_erase_time = checked Ssd.get_last_erase_time

pub controller_state : Address → Ssd → Run PageState
controller_state = checked Ssd.get_state

pub controller_block_state : Address → Ssd → Run BlockState
unfolding get_block_state
controller_block_state = checked get_block_state

pub controller_free_page : Config → Address → Ssd → Run Address
controller_free_page c = checked (Ssd.get_free_page c)

pub controller_num_free : Address → Ssd → Run ℕ
unfolding get_num_free
controller_num_free = checked get_num_free

pub controller_num_valid : Address → Ssd → Run ℕ
controller_num_valid = checked Ssd.get_num_valid

pub controller_num_invalid : Address → Ssd → Run ℕ
unfolding get_num_invalid
controller_num_invalid = checked get_num_invalid

-- The loop of `Ssd::ready_at`: `none` for the -1 of a channel not yet used, and for the largest double.
abbrev sooner : Option ℕ → Option ℕ → Option ℕ
sooner none best = best
sooner (some t) none = some t
sooner (some t) (some best) = some (if ltb t best then t else best)

soonest : Option ℕ → List Channel → Option ℕ
soonest best [] = best
soonest best (ch ∷ chs) = soonest (sooner ch.ready_at best) chs

-- `Ssd::ready_at`
pub ready_at : Ssd → Option ℕ
unfolding soonest
ready_at d = soonest none d.bus.channels

-- A time is at most another, where the other is a time.
abbrev pub NotAfter : Option ℕ → Option ℕ → Type 0
NotAfter r none = Unit
NotAfter none (some t) = ⊥
NotAfter (some s) (some t) = s ≤ t

NotAfter-trans : (r s t : Option ℕ) → NotAfter r s → NotAfter s t → NotAfter r t
NotAfter-trans r s none p q = tt
NotAfter-trans r none (some t) p q = absurd q
NotAfter-trans none (some s) (some t) p q = absurd p
NotAfter-trans (some r) (some s) (some t) p q = omega arith

sooner-NotAfter : (t best : Option ℕ) → NotAfter (sooner t best) t × NotAfter (sooner t best) best
sooner-NotAfter none none = (tt, tt)
sooner-NotAfter none (some b) = (tt, omega arith)
sooner-NotAfter (some t) none = (omega arith, tt)
sooner-NotAfter (some t) (some b) = (ground arith, ground arith)

soonest-NotAfter :
    (best : Option ℕ) (chs : List Channel)
    → NotAfter (soonest best chs) best
      × All (λ (ch : Channel). NotAfter (soonest best chs) ch.ready_at) chs
unfolding soonest
soonest-NotAfter none [] = (tt, tt)
soonest-NotAfter (some b) [] = (omega arith, tt)
soonest-NotAfter best (ch ∷ chs) =
    let (p, q) = sooner-NotAfter ch.ready_at best in
    let (r, rest) = soonest-NotAfter (sooner ch.ready_at best) chs in
    let end = soonest (sooner ch.ready_at best) chs in
    let step = sooner ch.ready_at best in
    (NotAfter-trans end step best r q, (NotAfter-trans end step ch.ready_at r p, rest))

sooner_either : (t best : Option ℕ) → (sooner t best ≡ t) ⊎ (sooner t best ≡ best)
sooner_either none best = inr refl
sooner_either (some t) none = inl refl
sooner_either (some t) (some b) = elim (Bool-cases (ltb t b)) [
  | inl q ↦ inl (rw q refl)
  | inr q ↦ inr (rw q refl)
]

-- A channel of a list that is ready at a time.
abbrev pub ReadyAt : Option ℕ → List Channel → Type 0
ReadyAt t chs = (i : ℕ) × (ch : Channel) × (get_elem? chs i ≡ some ch) × (ch.ready_at ≡ t)

soonest-ReadyAt :
    (best : Option ℕ) (chs : List Channel)
    → (soonest best chs ≡ best) ⊎ ReadyAt (soonest best chs) chs
unfolding soonest
soonest-ReadyAt best [] = inl refl
soonest-ReadyAt best (ch ∷ chs) = elim (soonest-ReadyAt (sooner ch.ready_at best) chs) [
  | inr (i, c, q, t) ↦ inr (suc i, c, q, t)
  | inl e ↦ elim (sooner_either ch.ready_at best) [
    | inl s ↦ inr (zero, ch, refl, sym (e ∙ s))
    | inr s ↦ inl (e ∙ s)
  ]
]

-- `Ssd::ready_at` returns the time at which a channel is ready, and no channel that was used is ready
-- sooner; it returns -1 where no channel was used. This is the soonest of the times, not the latest.
pub ready_at-ReadyAt :
    (d : Ssd)
    → All (λ (ch : Channel). NotAfter (ready_at d) ch.ready_at) d.bus.channels
      × ((ready_at d ≡ none) ⊎ ReadyAt (ready_at d) d.bus.channels)
unfolding ready_at
ready_at-ReadyAt d = ((soonest-NotAfter none d.bus.channels).1, soonest-ReadyAt none d.bus.channels)
