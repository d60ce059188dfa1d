-- ===== src/Flash/Wear.antt =====
-- What the classes of the hardware share: the part that an event is passed on to, and the loop of
-- their `update_wear_stats` methods.
pub mod Choice
use mnftl.Base.{
  ℕ, zero, suc, ◌+◌, ◌-◌, ◌*◌, ◌/◌, ◌%◌, ◌^◌, ◌≤◌, ◌<◌, max, ◌≡◌, refl, sym, ap, ◌∙◌, subst, ◌≢◌,
  ◌↔◌, ◌⊎◌, inl, inr, Bool, true, false, not, ◌&&◌, ◌||◌, Option, none, some, List, [], ◌∷◌, ◌++◌,
  map, arith, ltb, leb, ◌==◌, if◌then◌else◌, ltb→lt, lt→ltb, leb→le, le→leb, ==_iff, if_cases,
  Bool-cases, Option-cases, u32, u64, Run, ok, abort, ◌>>=◌, ◌>>◌, assert, or_abort, fetch, length,
  get_elem?, set, replicate, count_if, keep_if, All, length-append, length-set, length-replicate,
  get_elem?-lt, get_elem?_total, get_elem?-set_self, get_elem?-set_ne, get_elem?-replicate,
  count_if-set, count_if-replicate, All_get, All-set,
}
use mnftl.Config.{Status}
use mnftl.Event.{Event}
use mnftl.Flash.Page.{Memory, Outcome}

-- `return data[i].method(event)`
unfoldable pub route {ℓ} : {A : Type ℓ} → ℕ → (A → Outcome A) → List A → Outcome (List A)
route i method parts = do
  part ← fetch parts i
  (s, e, m, part') ← method part
  ok (s, e, m, set parts i part')

-- The loop: `if(data[i].get_erases_remaining() > max) max_index = i;`
pub max_index : ℕ → ℕ → ℕ → List ℕ → ℕ
max_index most index i [] = index
max_index most index i (x ∷ xs) = max_index most (if ltb most x then i else index) (suc i) xs

-- The index that `update_wear_stats` stores as the least worn, and the erases that it stores.
unfoldable pub wear_stats : List ℕ → Run (ℕ × ℕ)
unfolding max_index
wear_stats [] = abort
wear_stats (most ∷ xs) = ok (max_index most 0 1 xs, most)
