-- ===== src/Flash/Effect.antt =====
-- What an operation of the hardware may change, at every level alike: it goes through with a later
-- event, a given memory, and every page that was in use still in use.
use mnftl.Base.{
  ℕ, zero, suc, ◌≡◌, refl, sym, ap, ◌∙◌, subst, inl, inr, false, some, List, [], ◌∷◌, Option-cases,
  Run, ok, abort, ◌>>=◌, fetch, Every, Every-bind, get_elem?, set, get_elem?-lt, get_elem?-set_self,
}
use mathlib.Core.Option.{some-injective}
use mnftl.Config.{PageState, Status, success}
use mnftl.Address.{Address}
use mnftl.Event.{Event, Later}
use mnftl.Flash.Page.{Memory, Outcome, is_empty}
use mnftl.Flash.Wear.{route}

-- A page is there, and not empty.
abbrev pub IsUsed : Run PageState → Type 0
IsUsed (ok s) = is_empty s ≡ false
IsUsed abort = ⊥

-- How the page of an address is found in a part of the hardware.
abbrev pub View {ℓ} : Type ℓ → Type ℓ
View A = Address → A → Run PageState

-- The view of an array of parts: the part that a field of the address names.
abbrev pub within {ℓ} : {A : Type ℓ} → (Address → ℕ) → View A → View (List A)
within field view a parts = fetch parts (field a) >>= view a

pub record Effect {A : Type 0} (view : View A) (e : Event) (expected : Memory) (x : A)
    (o : Status × Event × Memory × A) : Type 0 where
  pub done : o.0 ≡ success
  pub later : Later e o.1
  pub memory : o.2 ≡ expected
  pub kept : (a : Address) → IsUsed (view a x) → IsUsed (view a o.3)

-- Of a write besides: its page was empty, and is no longer.
pub record Target {A : Type 0} (view : View A) (a : Address) (x y : A) : Type 0 where
  pub fresh : ¬ IsUsed (view a x)
  pub now : IsUsed (view a y)

pub within-set :
    {A : Type 0} (view : A → Run PageState) (parts : List A) (i j : ℕ) {p : A} (q : A)
    → get_elem? parts i ≡ some p
    → (IsUsed (view p) → IsUsed (view q))
    → IsUsed (fetch parts j >>= view)
    → IsUsed (fetch (set parts i q) j >>= view)
within-set view [] i j q h k u = u
within-set view (x ∷ xs) zero zero q h k u =
    k (subst (λ y. IsUsed (view y)) (some-injective _ _ h) u)
within-set view (x ∷ xs) zero (suc j) q h k u = u
within-set view (x ∷ xs) (suc i) zero q h k u = u
within-set view (x ∷ xs) (suc i) (suc j) q h k u = within-set view xs i j q h k u

pub within-same :
    {A : Type 0} (view : A → Run PageState) (parts : List A) (i j : ℕ) {p : A} (q : A)
    → get_elem? parts i ≡ some p
    → view q ≡ view p
    → (fetch (set parts i q) j >>= view) ≡ (fetch parts j >>= view)
within-same view [] i j q h k = refl
within-same view (x ∷ xs) zero zero q h k = k ∙ sym (ap view (some-injective _ _ h))
within-same view (x ∷ xs) zero (suc j) q h k = refl
within-same view (x ∷ xs) (suc i) zero q h k = refl
within-same view (x ∷ xs) (suc i) (suc j) q h k = within-same view xs i j q h k

module _ {A : Type 0} (view : View A) (field : Address → ℕ) (e : Event) (expected : Memory)
    (method : A → Outcome A) where
  pub route-Effect :
      ((p : A) → Every (Effect view e expected p) (method p))
      → (i : ℕ) (parts : List A)
      → Every (Effect (within field view) e expected parts) (route i method parts)
  unfolding route
  route-Effect h i parts = elim (Option-cases (get_elem? parts i)) [
    | inl q ↦ rw q tt
    | inr (p, q) ↦ rw q (
        Every-bind (Effect view e expected p) (Effect (within field view) e expected parts)
          (method p) _ (h p)
          λ o k. record {
            done = k.done;
            later = k.later;
            memory = k.memory;
            kept = λ a. within-set (view a) parts i (field a) o.3 q (k.kept a);
          })
  ]

  pub route-Target :
      (a : Address)
      → ((p : A) → Every (λ o. Target view a p o.3) (method p))
      → (parts : List A)
      → Every (λ o. Target (within field view) a parts o.3) (route (field a) method parts)
  unfolding route
  route-Target a h parts = elim (Option-cases (get_elem? parts (field a))) [
    | inl q ↦ rw q tt
    | inr (p, q) ↦ rw q (
        Every-bind (λ o. Target view a p o.3) (λ o. Target (within field view) a parts o.3)
          (method p) _ (h p)
          λ o k. record {
            fresh = rw q k.fresh;
            now =
                rw (get_elem?-set_self parts (field a) o.3 (get_elem?-lt parts (field a) q)) k.now;
          })
  ]
