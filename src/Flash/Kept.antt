-- ===== src/Flash/Kept.antt =====
-- What an operation of the hardware keeps, at every level alike: the shape of a part, and for the
-- block of each address the number of pages that were written since its last erase.
use mnftl.Base.{
  ℕ, ◌+◌, ◌<◌, ◌≡◌, refl, sym, ap, ◌∙◌, ◌≢◌, inl, inr, Bool, ◌&&◌, some, List, [], ◌∷◌, arith, ◌==◌,
  if◌then◌else◌, ==_iff, Bool-cases, Run, ok, abort, ◌>>=◌, fetch, Returns, Returns-bind,
  Returns-fetch, length, get_elem?, set, All, length-set, get_elem?-lt, get_elem?_total,
  get_elem?-set_self, get_elem?-set_ne, All_get, All-set,
}
use mnftl.Config.{Config, Status}
use mnftl.Event.{Event}
use mnftl.Address.{Address}
use mnftl.Address.Linear.{InRange}
use mnftl.Flash.Page.{Outcome, Memory}
use mnftl.Flash.Wear.{route}

-- The count that a part keeps for an address.
abbrev pub Count {ℓ} : Type ℓ → Type ℓ
Count A = Address → A → Run ℕ

abbrev pub raise : ℕ → Run ℕ → Run ℕ
raise k r = r >>= λ n. ok (n + k)

pub raise_zero : (r : Run ℕ) → raise 0 r ≡ r
raise_zero (ok n) = ap ok (omega arith)
raise_zero abort = refl

abbrev pub count_within : {A : Type 0} → (Address → ℕ) → Count A → Count (List A)
count_within field count a parts = fetch parts (field a) >>= count a

-- The shape is kept, and the counts of the addresses of one block rise by `k`.
pub record Kept {A : Type 0} (Shape : A → Type 0) (count : Count A) (same : Address → Bool) (k : ℕ)
    (x y : A) : Type 0 where
  pub shaped : Shape y
  pub counts : (a : Address) → count a y ≡ raise (if same a then k else 0) (count a x)

-- An array of `n` parts.
abbrev pub IsArray : {A : Type 0} → (A → Type 0) → ℕ → List A → Type 0
IsArray Shape n parts = (length parts ≡ n) × All Shape parts

pub part_at :
    {A : Type 0} (Shape : A → Type 0) (n i : ℕ) (parts : List A)
    → IsArray Shape n parts
    → i < n
    → (p : A) × (get_elem? parts i ≡ some p) × Shape p
part_at Shape n i parts h lt =
    let (p, q) = get_elem?_total parts i (let z = h.0 in omega arith) in
    (p, q, All_get Shape parts i h.1 q)

module _ {A : Type 0} (Shape : A → Type 0) (count : Count A) (field : Address → ℕ)
    (same : Address → Bool) (k n i : ℕ) (parts : List A) (p : A) (h : IsArray Shape n parts)
    (q : get_elem? parts i ≡ some p) where
  -- An array after an operation on one of its parts.
  pub set-Kept :
      (p' : A)
      → Kept Shape count same k p p'
      → Kept
          (IsArray Shape n)
          (count_within field count)
          (λ a. (field a == i) && same a)
          k
          parts
          (set parts i p')
  set-Kept p' r = record {
    shaped = (length-set parts i p' ∙ h.0, All-set Shape parts i p' h.1 r.shaped);
    counts = λ a. elim (Bool-cases (field a == i)) [
      | inl e ↦
          let here : field a ≡ i = (==_iff (field a) i).0 e in
          rw (e, here, q, get_elem?-set_self parts i p' (get_elem?-lt parts i q)) (r.counts a)
      | inr e ↦
          let there : i ≢ field a = λ g. ground arith in
          rw (e, get_elem?-set_ne parts i (field a) p' there) (sym (raise_zero _))
    ];
  }

  pub route-Kept :
      (method : A → Outcome A)
      → Returns (λ o. Kept Shape count same k p o.3) (method p)
      → Returns
          (λ o.
            Kept
              (IsArray Shape n)
              (count_within field count)
              (λ a. (field a == i) && same a)
              k
              parts
              o.3)
          (route i method parts)
  unfolding route
  route-Kept method r =
      let P = λ (o : Status × Event × Memory × List A).
        Kept (IsArray Shape n) (count_within field count) (λ a. (field a == i) && same a) k parts
          o.3 in
      Returns-fetch P parts i _ p q (
        Returns-bind (λ (o : Status × Event × Memory × A). Kept Shape count same k p o.3) P
          (method p) _ r λ o g. set-Kept o.3 g)

-- A part as its constructor leaves it: well shaped, and nothing was written.
abbrev pub IsNew : Config → {A : Type 0} → (A → Type 0) → Count A → A → Type 0
IsNew c Shape count x = Shape x × ((a : Address) → InRange c a → count a x ≡ ok 0)

All-shapes :
    {A : Type 0} (P Q : A → Type 0) (xs : List A) → ((x : A) → P x → Q x) → All P xs → All Q xs
All-shapes P Q [] h k = tt
All-shapes P Q (x ∷ xs) h k = (h x k.0, All-shapes P Q xs h k.1)

pub IsArray-IsNew :
    (c : Config) {A : Type 0} (Shape : A → Type 0) (count : Count A) (field : Address → ℕ) (n : ℕ)
    (parts : List A)
    → length parts ≡ n
    → All (IsNew c Shape count) parts
    → ((a : Address) → InRange c a → field a < n)
    → IsNew c (IsArray Shape n) (count_within field count) parts
IsArray-IsNew c Shape count field n parts l h inside = (
  (l, All-shapes (IsNew c Shape count) Shape parts (λ x k. k.0) h),
  λ a lt.
      let (p, q) = get_elem?_total parts (field a) (let z = inside a lt in omega arith) in
      (rw q refl) ∙ (All_get (IsNew c Shape count) parts (field a) h q).1 a lt,
)
