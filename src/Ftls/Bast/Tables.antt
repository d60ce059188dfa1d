-- ===== src/Ftls/Bast/Tables.antt =====
-- The map of the log blocks of BAST: its size, and what holds of each log block.
use mnftl.Base.{
  ℕ, zero, suc, ◌≤◌, ◌≡◌, refl, sym, ap, ◌∙◌, subst, ◌≢◌, inl, inr, true, none, some, [], ◌∷◌,
  arith, ltb, ◌==◌, ==_iff, if_cases, Bool-cases, length, get_elem?, All,
}
use mathlib.Core.Option.{some-injective}
use mnftl.Mnftl.Tables.{erase_key, Map, find, insert}
use mnftl.Ftls.Bast.{update}

module _ {V : Type 0} where
  pub length-insert : (k : ℕ) (v : V) (m : Map V) → length (insert k v m) ≤ suc (length m)
  unfolding insert
  length-insert k v [] = omega arith
  length-insert k v ((j, u) ∷ m) = let rest = length-insert k v m in ground arith

  pub length-update : (k : ℕ) (v : V) (m : Map V) → length (update k v m) ≡ length m
  unfolding update
  length-update k v [] = refl
  length-update k v ((j, u) ∷ m) = let rest = length-update k v m in ground arith

  pub length-erase_key : (k : ℕ) (m : Map V) → length (erase_key k m) ≤ length m
  unfolding erase_key
  length-erase_key k [] = omega arith
  length-erase_key k ((j, u) ∷ m) = let rest = length-erase_key k m in ground arith

  pub length-erase_known :
      (k : ℕ) (m : Map V) → find k m ≢ none → suc (length (erase_key k m)) ≤ length m
  unfolding erase_key find
  length-erase_known k [] h = absurd (h refl)
  length-erase_known k ((j, u) ∷ m) h =
      let rest = length-erase_known k m in let small = length-erase_key k m in ground arith

  -- The key of an element is known.
  pub get_elem?-known :
      (m : Map V) (i k : ℕ) (v : V) → get_elem? m i ≡ some (k, v) → find k m ≢ none
  unfolding find
  get_elem?-known [] i k v e g = cc
  get_elem?-known ((j, u) ∷ m) zero k v e g =
      let key : (j == k) ≡ true =
        (==_iff j k).1 (ap (λ (x : ℕ × V). x.0) (some-injective (j, u) (k, v) e)) in
      absurd (let z = g in ground arith)
  get_elem?-known ((j, u) ∷ m) (suc i) k v e g =
      let rest = get_elem?-known m i k v e in ground arith

  module _ (P : V → Type 0) where
    abbrev pub Values : Map V → Type 0
    Values m = All (λ (x : ℕ × V). P x.1) m

    pub Values-insert : (k : ℕ) (v : V) (m : Map V) → P v → Values m → Values (insert k v m)
    unfolding insert
    Values-insert k v [] p h = (p, tt)
    Values-insert k v ((j, u) ∷ m) p h =
        let rest = Values-insert k v m p h.1 in
        if_cases Values (j == k) (λ _. (p, h.1))
          λ _. if_cases Values (ltb k j) (λ _. (p, h)) (λ _. (h.0, rest))

    pub Values-update : (k : ℕ) (v : V) (m : Map V) → P v → Values m → Values (update k v m)
    unfolding update
    Values-update k v [] p h = tt
    Values-update k v ((j, u) ∷ m) p h =
        let rest = Values-update k v m p h.1 in
        if_cases Values (j == k) (λ _. (p, h.1)) (λ _. (h.0, rest))

    pub Values-erase_key : (k : ℕ) (m : Map V) → Values m → Values (erase_key k m)
    unfolding erase_key
    Values-erase_key k [] h = tt
    Values-erase_key k ((j, u) ∷ m) h =
        let rest = Values-erase_key k m h.1 in
        if_cases Values (j == k) (λ _. rest) (λ _. (h.0, rest))

    pub Values-find : (k : ℕ) (v : V) (m : Map V) → Values m → find k m ≡ some v → P v
    unfolding find
    Values-find k v [] h e = cc
    Values-find k v ((j, u) ∷ m) h e = elim (Bool-cases (j == k)) [
      | inl q ↦ subst P (some-injective _ _ (sym (rw q refl) ∙ e)) h.0
      | inr q ↦ Values-find k v m h.1 (sym (rw q refl) ∙ e)
    ]
