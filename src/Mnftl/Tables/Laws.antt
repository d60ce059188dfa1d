-- ===== src/Mnftl/Tables/Laws.antt =====
-- The tables of mn_ftl.cpp as functions: what each operation does to every entry.
use mnftl.Base.{
  ℕ, zero, suc, ◌≡◌, ◌∙◌, ap, refl, ◌⊎◌, inl, inr, false, ◌&&◌, Option, none, some, List, [], ◌∷◌,
  arith, ltb, ◌==◌, if◌then◌else◌, Option-cases, Run, ok, abort, ◌>>=◌, fetch, Every, Every-fetch,
  length, get_elem?, set, replicate, get_elem?-lt, get_elem?-set,
}
use mnftl.Mnftl.Tables.{
  Map, find, insert, ensure, Pmd, Pmt, new_pmd, new_pmt, get_anchor, put_anchor, get_slot, put_slot,
}

-- The value of an entry; one that is not there maps nothing, as one of -1.
abbrev pub value : Run (Option ℕ) → Option ℕ
value (ok v) = v
value abort = none

abbrev pub entry : (lbn index slot : ℕ) → Pmt → Option ℕ
entry lbn index slot m = value (get_slot lbn index slot m)

abbrev pub anchor : (lbn index : ℕ) → Pmd → Option ℕ
anchor lbn index m = value (get_anchor lbn index m)

module _ {ℓ} {V : Type ℓ} where
  pub find-insert :
      (k j : ℕ) (v : V) (m : Map V) → find j (insert k v m) ≡ (if k == j then some v else find j m)
  unfolding find insert
  find-insert k j v [] = refl
  find-insert k j v ((i, u) ∷ m) = ground (arith, find-insert k j v m)

  pub find-ensure :
      (k j : ℕ) (v : V) (m : Map V)
      → (find j (ensure k v m) ≡ find j m)
        ⊎ ((k ≡ j) × (find j m ≡ none) × (find j (ensure k v m) ≡ some v))
  unfolding ensure
  find-ensure k j v m = ground (arith, find-insert k j v m)

-- A block is known after `ensure`.
module _ {ℓ} {V : Type ℓ} where
  ensure_new : (k : ℕ) (v : V) (m : Map V) → find k m ≡ none → ensure k v m ≡ insert k v m
  unfolding ensure
  ensure_new k v m e = rw (e, ensure) refl

  ensure_old : (k : ℕ) (v u : V) (m : Map V) → find k m ≡ some u → ensure k v m ≡ m
  unfolding ensure
  ensure_old k v u m e = rw (e, ensure) refl

  pub find-ensure_self : (k : ℕ) (v : V) (m : Map V) → (u : V) × (find k (ensure k v m) ≡ some u)
  find-ensure_self k v m = elim (Option-cases (find k m)) [
    | inl e ↦ (v, ap (find k) (ensure_new k v m e) ∙ find-insert k k v m ∙ (ground arith))
    | inr (u, e) ↦ (u, ap (find k) (ensure_old k v u m e) ∙ e)
  ]

value_of : (m : Run (Option ℕ)) → Every (λ v. v ≡ value m) m
value_of (ok v) = refl
value_of abort = tt

-- `get_slot` and `get_anchor` read the entries.
pub get_slot-entry :
    (lbn index slot : ℕ) (m : Pmt)
    → Every (λ v. v ≡ entry lbn index slot m) (get_slot lbn index slot m)
get_slot-entry lbn index slot m = value_of (get_slot lbn index slot m)

pub get_anchor-anchor :
    (lbn index : ℕ) (m : Pmd) → Every (λ v. v ≡ anchor lbn index m) (get_anchor lbn index m)
get_anchor-anchor lbn index m = value_of (get_anchor lbn index m)

new_pmt_entry : (n q i j : ℕ) → value (fetch (new_pmt n q) i >>= λ t. fetch t j) ≡ none
new_pmt_entry zero q i j = refl
new_pmt_entry (suc n) q zero j = empty_row q j
  where
    empty_row : (q j : ℕ) → value (fetch (replicate q none) j) ≡ none
    empty_row zero j = refl
    empty_row (suc q) zero = refl
    empty_row (suc q) (suc j) = empty_row q j
new_pmt_entry (suc n) q (suc i) j = new_pmt_entry n q i j

new_pmd_entry : (n i : ℕ) → value (fetch (new_pmd n) i) ≡ none
new_pmd_entry zero i = refl
new_pmd_entry (suc n) zero = refl
new_pmd_entry (suc n) (suc i) = new_pmd_entry n i

-- New tables map nothing.
pub entry-ensure :
    (lbn n q lbn' i j : ℕ) (m : Pmt)
    → entry lbn' i j (ensure lbn (new_pmt n q) m) ≡ entry lbn' i j m
unfolding get_slot
entry-ensure lbn n q lbn' i j m = elim (find-ensure lbn lbn' (new_pmt n q) m) [
  | inl e ↦ rw e
  | inr (_, before, after) ↦ rw (before, after) (new_pmt_entry n q i j)
]

pub anchor-ensure :
    (lbn n lbn' i : ℕ) (m : Pmd) → anchor lbn' i (ensure lbn (new_pmd n) m) ≡ anchor lbn' i m
unfolding get_anchor
anchor-ensure lbn n lbn' i m = elim (find-ensure lbn lbn' (new_pmd n) m) [
  | inl e ↦ rw e
  | inr (_, before, after) ↦ rw (before, after) (new_pmd_entry n i)
]

-- An assignment changes the entry that it names, and no other.
pub entry-put_slot :
    (lbn i j : ℕ) (v : Option ℕ) (m : Pmt)
    → Every
        (λ m'.
          (lbn' i' j' : ℕ)
          → entry lbn' i' j' m'
            ≡ (if (lbn == lbn') && (i == i') && (j == j') then v else entry lbn' i' j' m))
        (put_slot lbn i j v m)
unfolding put_slot get_slot
entry-put_slot lbn i j v m = elim (Option-cases (find lbn m)) [
  | inl e ↦ rw e tt
  | inr (tables, e) ↦ rw e (
      Every-fetch _ tables i _ λ table t. Every-fetch _ table j _ λ old o. λ lbn' i' j'. ground (
        arith,
        find-insert lbn lbn' (set tables i (set table j v)) m,
        get_elem?-set tables i i' (set table j v) t,
        get_elem?-set table j j' v o,
      ))
]

pub anchor-put_anchor :
    (lbn i : ℕ) (v : Option ℕ) (m : Pmd)
    → Every
        (λ m'.
          (lbn' i' : ℕ)
          → anchor lbn' i' m' ≡ (if (lbn == lbn') && (i == i') then v else anchor lbn' i' m))
        (put_anchor lbn i v m)
unfolding put_anchor get_anchor
anchor-put_anchor lbn i v m = elim (Option-cases (find lbn m)) [
  | inl e ↦ rw e tt
  | inr (anchors, e) ↦ rw e (
      Every-fetch _ anchors i _ λ old o. λ lbn' i'.
        ground (arith, find-insert lbn lbn' (set anchors i v) m, get_elem?-set anchors i i' v o))
]

-- What the tables hold of a logical block that they do not know, and beyond the end of its anchors.
pub anchor_missing : (lbn i : ℕ) (m : Pmd) → find lbn m ≡ none → anchor lbn i m ≡ none
unfolding get_anchor
anchor_missing lbn i m q = rw q refl

pub anchor_short :
    (lbn i : ℕ) (m : Pmd) (anchors : List (Option ℕ))
    → find lbn m ≡ some anchors
    → ltb i (length anchors) ≡ false
    → anchor lbn i m ≡ none
unfolding get_anchor
anchor_short lbn i m anchors q e = rw q (elim (Option-cases (get_elem? anchors i)) [
  | inl o ↦ rw o refl
  | inr (x, o) ↦ absurd (let below = get_elem?-lt anchors i o in ground arith)
])

pub fetch-anchor :
    (lbn i : ℕ) (m : Pmd) (anchors : List (Option ℕ))
    → find lbn m ≡ some anchors
    → Every (λ v. v ≡ anchor lbn i m) (fetch anchors i)
unfolding get_anchor
fetch-anchor lbn i m anchors q = rw q (value_of (fetch anchors i))

pub entry_nil : (lbn i j : ℕ) → entry lbn i j [] ≡ none
unfolding get_slot find
entry_nil lbn i j = refl
