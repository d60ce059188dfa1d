-- ===== src/Mnftl/Tables.antt =====
-- The maps of mn_ftl.cpp: `PMD` and `PMT`, from logical block numbers to the anchors and to the
-- tables of their pages. A page number of -1 is `none`.
pub mod Laws
pub mod Shape
pub mod Scan
use mnftl.Base.{
  ℕ, zero, suc, ◌+◌, ◌-◌, ◌*◌, ◌/◌, ◌%◌, ◌^◌, ◌≤◌, ◌<◌, max, ◌≡◌, refl, sym, ap, ◌∙◌, subst, ◌≢◌,
  ◌↔◌, ◌⊎◌, inl, inr, Bool, true, false, not, ◌&&◌, ◌||◌, Option, none, some, List, [], ◌∷◌, ◌++◌,
  map, arith, ltb, leb, ◌==◌, if◌then◌else◌, ltb→lt, lt→ltb, leb→le, le→leb, ==_iff, if_cases,
  Bool-cases, Option-cases, u32, u64, Run, ok, abort, ◌>>=◌, ◌>>◌, assert, or_abort, fetch, length,
  get_elem?, set, replicate, count_if, keep_if, All, length-append, length-set, length-replicate,
  get_elem?-lt, get_elem?_total, get_elem?-set_self, get_elem?-set_ne, get_elem?-replicate,
  count_if-set, count_if-replicate, All_get, All-set,
}

-- `std::map<uint, V>`, in the order of its keys.
abbrev pub Map {ℓ} : Type ℓ → Type ℓ
Map V = List (ℕ × V)

module _ {ℓ} {V : Type ℓ} where
  unfoldable pub find : ℕ → Map V → Option V
  find k [] = none
  find k ((j, v) ∷ m) = if j == k then some v else find k m

  unfoldable pub insert : ℕ → V → Map V → Map V
  insert k v [] = (k, v) ∷ []
  insert k v ((j, u) ∷ m) =
      let rest = insert k v m in
      if j == k then (k, v) ∷ m else if ltb k j then (k, v) ∷ (j, u) ∷ m else (j, u) ∷ rest

  -- `std::map::erase`
  unfoldable pub erase_key : ℕ → Map V → Map V
  erase_key k [] = []
  erase_key k ((j, v) ∷ m) = let rest = erase_key k m in if j == k then rest else (j, v) ∷ rest

  -- `if (m.find(k) == m.end()) m[k] = v;`
  unfoldable pub ensure : ℕ → V → Map V → Map V
  unfolding find insert
  ensure k v m = elim (find k m) [ none ↦ insert k v m | some _ ↦ m ]

abbrev pub Pmd : Type 0
Pmd = Map (List (Option ℕ))

abbrev pub Pmt : Type 0
Pmt = Map (List (List (Option ℕ)))

-- `std::vector<long>(num_pmd, -1)` and `num_pmd` copies of `std::vector<long>(Q, -1)`
abbrev pub new_pmd : ℕ → List (Option ℕ)
new_pmd n = replicate n none

abbrev pub new_pmt : (n q : ℕ) → List (List (Option ℕ))
new_pmt n q = replicate n (replicate q none)

-- `PMD[lbn][index]`, and an assignment to it.
unfoldable pub get_anchor : (lbn index : ℕ) → Pmd → Run (Option ℕ)
unfolding find
get_anchor lbn index m = do anchors ← or_abort (find lbn m); fetch anchors index

unfoldable pub put_anchor : (lbn index : ℕ) → Option ℕ → Pmd → Run Pmd
unfolding find insert
put_anchor lbn index v m = do
  anchors ← or_abort (find lbn m)
  old ← fetch anchors index
  ok (insert lbn (set anchors index v) m)

-- `PMT[lbn][index][slot]`, and an assignment to it.
unfoldable pub get_slot : (lbn index slot : ℕ) → Pmt → Run (Option ℕ)
unfolding find
get_slot lbn index slot m = do
  tables ← or_abort (find lbn m)
  table ← fetch tables index
  fetch table slot

unfoldable pub put_slot : (lbn index slot : ℕ) → Option ℕ → Pmt → Run Pmt
unfolding find insert
put_slot lbn index slot v m = do
  tables ← or_abort (find lbn m)
  table ← fetch tables index
  old ← fetch table slot
  ok (insert lbn (set tables index (set table slot v)) m)

-- The place of a page number in the tables: logical block, index and slot.
pub record Place : Type 0 where
  pub lbn : ℕ
  pub index : ℕ
  pub slot : ℕ

pub holds : ℕ → Option ℕ → Bool
holds ppn none = false
holds ppn (some n) = n == ppn

-- The innermost loop of the scan in `cleanup_block`: the first slot of a table that holds the page.
pub scan_table : ℕ → ℕ → List (Option ℕ) → Option ℕ
unfolding holds
scan_table ppn i [] = none
scan_table ppn i (v ∷ vs) =
    let rest = scan_table ppn (suc i) vs in if holds ppn v then some i else rest

-- The loop over the tables of a logical block.
pub scan_tables : ℕ → ℕ → List (List (Option ℕ)) → Option (ℕ × ℕ)
unfolding scan_table
scan_tables ppn i [] = none
scan_tables ppn i (t ∷ ts) =
    let rest = scan_tables ppn (suc i) ts in
    elim (scan_table ppn 0 t) [ none ↦ rest | some slot ↦ some (i, slot) ]

-- The loop over the logical blocks.
pub scan : ℕ → Pmt → Option Place
unfolding scan_tables
scan ppn [] = none
scan ppn ((lbn, ts) ∷ m) =
    let rest = scan ppn m in
    elim (scan_tables ppn 0 ts) [
      | none ↦ rest
      | some (index, slot) ↦ some (record { lbn = lbn; index = index; slot = slot })
    ]

-- What `cleanup_block` does at the place that the scan finds, if any.
unfoldable pub relocate : (old_ppn new_ppn : ℕ) → Pmd → Pmt → Run (Pmd × Pmt)
unfolding scan put_slot put_anchor
relocate old_ppn new_ppn pmd pmt = elim (scan old_ppn pmt) [
  | none ↦ ok (pmd, pmt)
  | some p ↦ (do
    pmt' ← put_slot p.lbn p.index p.slot (some new_ppn) pmt
    pmd' ← put_anchor p.lbn p.index (some new_ppn) pmd
    ok (pmd', pmt'))
]
