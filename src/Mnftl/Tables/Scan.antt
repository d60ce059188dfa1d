-- ===== src/Mnftl/Tables/Scan.antt =====
-- The search of `cleanup_block` through the tables for a physical page, and what it changes there.
use mnftl.Base.{
  ℕ, zero, suc, ◌+◌, ◌<◌, ◌≡◌, refl, sym, ap, ◌∙◌, subst, ◌≢◌, ◌⊎◌, inl, inr, true, false, ◌&&◌,
  Option, none, some, List, [], ◌∷◌, arith, ltb, ◌==◌, if◌then◌else◌, ltb→lt, ==_iff, if_cases,
  Bool-cases, Option-cases, Run, ok, abort, ◌>>=◌, or_abort, fetch, Every, Every-bind, get_elem?,
  All,
}
use mathlib.Core.Option.{some-injective}
use mnftl.Mnftl.Tables.{
  Map, find, insert, Pmd, Pmt, Place, holds, scan_table, scan_tables, scan, get_slot, put_slot,
  put_anchor, relocate,
}
use mnftl.Mnftl.Tables.Laws.{value, entry, anchor, entry-put_slot, anchor-put_anchor}

holds_iff : (ppn : ℕ) (v : Option ℕ) → (holds ppn v ≡ true) → v ≡ some ppn
unfolding holds
holds_iff ppn none e = cc
holds_iff ppn (some n) e = ap some ((==_iff n ppn).0 e)

holds_not : (ppn : ℕ) (v : Option ℕ) → holds ppn v ≡ false → v ≢ some ppn
unfolding holds
holds_not ppn none e q = cc
holds_not ppn (some n) e q =
    let same : n ≡ ppn = some-injective n ppn q in let z = (==_iff n ppn).1 same in ground arith

-- What a search finds, or that there is nothing to find.
scan_table-found :
    (ppn i s : ℕ) (t : List (Option ℕ))
    → scan_table ppn i t ≡ some s
    → (k : ℕ) × (s ≡ i + k) × (get_elem? t k ≡ some (some ppn))
unfolding scan_table
scan_table-found ppn i s [] e = cc
scan_table-found ppn i s (v ∷ vs) e = elim (Bool-cases (holds ppn v)) [
  | inl h ↦
      let first : scan_table ppn i (v ∷ vs) ≡ some i = rw h refl in
      let same : i ≡ s = some-injective i s (sym first ∙ e) in
      (zero, (omega arith), ap some (holds_iff ppn v h))
  | inr h ↦
      let later : scan_table ppn i (v ∷ vs) ≡ scan_table ppn (suc i) vs = rw h refl in
      let (k, at, q) = scan_table-found ppn (suc i) s vs (sym later ∙ e) in
      (suc k, (omega arith), q)
]

scan_table-missing :
    (ppn i : ℕ) (t : List (Option ℕ))
    → scan_table ppn i t ≡ none
    → (k : ℕ) → get_elem? t k ≢ some (some ppn)
unfolding scan_table
scan_table-missing ppn i [] e k q = cc
scan_table-missing ppn i (v ∷ vs) e k q = elim (Bool-cases (holds ppn v)) [
  | inl h ↦ (let first : scan_table ppn i (v ∷ vs) ≡ some i = rw h refl in cc)
  | inr h ↦
      let later : scan_table ppn i (v ∷ vs) ≡ scan_table ppn (suc i) vs = rw h refl in
      here k q h (scan_table-missing ppn (suc i) vs (sym later ∙ e))
]
  where
    here :
        (k : ℕ)
        → get_elem? (v ∷ vs) k ≡ some (some ppn)
        → holds ppn v ≡ false
        → ((j : ℕ) → get_elem? vs j ≢ some (some ppn))
        → ⊥
    here zero q h rest = holds_not ppn v h (some-injective v (some ppn) q)
    here (suc j) q h rest = rest j q

abbrev pub cell : List (List (Option ℕ)) → (i j : ℕ) → Run (Option ℕ)
cell ts i j = fetch ts i >>= λ t. fetch t j

scan_tables-found :
    (ppn i : ℕ) (o : ℕ × ℕ) (ts : List (List (Option ℕ)))
    → scan_tables ppn i ts ≡ some o
    → (k : ℕ) × (o.0 ≡ i + k) × (cell ts k o.1 ≡ ok (some ppn))
unfolding scan_tables
scan_tables-found ppn i o [] e = cc
scan_tables-found ppn i o (t ∷ ts) e = elim (Option-cases (scan_table ppn 0 t)) [
  | inr (s, h) ↦
      let first : scan_tables ppn i (t ∷ ts) ≡ some (i, s) = rw (h, scan_tables) refl in
      let same : (i, s) ≡ o = some-injective (i, s) o (sym first ∙ e) in
      let (k, at, q) = scan_table-found ppn 0 s t h in
      let slot : o.1 ≡ k = sym (ap (λ (x : ℕ × ℕ). x.1) same) ∙ at ∙ (omega arith) in
      (zero, sym (ap (λ (x : ℕ × ℕ). x.0) same) ∙ (omega arith), ap (fetch t) slot ∙ ap or_abort q)
  | inl h ↦
      let later : scan_tables ppn i (t ∷ ts) ≡ scan_tables ppn (suc i) ts =
        rw (h, scan_tables) refl in
      let (k, at, q) = scan_tables-found ppn (suc i) o ts (sym later ∙ e) in
      (suc k, (omega arith), q)
]

scan_tables-missing :
    (ppn i : ℕ) (ts : List (List (Option ℕ)))
    → scan_tables ppn i ts ≡ none
    → (k j : ℕ) → cell ts k j ≢ ok (some ppn)
unfolding scan_tables
scan_tables-missing ppn i [] e k j q = cc
scan_tables-missing ppn i (t ∷ ts) e k j q = elim (Option-cases (scan_table ppn 0 t)) [
  | inr (s, h) ↦
      (let first : scan_tables ppn i (t ∷ ts) ≡ some (i, s) = rw (h, scan_tables) refl in cc)
  | inl h ↦
      let later : scan_tables ppn i (t ∷ ts) ≡ scan_tables ppn (suc i) ts =
        rw (h, scan_tables) refl in
      here k q h (scan_tables-missing ppn (suc i) ts (sym later ∙ e))
]
  where
    here :
        (k : ℕ)
        → cell (t ∷ ts) k j ≡ ok (some ppn)
        → scan_table ppn 0 t ≡ none
        → ((k j : ℕ) → cell ts k j ≢ ok (some ppn))
        → ⊥
    here zero q h rest = elim (Option-cases (get_elem? t j)) [
      | inl r ↦ (let z : fetch t j ≡ abort = ap or_abort r in cc)
      | inr (v, r) ↦
          let z : fetch t j ≡ ok v = ap or_abort r in
          let same : ok v ≡ ok (some ppn) = sym z ∙ q in
          scan_table-missing ppn 0 t h j (r ∙ ap some (ok_lem v (some ppn) same))
    ]
      where
        ok_lem : (x y : Option ℕ) → ok x ≡ ok y → x ≡ y
        ok_lem x y e = cc
    here (suc k) q h rest = rest k j q

-- The keys of a map stand in their order, so that each is there once.
abbrev pub Above : {V : Type 0} → ℕ → Map V → Type 0
Above k m = All (λ x. k < x.0) m

abbrev pub IsSorted : {V : Type 0} → Map V → Type 0
IsSorted [] = Unit
IsSorted ((k, v) ∷ m) = Above k m × IsSorted m

find-Above : {V : Type 0} (k j : ℕ) (v : V) (m : Map V) → Above k m → find j m ≡ some v → k < j
unfolding find
find-Above k j v [] h e = cc
find-Above k j v ((i, u) ∷ m) h e = elim (Bool-cases (i == j)) [
  | inl q ↦ (let same : i ≡ j = (==_iff i j).0 q in let lt = h.0 in omega arith)
  | inr q ↦
      (let later : find j ((i, u) ∷ m) ≡ find j m = rw q refl in
        find-Above k j v m h.1 (sym later ∙ e))
]

pub scan-found :
    (ppn : ℕ) (p : Place) (m : Pmt)
    → IsSorted m
    → scan ppn m ≡ some p
    → (ts : List (List (Option ℕ))) × (find p.lbn m ≡ some ts)
      × (cell ts p.index p.slot ≡ ok (some ppn))
unfolding scan find
scan-found ppn p [] h e = cc
scan-found ppn p ((k, ts) ∷ m) h e = elim (Option-cases (scan_tables ppn 0 ts)) [
  | inr (o, q) ↦
      let first : scan ppn ((k, ts) ∷ m) ≡ some (record { lbn = k; index = o.0; slot = o.1 }) =
        rw (q, scan) refl in
      let same : record { lbn = k; index = o.0; slot = o.1 } ≡ p =
        some-injective _ p (sym first ∙ e) in
      let (i, at, there) = scan_tables-found ppn 0 o ts q in
      let here : cell ts o.0 o.1 ≡ ok (some ppn) =
        subst (λ (n : ℕ). cell ts n o.1 ≡ ok (some ppn)) (sym (at ∙ (omega arith))) there in
      let known : find k ((k, ts) ∷ m) ≡ some ts = rw ((==_iff k k).1 refl) refl in
      subst
        (λ (x : Place).
          (ts' : List (List (Option ℕ))) × (find x.lbn ((k, ts) ∷ m) ≡ some ts')
          × (cell ts' x.index x.slot ≡ ok (some ppn)))
        same (ts, known, here)
  | inl q ↦
      let later : scan ppn ((k, ts) ∷ m) ≡ scan ppn m = rw (q, scan) refl in
      let (ts', known, here) = scan-found ppn p m h.1 (sym later ∙ e) in
      let apart : (k == p.lbn) ≡ false =
        (let lt = find-Above k p.lbn ts' m h.0 known in ground arith) in
      (ts', (rw apart known), here)
]

pub scan-missing :
    (ppn : ℕ) (m : Pmt)
    → scan ppn m ≡ none
    → (lbn : ℕ) (ts : List (List (Option ℕ))) → find lbn m ≡ some ts
    → (i j : ℕ) → cell ts i j ≢ ok (some ppn)
unfolding scan find
scan-missing ppn [] e lbn ts q i j r = cc
scan-missing ppn ((k, us) ∷ m) e lbn ts q i j r = elim (Option-cases (scan_tables ppn 0 us)) [
  | inr (o, h) ↦
      (let first : scan ppn ((k, us) ∷ m) ≡ some (record { lbn = k; index = o.0; slot = o.1 }) =
          rw (h, scan) refl in
        cc)
  | inl h ↦
      let later : scan ppn ((k, us) ∷ m) ≡ scan ppn m = rw (h, scan) refl in
      elim (Bool-cases (k == lbn)) [
        | inl g ↦
            let same : us ≡ ts = some-injective us ts (sym (rw g refl) ∙ q) in
            scan_tables-missing ppn 0 us h i j
              (subst (λ (x : List (List (Option ℕ))). cell x i j ≡ ok (some ppn)) (sym same) r)
        | inr g ↦
            let rest : find lbn ((k, us) ∷ m) ≡ find lbn m = rw g refl in
            scan-missing ppn m (sym later ∙ e) lbn ts (sym rest ∙ q) i j r
      ]
]

-- What `cleanup_block` does to the tables for a page that moves: if no slot names the old page nothing
-- changes, else one slot that named it names the new page, its anchor too, and no other changes.
abbrev pub Relocated : (old new : ℕ) → Pmd → Pmt → Pmd × Pmt → Type 0
Relocated old new pmd pmt o =
    (((lbn i j : ℕ) → entry lbn i j pmt ≢ some old) × (o ≡ (pmd, pmt)))
    ⊎ ((p : Place) × (entry p.lbn p.index p.slot pmt ≡ some old)
        × ((lbn i j : ℕ)
            → entry lbn i j o.1 ≡ (
                if (p.lbn == lbn) && (p.index == i) && (p.slot == j)
                then some new
                else entry lbn i j pmt))
        × ((lbn i : ℕ)
            → anchor lbn i o.0
              ≡ (if (p.lbn == lbn) && (p.index == i) then some new else anchor lbn i pmd)))

value-some : (m : Run (Option ℕ)) (n : ℕ) → value m ≡ some n → m ≡ ok (some n)
value-some (ok v) n e = ap ok e
value-some abort n e = cc

pub entry-cell :
    (lbn i j n : ℕ) (m : Pmt)
    → entry lbn i j m ≡ some n
    → (ts : List (List (Option ℕ))) × (find lbn m ≡ some ts) × (cell ts i j ≡ ok (some n))
unfolding get_slot
entry-cell lbn i j n m e = elim (Option-cases (find lbn m)) [
  | inl q ↦ (let gone : entry lbn i j m ≡ none = rw q refl in cc)
  | inr (ts, q) ↦ (
    ts,
    q,
    (let here : entry lbn i j m ≡ value (cell ts i j) = rw q refl in
        value-some (cell ts i j) n (sym here ∙ e)),
  )
]

-- On tables whose logical blocks are in the order of their numbers: what `cleanup_block` does to the
-- tables for a page that moves changes nothing if no slot names the old page; else, if it returns,
-- one slot that named the old page names the new one, its anchor too, and every other slot and
-- anchor is as it was.
pub relocate-Relocated :
    (old new : ℕ) (pmd : Pmd) (pmt : Pmt)
    → IsSorted pmt
    → Every (Relocated old new pmd pmt) (relocate old new pmd pmt)
unfolding relocate get_slot
relocate-Relocated old new pmd pmt h = elim (Option-cases (scan old pmt)) [
  | inl q ↦
      rw (q, relocate)
        (inl (
          λ lbn i j e.
              (let (ts, known, here) = entry-cell lbn i j old pmt e in
                scan-missing old pmt q lbn ts known i j here),
          refl,
        ))
  | inr (p, q) ↦
      let (ts, known, here) = scan-found old p pmt h q in
      let was : entry p.lbn p.index p.slot pmt ≡ some old = (rw known refl) ∙ ap value here in
      rw (q, relocate)
        (Every-bind _ (Relocated old new pmd pmt) (put_slot p.lbn p.index p.slot (some new) pmt) _
          (entry-put_slot p.lbn p.index p.slot (some new) pmt)
          λ pmt' k.
            Every-bind _ (Relocated old new pmd pmt) (put_anchor p.lbn p.index (some new) pmd) _
              (anchor-put_anchor p.lbn p.index (some new) pmd) λ pmd' k'. inr (p, was, k, k'))
]

Above-insert :
    {V : Type 0} (k j : ℕ) (v : V) (m : Map V) → k < j → Above k m → Above k (insert j v m)
unfolding insert
Above-insert k j v [] lt h = (lt, tt)
Above-insert k j v ((i, u) ∷ m) lt h =
    let rest = Above-insert k j v m lt h.1 in
    if_cases (Above k) (i == j) (λ _. (lt, h.1))
      λ _. if_cases (Above k) (ltb j i) (λ _. (lt, h)) (λ _. (h.0, rest))

Above-trans : {V : Type 0} (k j : ℕ) (m : Map V) → k < j → Above j m → Above k m
Above-trans k j [] lt h = tt
Above-trans k j (x ∷ m) lt h = ((let z = h.0 in omega arith), Above-trans k j m lt h.1)

-- An assignment to a map keeps the order of its keys.
pub insert-IsSorted :
    {V : Type 0} (k : ℕ) (v : V) (m : Map V) → IsSorted m → IsSorted (insert k v m)
unfolding insert
insert-IsSorted k v [] h = (tt, tt)
insert-IsSorted k v ((i, u) ∷ m) h =
    let rest = insert-IsSorted k v m h.1 in
    elim (Bool-cases (i == k)) [
      | inl q ↦
          let same : i ≡ k = (==_iff i k).0 q in rw q (subst (λ (n : ℕ). Above n m) same h.0, h.1)
      | inr q ↦ elim (Bool-cases (ltb k i)) [
        | inl r ↦ (let lt = ltb→lt k i r in rw (q, r) ((lt, Above-trans k i m lt h.0), h))
        | inr r ↦
            let ne : i ≢ k = λ e. (let z = (==_iff i k).1 e in ground arith) in
            let le : i < k = (let z = r in ground arith) in
            rw (q, r) (Above-insert i k v m le h.0, rest)
      ]
    ]
