-- ===== src/Mnftl/Reverse/Inverse.antt =====
-- The map from physical pages back to their slots, against the search through the tables.
use mnftl.Base.{
  ℕ, ◌≡◌, refl, sym, ap, ◌∙◌, subst, ◌≢◌, inl, inr, Bool, true, false, ◌&&◌, Option, none, some, [],
  ◌∷◌, arith, ◌==◌, if◌then◌else◌, ==_iff, Bool-cases, Option-cases, Run, ok, abort, ◌>>=◌, Every,
  Every-bind, Every-trivial,
}
use mathlib.Core.Bool.{false≢true}
use mathlib.Core.Option.{some-injective}
use mnftl.Mnftl.Tables.{
  erase_key, Map, find, insert, Pmd, Pmt, Place, scan, relocate, get_slot, put_slot, put_anchor,
}
use mnftl.Mnftl.Tables.Laws.{value, entry, entry-put_slot, find-insert, get_slot-entry}
use mnftl.Mnftl.Tables.Scan.{IsSorted, scan-found, scan-missing, entry-cell}
use mnftl.Mnftl.Reverse.{assign, forget, move_at}

-- The map is the inverse of the tables.
pub record IsInverse (pmt : Pmt) (rmap : Map Place) : Type 0 where
  pub there :
      (p : Place) (ppn : ℕ) → entry p.lbn p.index p.slot pmt ≡ some ppn → find ppn rmap ≡ some p
  pub back :
      (p : Place) (ppn : ℕ) → find ppn rmap ≡ some p → entry p.lbn p.index p.slot pmt ≡ some ppn

without_map :
    {A B X : Type 0} (m : Run A) (n : Run B) (f : A → B → X)
    → (◌>>=◌ {A = B × A × X} (m >>= λ a. n >>= λ b. ok (b, a, f a b)) (λ o. ok (o.0, o.1)))
      ≡ (◌>>=◌ {B = B × A} m (λ a. n >>= λ b. ok (b, a)))
without_map (ok a) (ok b) f = refl
without_map (ok a) abort f = refl
without_map abort n f = refl

find-erase_key :
    {V : Type 0} (k j : ℕ) (m : Map V)
    → find j (erase_key k m) ≡ (if k == j then none else find j m)
unfolding find erase_key
find-erase_key k j [] = ground arith
find-erase_key k j ((i, u) ∷ m) = let rest = find-erase_key k j m in ground arith

module _ (pmt : Pmt) (rmap : Map Place) (sorted : IsSorted pmt) (h : IsInverse pmt rmap) where
  find-scan : (ppn : ℕ) → find ppn rmap ≡ scan ppn pmt
  unfolding get_slot
  find-scan ppn = elim (Option-cases (scan ppn pmt)) [
    | inr (p, q) ↦
        let (ts, known, here) = scan-found ppn p pmt sorted q in
        let was : entry p.lbn p.index p.slot pmt ≡ some ppn = (rw known refl) ∙ ap value here in
        h.there p ppn was ∙ sym q
    | inl q ↦ elim (Option-cases (find ppn rmap)) [
      | inl gone ↦ gone ∙ sym q
      | inr (p, known) ↦
          let (ts, at, here) = entry-cell p.lbn p.index p.slot ppn pmt (h.back p ppn known) in
          absurd (scan-missing ppn pmt q p.lbn ts at p.index p.slot here)
    ]
  ]

  -- When the map back to the slots is the inverse of the tables, and their logical blocks are in the
  -- order of their numbers: the change that mn_ftl_v3.cpp makes of the tables for a page that moves,
  -- at the place that its map gives, is the one that mn_ftl.cpp makes by its search, stops included.
  pub move_at-relocate :
      (old new : ℕ) (pmd : Pmd)
      → (move_at (find old rmap) old new pmd pmt rmap >>= λ o. ok (o.0, o.1))
        ≡ relocate old new pmd pmt
  unfolding move_at relocate
  move_at-relocate old new pmd = elim (Option-cases (scan old pmt)) [
    | inl q ↦ rw (find-scan old, q, relocate) refl
    | inr (p, q) ↦
        rw (find-scan old, q, relocate, move_at)
          (without_map (put_slot p.lbn p.index p.slot (some new) pmt)
            (put_anchor p.lbn p.index (some new) pmd) (λ _ _. insert new p (erase_key old rmap)))
  ]

same_place : Place → Place → Bool
same_place p q = (p.lbn == q.lbn) && (p.index == q.index) && (p.slot == q.slot)

same_place_iff : (p q : Place) → (same_place p q ≡ true) → p ≡ q
unfolding same_place
same_place_iff p q e =
    let l : p.lbn ≡ q.lbn = (==_iff _ _).0 (ground arith) in
    let i : p.index ≡ q.index = (==_iff _ _).0 (ground arith) in
    let s : p.slot ≡ q.slot = (==_iff _ _).0 (ground arith) in rw (l, i, s) refl

-- The tables and the map after a slot got a page that no slot named before.
module _ (pmt : Pmt) (rmap : Map Place) (h : IsInverse pmt rmap) (p : Place) (old : Option ℕ)
    (was : old ≡ entry p.lbn p.index p.slot pmt) where
  find-forget :
      (ppn : ℕ) (q : Place)
      → find ppn (forget old rmap) ≡ some q
      → (find ppn rmap ≡ some q) × (old ≢ some ppn)
  find-forget ppn q e = go old refl
    where
      go : (o : Option ℕ) → old ≡ o → (find ppn rmap ≡ some q) × (old ≢ some ppn)
      go none r = (subst (λ (x : Option ℕ). find ppn (forget x rmap) ≡ some q) r e, λ z. cc)
      go (some k) r =
          let e' : find ppn (erase_key k rmap) ≡ some q =
            subst (λ (x : Option ℕ). find ppn (forget x rmap) ≡ some q) r e in
          elim (Bool-cases (k == ppn)) [
            | inl g ↦
                (let z : find ppn (erase_key k rmap) ≡ none =
                    find-erase_key k ppn rmap ∙ (rw g refl) in
                  cc)
            | inr g ↦ (
              sym (find-erase_key k ppn rmap ∙ (rw g refl)) ∙ e',
              λ z. (let same = (==_iff k ppn).1 (some-injective k ppn (sym r ∙ z)) in ground arith),
            )
          ]

  forget-find :
      (ppn : ℕ) (q : Place)
      → find ppn rmap ≡ some q
      → old ≢ some ppn
      → find ppn (forget old rmap) ≡ some q
  forget-find ppn q e other = go old refl
    where
      go : (o : Option ℕ) → old ≡ o → find ppn (forget old rmap) ≡ some q
      go none r = rw r e
      go (some k) r =
          let apart : (k == ppn) ≡ false = elim (Bool-cases (k == ppn)) [
            | inl g ↦ absurd (other (r ∙ ap some ((==_iff k ppn).0 g)))
            | inr g ↦ g
          ] in
          rw r (find-erase_key k ppn rmap ∙ (rw apart e))

  assigned :
      (new : ℕ) (pmt' : Pmt)
      → find new rmap ≡ none
      → ((lbn i j : ℕ)
          → entry lbn i j pmt' ≡ (
              if (p.lbn == lbn) && (p.index == i) && (p.slot == j)
              then some new
              else entry lbn i j pmt))
      → IsInverse pmt' (insert new p (forget old rmap))
  unfolding same_place
  assigned new pmt' fresh k = record {
    there = λ q ppn e. elim (Bool-cases (same_place p q)) [
      | inl g ↦
          let here : entry q.lbn q.index q.slot pmt' ≡ some new =
            k q.lbn q.index q.slot ∙ (rw g refl) in
          let same : new ≡ ppn = some-injective new ppn (sym here ∙ e) in
          find-insert new ppn p (forget old rmap)
          ∙ (rw ((==_iff new ppn).1 same) (ap some (same_place_iff p q g)))
      | inr g ↦
          let before : entry q.lbn q.index q.slot pmt ≡ some ppn =
            sym (k q.lbn q.index q.slot ∙ (rw g refl)) ∙ e in
          let known : find ppn rmap ≡ some q = h.there q ppn before in
          let apart : (new == ppn) ≡ false = elim (Bool-cases (new == ppn)) [
            | inl s ↦ absurd (
                let z : find ppn rmap ≡ none =
                  subst (λ (n : ℕ). find n rmap ≡ none) ((==_iff new ppn).0 s) fresh in
                cc)
            | inr s ↦ s
          ] in
          let other : old ≢ some ppn = λ z.
            (let mine : find ppn rmap ≡ some p = h.there p ppn (sym was ∙ z) in
              let same : p ≡ q = some-injective p q (sym mine ∙ known) in
              let self : same_place p p ≡ true = (ground arith) in
              absurd (false≢true (sym g ∙ ap (same_place p) (sym same) ∙ self))) in
          find-insert new ppn p (forget old rmap) ∙ (rw apart (forget-find ppn q known other))
    ];
    back = λ q ppn e. elim (Bool-cases (new == ppn)) [
      | inl g ↦
          let same : p ≡ q =
            some-injective p q (sym (find-insert new ppn p (forget old rmap) ∙ (rw g refl)) ∙ e) in
          let self : same_place p p ≡ true = (ground arith) in
          let at_q : same_place p q ≡ true = sym (ap (same_place p) same) ∙ self in
          k q.lbn q.index q.slot ∙ (rw at_q (ap some ((==_iff new ppn).0 g)))
      | inr g ↦
          let (known, other) =
            find-forget ppn q (sym (find-insert new ppn p (forget old rmap) ∙ (rw g refl)) ∙ e) in
          let before : entry q.lbn q.index q.slot pmt ≡ some ppn = h.back q ppn known in
          let apart : same_place p q ≡ false = elim (Bool-cases (same_place p q)) [
            | inl s ↦ absurd (
                other (
                  was
                  ∙ subst (λ (x : Place). entry x.lbn x.index x.slot pmt ≡ some ppn)
                      (sym (same_place_iff p q s)) before))
            | inr s ↦ s
          ] in
          k q.lbn q.index q.slot ∙ (rw apart before)
    ];
  }

-- When the map back to the slots is the inverse of the tables, and does not know the new page: the
-- assignments of the write of mn_ftl_v3.cpp, when they return, leave a map that is the inverse of
-- the tables.
pub assign-IsInverse :
    (p : Place) (new : ℕ) (pmd : Pmd) (pmt : Pmt) (rmap : Map Place)
    → IsInverse pmt rmap
    → find new rmap ≡ none
    → Every (λ o. IsInverse o.1 o.2) (assign p new pmd pmt rmap)
unfolding assign
assign-IsInverse p new pmd pmt rmap h fresh =
    let P = λ (o : Pmd × Pmt × Map Place). IsInverse o.1 o.2 in
    Every-bind _ P (get_slot p.lbn p.index p.slot pmt) _ (get_slot-entry p.lbn p.index p.slot pmt)
      λ old was.
        Every-bind _ P (put_slot p.lbn p.index p.slot (some new) pmt) _
          (entry-put_slot p.lbn p.index p.slot (some new) pmt)
          λ pmt' k.
            Every-bind _ P (put_anchor p.lbn p.index (some new) pmd) _ (Every-trivial _)
              λ pmd' _. assigned pmt rmap h p old was new pmt' fresh k
