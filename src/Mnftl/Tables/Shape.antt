-- ===== src/Mnftl/Tables/Shape.antt =====
-- The sizes of the tables of mn_ftl.cpp, and when the accesses of an entry return.
use mathlib.Core.Option.{some-injective}
use mnftl.Base.{
  ℕ, zero, suc, ◌<◌, ◌≡◌, refl, sym, ◌∙◌, subst, ◌≢◌, inl, inr, Option, none, some, List, [], arith,
  ◌==◌, ==_iff, Bool-cases, Returns, length, get_elem?, set, replicate, All, length-set,
  length-replicate, get_elem?_total, All_get, All-set,
}
use mnftl.Mnftl.Tables.{
  find, insert, ensure, Pmd, Pmt, new_pmd, new_pmt, get_anchor, put_anchor, get_slot, put_slot,
}
use mnftl.Mnftl.Tables.Laws.{find-insert, find-ensure, find-ensure_self}

abbrev pub IsTables : (n q : ℕ) → List (List (Option ℕ)) → Type 0
IsTables n q ts = (length ts ≡ n) × All (λ t. length t ≡ q) ts

-- Each block that is known has `n` anchors and `n` tables of `q` entries.
pub record IsShaped (n q : ℕ) (pmd : Pmd) (pmt : Pmt) : Type 0 where
  pub anchors : (lbn : ℕ) (xs : List (Option ℕ)) → find lbn pmd ≡ some xs → length xs ≡ n
  pub tables : (lbn : ℕ) (ts : List (List (Option ℕ))) → find lbn pmt ≡ some ts → IsTables n q ts
  pub both : (lbn : ℕ) (xs : List (Option ℕ)) → find lbn pmd ≡ some xs → find lbn pmt ≢ none

pub IsShaped-nil : (n q : ℕ) → IsShaped n q [] []
unfolding find
IsShaped-nil n q = record {
  anchors = λ lbn xs e. cc;
  tables = λ lbn ts e. cc;
  both = λ lbn xs e. cc;
}

new_pmt-IsTables : (n q : ℕ) → IsTables n q (new_pmt n q)
new_pmt-IsTables n q = (length-replicate n (replicate q none), rows n)
  where
    rows : (n : ℕ) → All (λ (t : List (Option ℕ)). length t ≡ q) (replicate n (replicate q none))
    rows zero = tt
    rows (suc n) = (length-replicate q none, rows n)

module _ (n q : ℕ) (pmd : Pmd) (pmt : Pmt) (h : IsShaped n q pmd pmt) where
  -- New tables have the sizes, and the block is known to both maps then.
  pub ensure-IsShaped :
      (lbn : ℕ) → IsShaped n q (ensure lbn (new_pmd n) pmd) (ensure lbn (new_pmt n q) pmt)
  ensure-IsShaped lbn = record {
    anchors = λ k xs e. elim (find-ensure lbn k (new_pmd n) pmd) [
      | inl same ↦ h.anchors k xs (sym same ∙ e)
      | inr (_, _, new) ↦
          subst (λ (ys : List (Option ℕ)). length ys ≡ n) (some-injective _ _ (sym new ∙ e))
            (length-replicate n none)
    ];
    tables = λ k ts e. elim (find-ensure lbn k (new_pmt n q) pmt) [
      | inl same ↦ h.tables k ts (sym same ∙ e)
      | inr (_, _, new) ↦
          subst (IsTables n q) (some-injective _ _ (sym new ∙ e)) (new_pmt-IsTables n q)
    ];
    both = λ k xs e gone. elim (find-ensure lbn k (new_pmt n q) pmt) [
      | inr (_, _, new) ↦ cc
      | inl same ↦ elim (find-ensure lbn k (new_pmd n) pmd) [
        | inl old ↦ h.both k xs (sym old ∙ e) (sym same ∙ gone)
        | inr (here, _, _) ↦
            (let (ts, known) = find-ensure_self lbn (new_pmt n q) pmt in
              let t : find k (ensure lbn (new_pmt n q) pmt) ≡ some ts = rw (← here) known in cc)
      ]
    ];
  }

  anchors_at :
      (lbn i : ℕ) (xs : List (Option ℕ))
      → find lbn pmd ≡ some xs
      → i < n
      → (v : Option ℕ) × (get_elem? xs i ≡ some v)
  anchors_at lbn i xs e lt = get_elem?_total xs i (let z = h.anchors lbn xs e in omega arith)

  pub get_anchor-Returns :
      (lbn i : ℕ) (xs : List (Option ℕ))
      → find lbn pmd ≡ some xs
      → i < n
      → Returns (λ _. Unit) (get_anchor lbn i pmd)
  unfolding get_anchor
  get_anchor-Returns lbn i xs e lt = let (v, q) = anchors_at lbn i xs e lt in rw (e, q) tt

  -- An assignment to an anchor keeps the sizes.
  pub put_anchor-Returns :
      (lbn i : ℕ) (v : Option ℕ) (xs : List (Option ℕ))
      → find lbn pmd ≡ some xs
      → find lbn pmt ≢ none
      → i < n
      → Returns (λ pmd'. IsShaped n q pmd' pmt) (put_anchor lbn i v pmd)
  unfolding put_anchor
  put_anchor-Returns lbn i v xs e known lt =
      let (old, g) = anchors_at lbn i xs e lt in
      rw (e, g)
        (record {
          anchors = λ k ys f. elim (Bool-cases (lbn == k)) [
            | inl same ↦
                let now : find k (insert lbn (set xs i v) pmd) ≡ some (set xs i v) =
                  find-insert lbn k (set xs i v) pmd ∙ (rw same refl) in
                subst (λ (zs : List (Option ℕ)). length zs ≡ n) (some-injective _ _ (sym now ∙ f))
                  (length-set xs i v ∙ h.anchors lbn xs e)
            | inr other ↦
                let old_one : find k (insert lbn (set xs i v) pmd) ≡ find k pmd =
                  find-insert lbn k (set xs i v) pmd ∙ (rw other refl) in
                h.anchors k ys (sym old_one ∙ f)
          ];
          tables = h.tables;
          both = λ k ys f. elim (Bool-cases (lbn == k)) [
            | inl same ↦ subst (λ (j : ℕ). find j pmt ≢ none) ((==_iff lbn k).0 same) known
            | inr other ↦
                let old_one : find k (insert lbn (set xs i v) pmd) ≡ find k pmd =
                  find-insert lbn k (set xs i v) pmd ∙ (rw other refl) in
                h.both k ys (sym old_one ∙ f)
          ];
        })

  table_at :
      (lbn i j : ℕ) (ts : List (List (Option ℕ)))
      → find lbn pmt ≡ some ts
      → i < n
      → j < q
      → (t : List (Option ℕ)) × (get_elem? ts i ≡ some t)
        × (length t ≡ q)
        × (v : Option ℕ) × (get_elem? t j ≡ some v)
  table_at lbn i j ts e lt lt' =
      let k = h.tables lbn ts e in
      let (t, g) = get_elem?_total ts i (let z = k.0 in omega arith) in
      let l = All_get (λ (x : List (Option ℕ)). length x ≡ q) ts i k.1 g in
      let (v, f) = get_elem?_total t j (let z = l in omega arith) in (t, g, l, v, f)

  pub get_slot-Returns :
      (lbn i j : ℕ) (ts : List (List (Option ℕ)))
      → find lbn pmt ≡ some ts
      → i < n
      → j < q
      → Returns (λ _. Unit) (get_slot lbn i j pmt)
  unfolding get_slot
  get_slot-Returns lbn i j ts e lt lt' =
      let (t, g, l, v, f) = table_at lbn i j ts e lt lt' in rw (e, g, f) tt

  -- An assignment to a slot keeps the sizes, and the block known.
  pub put_slot-Returns :
      (lbn i j : ℕ) (w : Option ℕ) (ts : List (List (Option ℕ)))
      → find lbn pmt ≡ some ts
      → i < n
      → j < q
      → Returns (λ pmt'. IsShaped n q pmd pmt' × (find lbn pmt' ≢ none)) (put_slot lbn i j w pmt)
  unfolding put_slot
  put_slot-Returns lbn i j w ts e lt lt' =
      let (t, g, l, v, f) = table_at lbn i j ts e lt lt' in
      let t' = set t j w in
      let ts' = set ts i t' in
      let after = λ (k : ℕ). find-insert lbn k ts' pmt in
      let sizes : IsTables n q ts' = (
        length-set ts i t' ∙ (h.tables lbn ts e).0,
        All-set (λ (x : List (Option ℕ)). length x ≡ q) ts i t' (h.tables lbn ts e).1
            (length-set t j w ∙ l),
      ) in
      rw (e, g, f)
        (
          record {
            anchors = h.anchors;
            tables = λ k us r. elim (Bool-cases (lbn == k)) [
              | inl same ↦
                  let now : find k (insert lbn ts' pmt) ≡ some ts' = after k ∙ (rw same refl) in
                  subst (IsTables n q) (some-injective _ _ (sym now ∙ r)) sizes
              | inr other ↦
                  let old_one : find k (insert lbn ts' pmt) ≡ find k pmt =
                    after k ∙ (rw other refl) in
                  h.tables k us (sym old_one ∙ r)
            ];
            both = λ k xs r gone. elim (Bool-cases (lbn == k)) [
              | inl same ↦
                  let now : find k (insert lbn ts' pmt) ≡ some ts' = after k ∙ (rw same refl) in cc
              | inr other ↦
                  let old_one : find k (insert lbn ts' pmt) ≡ find k pmt =
                    after k ∙ (rw other refl) in
                  h.both k xs r (sym old_one ∙ gone)
            ];
          },
          λ gone.
              let now : find lbn (insert lbn ts' pmt) ≡ some ts' = after lbn ∙ (ground arith) in cc,
        )
