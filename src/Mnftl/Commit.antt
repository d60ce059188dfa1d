-- ===== src/Mnftl/Commit.antt =====
-- What the last steps of a write make of MNFTL: the tables and the memory once they name the new page.
use mnftl.Base.{
  ℕ, ◌^◌, ◌<◌, ◌≡◌, refl, sym, ◌∙◌, subst, ◌≢◌, inl, inr, false, ◌&&◌, Option, none, some, arith,
  ◌==◌, if◌then◌else◌, ==_iff, Bool-cases,
}
use mathlib.Core.Option.{some-injective}
use mnftl.Config.{Config, AddressValid, Status, success}
use mnftl.Address.{Address, at}
use mnftl.Event.{Event}
use mnftl.Flash.Effect.{IsUsed}
use mnftl.Ssd.Effects.{ssd_view}
use mnftl.BlockManager.{Machine}
use mnftl.Mnftl.Tables.Laws.{entry, anchor}
use mnftl.Mnftl.{Mnftl, lbn_of, pmd_index_of, map_slot_of}
use mnftl.Mnftl.Places.{Addressable, same_place, same_place-eq}
use mnftl.Mnftl.Inv.{Inv, lookup, data_at, content}

-- What the device promises: a logical page holds the data last written to it, if any.
abbrev pub put : (lpn v : ℕ) → (ℕ → Option ℕ) → ℕ → Option ℕ
put lpn v g n = if lpn == n then some v else g n

abbrev pub drop : (lpn : ℕ) → (ℕ → Option ℕ) → ℕ → Option ℕ
drop lpn g n = if lpn == n then none else g n

-- A request went through: it left the invariant, and this content of the logical pages.
pub record Served (c : Config) (expected : ℕ → Option ℕ) (o : Status × Event × Mnftl × Machine)
    : Type 0 where
  pub done : o.0 ≡ success
  pub inv : Inv c o.2 o.3
  pub contents : (lpn : ℕ) → Addressable c lpn → content c o.2 o.3 lpn ≡ expected lpn

-- A logical page is mapped to a page that was empty, and its data are stored there.
pub record Committed (c : Config) (f : Mnftl) (w : Machine) (lpn ppn v : ℕ) (f' : Mnftl)
    (w' : Machine) : Type 0 where
  pub small : ppn < 2 ^ 32
  pub fresh : ¬ IsUsed (ssd_view (at c ppn AddressValid.page) w.ssd)
  pub now : IsUsed (ssd_view (at c ppn AddressValid.page) w'.ssd)
  pub kept : (a : Address) → IsUsed (ssd_view a w.ssd) → IsUsed (ssd_view a w'.ssd)
  pub same_manager : w'.manager ≡ w.manager
  pub stored : w'.memory.page_data ≡ (λ i. if i == ppn then v else w.memory.page_data i)
  pub same_current : f'.current_block ≡ f.current_block
  pub same_has_current : f'.has_current_block ≡ f.has_current_block
  pub pmt :
      (lbn i j : ℕ)
      → entry lbn i j f'.pmt ≡ (
          if (lbn_of c lpn == lbn) && (pmd_index_of c lpn == i) && (map_slot_of c lpn == j)
          then some ppn
          else entry lbn i j f.pmt)
  pub pmd :
      (lbn i : ℕ)
      → anchor lbn i f'.pmd ≡ (
          if (lbn_of c lpn == lbn) && (pmd_index_of c lpn == i)
          then some ppn
          else anchor lbn i f.pmd)

module _ (c : Config) (f : Mnftl) (w : Machine) (v : Inv c f w) (lpn ppn x : ℕ) (f' : Mnftl)
    (w' : Machine) (k : Committed c f w lpn ppn x f' w') where
  Commit-anchored : (lbn i j p : ℕ) → entry lbn i j f'.pmt ≡ some p → anchor lbn i f'.pmd ≢ none
  Commit-anchored lbn i j p q h =
      let before = v.anchored lbn i j p in
      let slot = k.pmt lbn i j in let top = k.pmd lbn i in ground arith

  Commit-IsUsed :
      (lbn i j p : ℕ)
      → entry lbn i j f'.pmt ≡ some p
      → (p < 2 ^ 32) × IsUsed (ssd_view (at c p AddressValid.page) w'.ssd)
  Commit-IsUsed lbn i j p q =
      elim (Bool-cases
        ((lbn_of c lpn == lbn) && (pmd_index_of c lpn == i) && (map_slot_of c lpn == j))) [
          | inl here ↦
              let slot : entry lbn i j f'.pmt ≡ some ppn = k.pmt lbn i j ∙ (rw here refl) in
              let same : ppn ≡ p = some-injective _ _ (sym slot ∙ q) in
              subst (λ (n : ℕ). (n < 2 ^ 32) × IsUsed (ssd_view (at c n AddressValid.page) w'.ssd))
                same (k.small, k.now)
          | inr other ↦
              let slot : entry lbn i j f'.pmt ≡ entry lbn i j f.pmt =
                k.pmt lbn i j ∙ (rw other refl) in
              let before = v.used lbn i j p (sym slot ∙ q) in
              (before.0, k.kept (at c p AddressValid.page) before.1)
        ]

  pub Commit-Inv : Inv c f' w'
  Commit-Inv = record {
    returns = rw k.same_manager v.returns;
    current = rw (k.same_current, k.same_has_current) v.current;
    anchored = Commit-anchored;
    used = Commit-IsUsed;
  }

  -- A page that a logical page was mapped to is not the new one.
  other_page : (p : ℕ) (lbn i j : ℕ) → entry lbn i j f.pmt ≡ some p → (p == ppn) ≡ false
  other_page p lbn i j q = elim (Bool-cases (p == ppn)) [
    | inl e ↦ absurd (
        k.fresh (
          subst (λ (n : ℕ). IsUsed (ssd_view (at c n AddressValid.page) w.ssd)) ((==_iff p ppn).0 e)
            (v.used lbn i j p q).1))
    | inr e ↦ e
  ]

  pub Commit-content :
      0 < c.block_size
      → Addressable c lpn
      → (n : ℕ) → Addressable c n
      → content c f' w' n ≡ put lpn x (content c f w) n
  Commit-content pos here n there =
      let mem = w.memory.page_data in
      rw
        (
          k.stored,
          k.pmt (lbn_of c n) (pmd_index_of c n) (map_slot_of c n),
          ← same_place-eq c lpn n pos here there,
        )
        (elim (Bool-cases (same_place c lpn n)) [
          | inl e ↦ rw e (ground arith)
          | inr e ↦ rw e (old_content (lookup c f n) refl)
        ])
    where
      old_content :
          (p : Option ℕ)
          → lookup c f n ≡ p
          → data_at (λ i. if i == ppn then x else w.memory.page_data i) p
            ≡ data_at w.memory.page_data p
      old_content none q = refl
      old_content (some p) q =
          rw (other_page p (lbn_of c n) (pmd_index_of c n) (map_slot_of c n) q) refl
