-- ===== src/Flash/Plane/Merge/Stops.antt =====
-- How the loops of `Plane::_merge` stop the process at the second page.
use mnftl.Base.{
  ℕ, zero, suc, ◌+◌, ◌≤◌, ◌<◌, ◌≡◌, refl, sym, ap, ◌∙◌, subst, ◌≢◌, ◌⊎◌, inl, inr, true, false,
  some, List, ◌∷◌, arith, lt→ltb, if_cases, Every, Every-bind, Every-fetch, Every-map, get_elem?,
}
use mathlib.Core.Bool.{false≢true}
use mathlib.Core.Option.{some-injective}
use mnftl.Config.{Config}
use mnftl.Event.{Event}
use mnftl.Flash.Page.{Page}
use mnftl.Flash.Block.{Block}
use mnftl.Flash.Plane.{Plane}
use mnftl.Flash.Plane.Merge.{Merging, merge_page, merge_round, merge_loop}
use mnftl.Flash.Plane.Merge.Moved.{live, blank, Every_at, Ready, AfterMove, page_again, page_once}

other_page :
    (b : Block) (i j : ℕ) {x y : Page}
    → get_elem? b.pages i ≡ some x
    → get_elem? b.pages j ≡ some y
    → live x ≡ false
    → live y ≡ true
    → i ≢ j
other_page b i j {x} {y} hx hy dead alive e =
    let same : x ≡ y = some-injective _ _ (sym hx ∙ ap (get_elem? b.pages) e ∙ hy) in
    false≢true (sym dead ∙ ap live same ∙ alive)

module _ (c : Config) (source target : ℕ) (apart : source ≢ target) (count : ℕ) where
  loop_again :
      (n i k : ℕ) (b t : Block) (p : Page) (ps : List Page) (y : Page) (g : Merging)
      → get_elem? g.blocks source ≡ some b
      → Ready target 1 t g
      → t.pages ≡ p ∷ ps
      → blank p ≡ false
      → get_elem? b.pages k ≡ some y
      → live y ≡ true
      → i ≤ k
      → k < i + n
      → g.num_merged < count
      → Every (λ _. ⊥) (merge_loop c source target count n i g)
  unfolding merge_loop merge_round
  loop_again zero i k b t p ps y g hb h split q hy alive le lt more = absurd (omega arith)
  loop_again (suc n) i k b t p ps y g hb h split q hy alive le lt more =
      let Stays = λ (g' : Merging). (g ≡ g') × (i ≢ k) in
      rw (lt→ltb g.num_merged count more) (
        Every-bind Stays (λ _. ⊥) (merge_round c source target i g) _
          (Every_at Stays g.blocks source _ hb (
            Every-fetch Stays b.pages i _ λ x hx.
              if_cases (Every Stays) (live x)
                (λ _.
                  Every-map (λ _. ⊥) Stays (merge_page c source target i g) (λ _ bad. absurd bad)
                    (page_again c source target apart i b t p ps g hb h split q))
                (λ dead. (refl, other_page b i k hx hy dead alive))))
          λ g' (e, other).
            subst (λ (g' : Merging). Every (λ _. ⊥) (merge_loop c source target count n (suc i) g'))
              e
              (loop_again n (suc i) k b t p ps y g hb h split q hy alive (omega arith) (omega arith)
                more))

  pub loop_once :
      (n i j k : ℕ) (b t : Block) (x y : Page) (g : Merging)
      → get_elem? g.blocks source ≡ some b
      → Ready target 2 t g
      → get_elem? b.pages j ≡ some x
      → live x ≡ true
      → get_elem? b.pages k ≡ some y
      → live y ≡ true
      → i ≤ j
      → j < k
      → k < i + n
      → g.num_merged + 1 < count
      → Every (λ _. ⊥) (merge_loop c source target count n i g)
  unfolding merge_loop merge_round
  loop_once zero i j k b t x y g hb h hx first hy alive le lt below more = absurd (omega arith)
  loop_once (suc n) i j k b t x y g hb h hx first hy alive le lt below more =
      let Next =
        λ (g' : Merging). ((g ≡ g') × (i ≢ j)) ⊎ AfterMove c source target apart i 1 b g g' in
      rw (lt→ltb g.num_merged count (omega arith)) (
        Every-bind Next (λ _. ⊥) (merge_round c source target i g) _
          (Every_at Next g.blocks source _ hb (
            Every-fetch Next b.pages i _ λ z hz.
              if_cases (Every Next) (live z)
                (λ _.
                  Every-map (AfterMove c source target apart i 1 b g) Next
                    (merge_page c source target i g) (λ _ o. inr o)
                    (page_once c source target apart i 1 b t g hb h))
                (λ dead. inl (refl, other_page b i j hz hx dead first))))
          λ g' next. elim next [
            | inl (e, other) ↦
                subst
                  (λ (g' : Merging). Every (λ _. ⊥) (merge_loop c source target count n (suc i) g'))
                  e
                  (loop_once n (suc i) j k b t x y g hb h hx first hy alive (omega arith) lt
                    (omega arith) more)
            | inr o ↦
                let one = o.moved.one_more in
                loop_again n (suc i) k o.source_block o.moved.block o.moved.first o.moved.now.0 y g'
                  o.source_there o.moved.ready o.moved.now.1 o.moved.used
                  (o.other_pages k (omega arith) ∙ hy) alive (omega arith) (omega arith)
                  (omega arith)
          ])
