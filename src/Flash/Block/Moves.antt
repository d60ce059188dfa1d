-- ===== src/Flash/Block/Moves.antt =====
-- What single operations of a block leave of its pages.
use mnftl.Base.{
  ℕ, zero, suc, ◌≡◌, refl, sym, ◌≢◌, inl, inr, true, false, some, List, [], ◌∷◌, ltb, if_cases,
  Option-cases, Every, Every-assert, Every-fetch, get_elem?, set, get_elem?-set_ne,
}
use mnftl.Config.{Config, valid, invalid}
use mnftl.Event.{Event, incr_time_taken}
use mnftl.Flash.Wear.{route}
use mnftl.Flash.Page
use mnftl.Flash.Page.{Page, Memory, is_empty, is_invalid}
use mnftl.Flash.Block.{Block, read, write, written, invalidate_page}

get_elem?-set_same :
    {A : Type 0} (xs : List A) (i : ℕ) {x : A}
    → get_elem? xs i ≡ some x
    → (k : ℕ) → get_elem? (set xs i x) k ≡ get_elem? xs k
get_elem?-set_same [] i h k = refl
get_elem?-set_same (y ∷ ys) zero h zero = sym h
get_elem?-set_same (y ∷ ys) zero h (suc k) = refl
get_elem?-set_same (y ∷ ys) (suc i) h zero = refl
get_elem?-set_same (y ∷ ys) (suc i) h (suc k) = get_elem?-set_same ys i h k

module _ (c : Config) (e : Event) (m : Memory) (b : Block) (p : Page) (ps : List Page)
    (at_first : e.address.page ≡ 0) (quiet : e.noop ≡ false) (split : b.pages ≡ p ∷ ps) where
  -- A write at page 0, empty and in use.
  pub write_blank :
      is_empty p.state ≡ true
      → Every
          (λ o.
            (o.1.address.page ≡ 0)
            × (o.1.noop ≡ false)
            × (o.3.pages ≡ (record p { state = valid }) ∷ ps))
          (write c e m b)
  unfolding write route Page.write written incr_time_taken
  write_blank q = rw (at_first, split, quiet, q) (refl, refl, refl)

  pub write_used : is_empty p.state ≡ false → Every (λ _. ⊥) (write c e m b)
  unfolding write route Page.write
  write_used q = rw (at_first, split, quiet, q) tt

-- The read of a page and the invalidation of one: what they leave of the other pages.
pub read_same :
    (c : Config) (e : Event) (m : Memory) (b : Block)
    → Every (λ o. (k : ℕ) → get_elem? o.3.pages k ≡ get_elem? b.pages k) (read c e m b)
unfolding read route Page.read
read_same c e m b = elim (Option-cases (get_elem? b.pages e.address.page)) [
  | inl q ↦ rw q tt
  | inr (p, q) ↦ rw q (get_elem?-set_same b.pages e.address.page q)
]

pub invalidate_others :
    (i : ℕ) (b : Block)
    → Every
        (λ b'. (k : ℕ) → i ≢ k → get_elem? b'.pages k ≡ get_elem? b.pages k)
        (invalidate_page i b)
unfolding invalidate_page
invalidate_others i b =
    let K = λ (b' : Block). (k : ℕ) → i ≢ k → get_elem? b'.pages k ≡ get_elem? b.pages k in
    Every-assert K (ltb i b.size) _ (
      Every-fetch K b.pages i _ λ p q.
        if_cases K (is_invalid p.state) (λ _ k _. refl)
          (λ _ k n. get_elem?-set_ne b.pages i k (record p { state = invalid }) n))
