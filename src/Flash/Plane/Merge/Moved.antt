-- ===== src/Flash/Plane/Merge/Moved.antt =====
-- One round of the loops of `Plane::_merge`: its writes stay at page 0 of the target.
use mnftl.Base.{
  ℕ, zero, suc, ◌+◌, ◌≤◌, ◌<◌, ◌≡◌, refl, sym, ap, ◌∙◌, subst, ◌≢◌, inl, inr, Bool, true, false,
  some, List, [], ◌∷◌, arith, le→leb, Bool-cases, Run, ok, abort, ◌>>=◌, fetch, Every, Every-bind,
  Every-trivial, Every-map, get_elem?, count_if, get_elem?-lt, get_elem?-set_self, get_elem?-set_ne,
}
use mnftl.Config.{Config, valid}
use mnftl.Flash.Page.{Page, is_valid, is_empty}
use mnftl.Flash.Block
use mnftl.Flash.Block.{Block}
use mnftl.Flash.Block.Moves.{write_blank, write_used, read_same, invalidate_others}
use mnftl.Flash.Plane.Merge.{Merging, empty_from, merge_write, merge_page}

abbrev pub live : Page → Bool
live p = is_valid p.state

abbrev pub blank : Page → Bool
blank p = is_empty p.state

pub Every_at :
    {A B : Type 0} (P : B → Type 0) (xs : List A) (i : ℕ) (f : A → Run B) {x : A}
    → get_elem? xs i ≡ some x
    → Every P (f x)
    → Every P (fetch xs i >>= f)
Every_at P xs i f q h = rw q h

pub never : {A : Type 0} (m : Run A) → Every (λ _. ⊥) m → m ≡ abort
never (ok a) h = absurd h
never abort h = refl

count_if_pos :
    {A : Type 0} (f : A → Bool) (xs : List A) (j : ℕ) {x : A}
    → get_elem? xs j ≡ some x
    → f x ≡ true
    → 0 < count_if f xs
count_if_pos f [] j h q = absurd (ground arith)
count_if_pos f (y ∷ ys) zero h q = ground arith
count_if_pos f (y ∷ ys) (suc j) h q = let rest = count_if_pos f ys j h q in ground arith

pub count_if_two :
    {A : Type 0} (f : A → Bool) (xs : List A) (j k : ℕ) {x y : A}
    → get_elem? xs j ≡ some x
    → f x ≡ true
    → get_elem? xs k ≡ some y
    → f y ≡ true
    → j < k
    → 2 ≤ count_if f xs
count_if_two f [] j k h q h' q' l = absurd (ground arith)
count_if_two f (z ∷ zs) j zero h q h' q' l = absurd (omega arith)
count_if_two f (z ∷ zs) zero (suc k) h q h' q' l =
    let rest = count_if_pos f zs k h' q' in ground arith
count_if_two f (z ∷ zs) (suc j) (suc k) h q h' q' l =
    let rest = count_if_two f zs j k h q h' q' (omega arith) in ground arith

empty_from-later :
    (i : ℕ) (p : Page) (ps : List Page)
    → blank p ≡ false
    → empty_from 0 i (p ∷ ps) ≡ empty_from 0 (suc i) ps
unfolding empty_from
empty_from-later i p ps q = rw (q, le→leb 0 i (omega arith)) refl

empty_from_total :
    (i : ℕ) (ps : List Page) → 0 < count_if blank ps → (j : ℕ) × (empty_from 0 i ps ≡ some j)
unfolding empty_from
empty_from_total i [] h = absurd (omega arith)
empty_from_total i (p ∷ ps) h = elim (Bool-cases (blank p)) [
  | inl q ↦ (i, rw (q, le→leb 0 i (omega arith)) refl)
  | inr q ↦
      let (j, e) = empty_from_total (suc i) ps (ground arith) in (j, empty_from-later i p ps q ∙ e)
]

empty_from-first : (p : Page) (ps : List Page) → blank p ≡ true → empty_from 0 0 (p ∷ ps) ≡ some 0
unfolding empty_from
empty_from-first p ps q = rw q refl

split_first :
    (ps : List Page) → 0 < count_if blank ps → (p : Page) × (qs : List Page) × (ps ≡ p ∷ qs)
split_first [] h = absurd (omega arith)
split_first (p ∷ ps) h = (p, ps, refl)

-- No page is moved yet: the state of the loops, with empty pages left in the target.
pub record Ready (target room : ℕ) (t : Block) (g : Merging) : Type 0 where
  pub at_first : g.write_event.address.page ≡ 0
  pub quiet : g.write_event.noop ≡ false
  pub from_first : g.write_page ≡ 0
  pub there : get_elem? g.blocks target ≡ some t
  pub left : room ≤ count_if blank t.pages

-- One page was moved, to page 0 of the target.
pub record Moved (target room : ℕ) (num : ℕ) (g' : Merging) : Type 0 where
  pub block : Block
  pub first : Page
  pub ready : Ready target room block g'
  pub now : (qs : List Page) × (block.pages ≡ first ∷ qs)
  pub used : blank first ≡ false
  pub one_more : g'.num_merged ≡ num + 1

-- And the other blocks are as they were.
pub record Placed (target room : ℕ) (g g' : Merging) : Type 0 where
  pub moved : Moved target room g.num_merged g'
  pub others : (i : ℕ) → target ≢ i → get_elem? g'.blocks i ≡ get_elem? g.blocks i

module _ (c : Config) (target : ℕ) (t : Block) (g : Merging) where
  -- A second write finds page 0 in use.
  write_again :
      (p : Page) (ps : List Page)
      → Ready target 1 t g
      → t.pages ≡ p ∷ ps
      → blank p ≡ false
      → Every (λ _. ⊥) (merge_write c target g)
  unfolding merge_write
  write_again p ps h split q =
      let (j, found) = empty_from_total 0 t.pages h.left in
      let at_j = ap (λ (n : ℕ). empty_from n 0 t.pages) h.from_first ∙ found in
      Every_at _ g.blocks target _ h.there (
        rw at_j (
          Every-bind _ (λ _. ⊥) (Block.write c g.write_event g.memory t) _
            (write_used c g.write_event g.memory t p ps h.at_first h.quiet split q)
            λ o bad. absurd bad))

  -- A first one goes to page 0, or the process stops.
  write_once :
      (room : ℕ)
      → Ready target (suc room) t g
      → Every (Placed target room g) (merge_write c target g)
  unfolding merge_write
  write_once room h =
      let (p, ps, split) = split_first t.pages (let l = h.left in omega arith) in
      elim (Bool-cases (blank p)) [
        | inl q ↦
            let at_first =
              ap (λ (n : ℕ). empty_from n 0 t.pages) h.from_first
              ∙ ap (empty_from 0 0) split
              ∙ empty_from-first p ps q in
            let rest : room ≤ 0 + count_if blank ps =
              (let l = h.left in let n = ap (count_if blank) split in ground arith) in
            Every_at _ g.blocks target _ h.there (
              rw at_first (
                Every-bind _ (Placed target room g) (Block.write c g.write_event g.memory t) _
                  (write_blank c g.write_event g.memory t p ps h.at_first h.quiet split q)
                  λ o k. record {
                    moved = record {
                      block = o.3;
                      first = record p { state = valid };
                      ready = record {
                        at_first = k.0;
                        quiet = k.1;
                        from_first = refl;
                        there =
                            get_elem?-set_self g.blocks target o.3
                              (get_elem?-lt g.blocks target h.there);
                        left = subst (λ (qs : List Page). room ≤ count_if blank qs) (sym k.2) rest;
                      };
                      now = (ps, k.2);
                      used = refl;
                      one_more = refl;
                    };
                    others = λ i n. get_elem?-set_ne g.blocks target i o.3 n;
                  }))
        | inr q ↦
            let (j, found) = empty_from_total 0 t.pages (let l = h.left in omega arith) in
            let at_j = ap (λ (n : ℕ). empty_from n 0 t.pages) h.from_first ∙ found in
            Every_at _ g.blocks target _ h.there (
              rw at_j (
                Every-bind _ (Placed target room g) (Block.write c g.write_event g.memory t) _
                  (write_used c g.write_event g.memory t p ps h.at_first h.quiet split q)
                  λ o bad. absurd bad))
      ]

module _ (c : Config) (source target : ℕ) (apart : source ≢ target) where
  -- A round that moved a page, from a source block.
  pub record AfterMove (i room : ℕ) (b : Block) (g g' : Merging) : Type 0 where
    pub moved : Moved target room g.num_merged g'
    pub source_block : Block
    pub source_there : get_elem? g'.blocks source ≡ some source_block
    pub other_pages : (k : ℕ) → i ≢ k → get_elem? source_block.pages k ≡ get_elem? b.pages k

  pub page_again :
      (i : ℕ) (b t : Block) (p : Page) (ps : List Page) (g : Merging)
      → get_elem? g.blocks source ≡ some b
      → Ready target 1 t g
      → t.pages ≡ p ∷ ps
      → blank p ≡ false
      → Every (λ _. ⊥) (merge_page c source target i g)
  unfolding merge_page
  page_again i b t p ps g hb h split q = Every_at _ g.blocks source _ hb (
      Every-bind _ (λ _. ⊥) (Block.read c g.read_event g.memory b) _ (Every-trivial _)
        λ o _.
          Every-bind _ (λ _. ⊥) (Block.invalidate_page i o.3) _ (Every-trivial _)
            λ b' _.
              write_again c target t _ p ps
                (record {
                  at_first = h.at_first;
                  quiet = h.quiet;
                  from_first = h.from_first;
                  there = get_elem?-set_ne g.blocks source target b' apart ∙ h.there;
                  left = h.left;
                })
                split q)

  pub page_once :
      (i room : ℕ) (b t : Block) (g : Merging)
      → get_elem? g.blocks source ≡ some b
      → Ready target (suc room) t g
      → Every (AfterMove i room b g) (merge_page c source target i g)
  unfolding merge_page
  page_once i room b t g hb h = Every_at _ g.blocks source _ hb (
      Every-bind _ (AfterMove i room b g) (Block.read c g.read_event g.memory b) _
        (read_same c g.read_event g.memory b)
        λ o same.
          Every-bind _ (AfterMove i room b g) (Block.invalidate_page i o.3) _
            (invalidate_others i o.3)
            λ b' kept.
              Every-map _ (AfterMove i room b g) (merge_write c target _)
                (λ g' k. record {
                  moved = k.moved;
                  source_block = b';
                  source_there =
                      k.others source (λ e. apart (sym e))
                      ∙ get_elem?-set_self g.blocks source b' (get_elem?-lt g.blocks source hb);
                  other_pages = λ k' n. kept k' n ∙ same k';
                })
                (write_once c target t _ room (record {
                  at_first = h.at_first;
                  quiet = h.quiet;
                  from_first = h.from_first;
                  there = get_elem?-set_ne g.blocks source target b' apart ∙ h.there;
                  left = h.left;
                })))
