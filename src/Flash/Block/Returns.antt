-- ===== src/Flash/Block/Returns.antt =====
-- When the operations of a block return: those of a block whose pages were written in order, so that the
-- pages from the count on are empty.
use mnftl.Base.{
  ℕ, zero, suc, ◌+◌, ◌^◌, ◌≤◌, ◌<◌, ◌≡◌, refl, sym, ap, ◌∙◌, subst, inl, inr, Bool, true, false,
  some, List, arith, ltb, ◌==◌, lt→ltb, ==_iff, Bool-cases, Option-cases, u32, ok, Returns, length,
  get_elem?, set, replicate, length-set, length-replicate, get_elem?-lt, get_elem?_total,
  get_elem?-set,
}
use mathlib.Core.Option.{some-injective}
use mnftl.Config.{Config, valid, invalid}
use mnftl.Address.{Address}
use mnftl.Event.{Event, incr_time_taken}
use mnftl.Flash.Wear.{route}
use mnftl.Flash.Kept.{Count, Kept}
use mnftl.Flash.Effect.{IsUsed}
use mnftl.Flash.Page
use mnftl.Flash.Page.{
  Page, Memory, Outcome, new_page, is_empty, is_invalid, store_payload, point_to,
}
use mnftl.Flash.Block.Effects.{block_view}
use mnftl.Flash.Block.{Block, new_block, read, write, written, replace, invalidate_page}

pub record IsFilled (c : Config) (b : Block) : Type 0 where
  pub sized : b.size ≡ c.block_size
  pub pages_length : length b.pages ≡ c.block_size
  pub in_block : b.pages_valid ≤ c.block_size
  pub rest_empty :
      (i : ℕ) (p : Page)
      → get_elem? b.pages i ≡ some p
      → b.pages_valid ≤ i
      → is_empty p.state ≡ true

abbrev pub block_count : Count Block
block_count a b = ok b.pages_valid

abbrev pub any_address : Address → Bool
any_address _ = true

-- A block after a change of one page.
set_page-IsFilled :
    (c : Config) (b d : Block) (i : ℕ) (p q : Page)
    → IsFilled c b
    → get_elem? b.pages i ≡ some p
    → d.size ≡ b.size
    → d.pages ≡ set b.pages i q
    → b.pages_valid ≤ d.pages_valid
    → d.pages_valid ≤ c.block_size
    → (d.pages_valid ≤ i → is_empty q.state ≡ true)
    → IsFilled c d
set_page-IsFilled c b d i p q h e size pages more room last = record {
  sized = size ∙ h.sized;
  pages_length = ap length pages ∙ length-set b.pages i q ∙ h.pages_length;
  in_block = room;
  rest_empty = λ j x s le. after j x (sym (ap (λ (ps : List Page). get_elem? ps j) pages) ∙ s) le;
}
  where
    after :
        (j : ℕ) (x : Page)
        → get_elem? (set b.pages i q) j ≡ some x
        → d.pages_valid ≤ j
        → is_empty x.state ≡ true
    after j x s le = elim (Bool-cases (i == j)) [
      | inl same ↦
          let now : get_elem? (set b.pages i q) j ≡ some q =
            get_elem?-set b.pages i j q e ∙ (rw same refl) in
          let eq : q ≡ x = some-injective _ _ (sym now ∙ s) in
          subst (λ (y : Page). is_empty y.state ≡ true) eq
            (last (let ij = (==_iff i j).0 same in omega arith))
      | inr other ↦
          let old : get_elem? (set b.pages i q) j ≡ get_elem? b.pages j =
            get_elem?-set b.pages i j q e ∙ (rw other refl) in
          h.rest_empty j x (sym old ∙ s) (omega arith)
    ]

pub new_block-IsFilled : (c : Config) (n : ℕ) → IsFilled c (new_block c n)
unfolding new_block
new_block-IsFilled c n = record {
  sized = refl;
  pages_length = length-replicate c.block_size new_page;
  in_block = omega arith;
  rest_empty = λ i p e _. fresh c.block_size i p e;
}
  where
    fresh :
        (n i : ℕ) (p : Page) → get_elem? (replicate n new_page) i ≡ some p → is_empty p.state ≡ true
    fresh zero i p e = cc
    fresh (suc n) zero p e =
        subst (λ (y : Page). is_empty y.state ≡ true) (some-injective _ _ e) refl
    fresh (suc n) (suc i) p e = fresh n i p e

module _ (c : Config) (e : Event) (m : Memory) (b : Block) (h : IsFilled c b) where
  page_at : (i : ℕ) → i < c.block_size → (p : Page) × (get_elem? b.pages i ≡ some p)
  page_at i lt = get_elem?_total b.pages i (let z = h.pages_length in omega arith)

  pub read-Kept :
      e.address.page < c.block_size
      → Returns (λ o. Kept (IsFilled c) block_count any_address 0 b o.3) (read c e m b)
  unfolding read route Page.read
  read-Kept lt =
      let (p, q) = page_at e.address.page lt in
      rw q (record {
        shaped =
            set_page-IsFilled c b (record b { pages = set b.pages e.address.page p }) e.address.page
              p p h q refl refl (omega arith) h.in_block (λ le. h.rest_empty e.address.page p q le);
        counts = λ a. ap ok (omega arith);
      })

  pub write-Kept :
      c.block_size < 2 ^ 32
      → e.noop ≡ false
      → e.address.page < c.block_size
      → block_count e.address b ≡ ok e.address.page
      → Returns (λ o. Kept (IsFilled c) block_count any_address 1 b o.3) (write c e m b)
  unfolding write route Page.write written incr_time_taken page_at
  write-Kept small n lt at_end =
      let i = e.address.page in
      let (p, q) = page_at i lt in
      let full : b.pages_valid ≡ i = ground arith in
      let free : is_empty p.state ≡ true = h.rest_empty i p q (omega arith) in
      let more : u32 (b.pages_valid + 1) ≡ b.pages_valid + 1 = omega arith in
      rw (q, n, free)
        (record {
          shaped =
              set_page-IsFilled c b _ i p (record p { state = valid }) h q refl refl
                (rw more (omega arith)) (rw more (omega arith))
                (λ le. absurd (let w = more in omega arith));
          counts = λ a. ap ok more;
        })

  pub replace-Kept :
      IsUsed (block_view e.replace_address b)
      → Returns (λ o. Kept (IsFilled c) block_count any_address 0 b o.3) (replace e m b)
  unfolding replace invalidate_page
  replace-Kept u = elim (Option-cases (get_elem? b.pages e.replace_address.page)) [
    | inl none_there ↦ absurd (rw none_there at u)
    | inr (p, q) ↦
        let i = e.replace_address.page in
        let used : is_empty p.state ≡ false = rw q at u in
        let below : ltb i b.size ≡ true = lt→ltb i b.size (
          let l = get_elem?-lt b.pages i q in
          let z = h.sized in let y = h.pages_length in omega arith) in
        rw (below, q)
          (elim (Bool-cases (is_invalid p.state)) [
            | inl dead ↦ rw dead (record { shaped = h; counts = λ a. ap ok (omega arith) })
            | inr alive ↦ rw alive (record {
              shaped =
                  set_page-IsFilled c b _ i p (record p { state = invalid }) h q refl refl
                    (omega arith) h.in_block
                    (λ le. absurd (let w = h.rest_empty i p q le in ground arith));
              counts = λ a. ap ok (omega arith);
            })
          ])
  ]
