-- ===== src/Flash/Block/Counts.antt =====
-- The counters of a block in ssd_block.cpp, against the states of its pages. What the code calls
-- `pages_valid` counts every page that was written, the invalid ones too.
use mnftl.Base.{
  ℕ, zero, suc, ◌+◌, ◌-◌, ◌^◌, ◌≤◌, ◌<◌, ◌≡◌, refl, sym, ap, ◌∙◌, ◌⊎◌, inl, inr, Bool, true, false,
  not, some, List, [], ◌∷◌, map, arith, ltb, lt→ltb, Bool-cases, u32, ok, length, get_elem?, set,
  count_if, All, length-set, length-replicate, get_elem?-lt, get_elem?-set_self, count_if-set,
  count_if-replicate,
}
use mnftl.Config.{Config, PageState, empty, valid, invalid, BlockState, free, failure, success}
use mnftl.Event.{Event, incr_time_taken}
use mnftl.Flash.Wear.{route}
use mnftl.Flash.Page
use mnftl.Flash.Page.{
  Page, Memory, Outcome, new_page, is_empty, is_valid, is_invalid, store_payload,
}
use mnftl.Flash.Block.{Block, new_block, state_of, write, written, invalidate_page, erase}

abbrev pub is_used : Page → Bool
is_used p = not (is_empty p.state)

pub record IsCounted (b : Block) : Type 0 where
  pub sized : b.size ≡ length b.pages
  pub small : b.size < 2 ^ 32
  pub valid_counted : b.pages_valid ≡ count_if is_used b.pages
  pub invalid_counted : b.pages_invalid ≡ count_if (λ (p : Page). is_invalid p.state) b.pages

count_if-le : {A : Type 0} (p : A → Bool) (xs : List A) → count_if p xs ≤ length xs
count_if-le p [] = omega arith
count_if-le p (x ∷ xs) = let rest = count_if-le p xs in ground arith

-- A page that fails the test leaves room in the count.
count_if-lt :
    {A : Type 0} (p : A → Bool) (xs : List A) (i : ℕ) {x : A}
    → get_elem? xs i ≡ some x
    → p x ≡ false
    → count_if p xs < length xs
count_if-lt p [] i h q = absurd (ground arith)
count_if-lt p (x ∷ xs) zero h q = let rest = count_if-le p xs in ground arith
count_if-lt p (x ∷ xs) (suc i) h q = let rest = count_if-lt p xs i h q in ground arith

u32_suc : (n k : ℕ) → n < k → k < 2 ^ 32 → u32 (n + 1) ≡ n + 1
u32_suc n k h l = omega arith

pub new_block-IsCounted : (c : Config) (n : ℕ) → c.block_size < 2 ^ 32 → IsCounted (new_block c n)
unfolding new_block
new_block-IsCounted c n h = record {
  sized = sym (length-replicate c.block_size new_page);
  small = h;
  valid_counted = sym (count_if-replicate is_used c.block_size new_page refl);
  invalid_counted =
      sym (count_if-replicate (λ (p : Page). is_invalid p.state) c.block_size new_page refl);
}

-- The block after a write to the page, after its invalidation, and after an erase.
abbrev with_valid : Event → Page → Block → Block
with_valid e p b = record b {
  pages = set b.pages e.address.page (record p { state = valid });
  pages_valid = u32 (b.pages_valid + 1);
  state = BlockState.active;
  modification_time = some e.start_time;
}

with_valid-IsCounted :
    (e : Event) (b : Block) (p : Page)
    → IsCounted b
    → get_elem? b.pages e.address.page ≡ some p
    → is_empty p.state ≡ true
    → IsCounted (with_valid e p b)
      × ((with_valid e p b).pages_valid ≡ b.pages_valid + 1)
      × (get_elem? (with_valid e p b).pages e.address.page ≡ some (record p { state = valid }))
with_valid-IsCounted e b p k q h =
    let p' = record p { state = valid } in
    let i = e.address.page in
    let used = count_if-set is_used b.pages i p' q in
    let dead = count_if-set (λ (x : Page). is_invalid x.state) b.pages i p' q in
    let room = count_if-lt is_used b.pages i q (ground arith) in
    let no_wrap : u32 (b.pages_valid + 1) ≡ b.pages_valid + 1 =
      u32_suc b.pages_valid b.size (let v = k.valid_counted in let z = k.sized in omega arith)
        k.small in
    let alive : is_invalid p.state ≡ false = alive_lem p.state h in
    (
      record {
        sized = k.sized ∙ sym (length-set b.pages i p');
        small = k.small;
        valid_counted = no_wrap ∙ (let v = k.valid_counted in ground arith);
        invalid_counted = (let v = k.invalid_counted in ground arith);
      },
      no_wrap,
      get_elem?-set_self b.pages i p' (get_elem?-lt b.pages i q),
    )
  where
    alive_lem : (s : PageState) → is_empty s ≡ true → is_invalid s ≡ false
    alive_lem empty e = refl
    alive_lem valid e = refl
    alive_lem invalid e = absurd (ground arith)

-- A write that is no noop to an empty page of a counted block returns and succeeds: the page is
-- valid then, it is counted, and the block stays counted.
pub write-IsCounted :
    (c : Config) (e : Event) (m : Memory) (b : Block) (p : Page)
    → IsCounted b
    → get_elem? b.pages e.address.page ≡ some p
    → is_empty p.state ≡ true
    → e.noop ≡ false
    → (f : Event) × (n : Memory) × (d : Block) × (write c e m b ≡ ok (success, f, n, d))
      × IsCounted d
      × (d.pages_valid ≡ b.pages_valid + 1)
      × (get_elem? d.pages e.address.page ≡ some (record p { state = valid }))
unfolding write route Page.write written incr_time_taken
write-IsCounted c e m b p k q h n =
    let e' = incr_time_taken c.page_write_delay e in
    let ran : write c e m b ≡ ok (success, e', store_payload c e' m, with_valid e p b) =
      rw (q, n, h) refl in
    let (counted, more, now) = with_valid-IsCounted e b p k q h in
    (e', store_payload c e' m, with_valid e p b, ran, counted, more, now)

abbrev with_invalid : ℕ → Page → Block → Block
with_invalid i p b = record b {
  pages = set b.pages i (record p { state = invalid });
  pages_invalid = u32 (b.pages_invalid + 1);
  state = state_of b.pages_valid (u32 (b.pages_invalid + 1)) b.size;
}

with_invalid-IsCounted :
    (i : ℕ) (b : Block) (p : Page)
    → IsCounted b
    → get_elem? b.pages i ≡ some p
    → is_valid p.state ≡ true
    → IsCounted (with_invalid i p b) × ((with_invalid i p b).pages_invalid ≡ b.pages_invalid + 1)
with_invalid-IsCounted i b p k q h =
    let p' = record p { state = invalid } in
    let (alive, full) = valid_lem p.state h in
    let used = count_if-set is_used b.pages i p' q in
    let dead = count_if-set (λ (x : Page). is_invalid x.state) b.pages i p' q in
    let room = count_if-lt (λ (x : Page). is_invalid x.state) b.pages i q alive in
    let no_wrap : u32 (b.pages_invalid + 1) ≡ b.pages_invalid + 1 =
      u32_suc b.pages_invalid b.size (let v = k.invalid_counted in let z = k.sized in omega arith)
        k.small in
    (
      record {
        sized = k.sized ∙ sym (length-set b.pages i p');
        small = k.small;
        valid_counted = (let v = k.valid_counted in ground arith);
        invalid_counted = no_wrap ∙ (let v = k.invalid_counted in ground arith);
      },
      no_wrap,
    )
  where
    valid_lem : (s : PageState) → is_valid s ≡ true → (is_invalid s ≡ false) × (is_empty s ≡ false)
    valid_lem empty e = absurd (ground arith)
    valid_lem valid e = (refl, refl)
    valid_lem invalid e = absurd (ground arith)

-- The invalidation of a valid page of a counted block returns: the page is invalid then, it is
-- counted as invalid, and the block stays counted.
pub invalidate_page-IsCounted :
    (i : ℕ) (b : Block) (p : Page)
    → IsCounted b
    → get_elem? b.pages i ≡ some p
    → is_valid p.state ≡ true
    → (d : Block) × (invalidate_page i b ≡ ok d)
      × IsCounted d
      × (d.pages_invalid ≡ b.pages_invalid + 1)
      × (get_elem? d.pages i ≡ some (record p { state = invalid }))
unfolding invalidate_page
invalidate_page-IsCounted i b p k q h =
    let below = get_elem?-lt b.pages i q in
    let test : ltb i b.size ≡ true = lt→ltb i b.size (let z = k.sized in omega arith) in
    let alive : is_invalid p.state ≡ false = ground arith in
    let ran : invalidate_page i b ≡ ok (with_invalid i p b) = rw (test, q, alive) refl in
    let (counted, more) = with_invalid-IsCounted i b p k q h in
    (
      with_invalid i p b,
      ran,
      counted,
      more,
      get_elem?-set_self b.pages i (record p { state = invalid }) below,
    )

abbrev wiped : List Page → List Page
wiped ps = map (λ (p : Page). record p { state = empty }) ps

wiped_lem :
    (ps : List Page)
    → (length (wiped ps) ≡ length ps)
      × (count_if is_used (wiped ps) ≡ 0)
      × (count_if (λ (p : Page). is_invalid p.state) (wiped ps) ≡ 0)
      × All (λ (p : Page). p.state ≡ empty) (wiped ps)
wiped_lem [] = (refl, refl, refl, tt)
wiped_lem (p ∷ ps) =
    let (l, u, d, a) = wiped_lem ps in (ap suc l, omega arith, omega arith, (refl, a))

abbrev with_erased : Config → Event → Block → Block
with_erased c e b = record b {
  pages = wiped b.pages;
  last_erase_time = e.start_time + e.time_taken;
  erases_remaining = b.erases_remaining - 1;
  pages_valid = 0;
  pages_invalid = 0;
  state = free;
}

-- An erase that is no noop of a counted block returns. With erases left it succeeds, leaves every
-- page empty, no page counted and the block free, and uses one erase up; without, it fails and
-- changes nothing.
pub erase-IsCounted :
    (c : Config) (e : Event) (m : Memory) (b : Block)
    → IsCounted b
    → e.noop ≡ false
    → ((0 < b.erases_remaining)
        × (f : Event) × (d : Block) × (erase c e m b ≡ ok (success, f, m, d))
        × IsCounted d
        × All (λ (p : Page). p.state ≡ empty) d.pages
        × (d.pages_valid ≡ 0)
        × (d.state ≡ free)
        × (d.erases_remaining + 1 ≡ b.erases_remaining))
      ⊎ ((b.erases_remaining ≡ 0) × (erase c e m b ≡ ok (failure, e, m, b)))
unfolding erase
erase-IsCounted c e m b k n =
    let e' = incr_time_taken c.block_erase_delay e in
    let (l, u, d, a) = wiped_lem b.pages in
    elim (Bool-cases (ltb b.erases_remaining 1)) [
      | inl q ↦ inr (ground arith, rw (n, q) refl)
      | inr q ↦ inl (
        ground arith,
        e',
        with_erased c e' b,
        (rw (n, q) refl),
        record {
          sized = k.sized ∙ sym l;
          small = k.small;
          valid_counted = sym u;
          invalid_counted = sym d;
        },
        a,
        refl,
        refl,
        ground arith,
      )
    ]
