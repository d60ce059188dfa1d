-- ===== src/Ftls/PageFtl/Active.antt =====
-- The count of the pages in use that the page-level FTL keeps.
use mnftl.Base.{
  ℕ, ◌+◌, ◌-◌, ◌%◌, ◌^◌, ◌≤◌, ◌<◌, ◌≡◌, refl, sym, ap, ◌∙◌, subst, ◌≢◌, true, arith, ◌==◌,
  if◌then◌else◌, ==_iff, if_cases, u32, u64, ok, fetch, Every, Every-bind, Every-trivial, set,
}
use mnftl.Config.{Config, Status, AddressValid}
use mnftl.Address.{at}
use mnftl.Event.{Event, set_address, set_noop}
use mnftl.BlockManager.{Machine, issue}
use mnftl.Ftls.PageFtl.{
  PageFtl, capacity, write, make_room, erase_first, count_write, count_trim, all_trimmed, trim,
}

wrap_sub : (n b : ℕ) → b ≤ n → n < 2 ^ 64 → (n + (2 ^ 64 - b)) % 2 ^ 64 ≡ n - b
wrap_sub n b h l = omega arith

wrap_below : (n b : ℕ) → n < b → b ≤ 2 ^ 64 → (n + (2 ^ 64 - b)) % 2 ^ 64 + b ≡ n + 2 ^ 64
wrap_below n b h l = omega arith

wrap_suc : (n : ℕ) → n + 1 < 2 ^ 64 → (n + 1) % 2 ^ 64 ≡ n + 1
wrap_suc n h = omega arith

below_word : (n : ℕ) → n % 2 ^ 32 < 2 ^ 32
below_word n = omega arith

capacity_small : (c : Config) → capacity c < 2 ^ 32
unfolding capacity
capacity_small c = below_word _

-- How many pages are in use after a write.
abbrev pub after_write : Config → ℕ → ℕ
after_write c n = if n == capacity c then n - c.block_size + 1 else n + 1

module _ (c : Config) (pos : 0 < c.block_size) (fits : c.block_size ≤ capacity c) where
  make_room-Room :
      (e : Event) (f : PageFtl) (w : Machine)
      → f.num_pages_active ≤ capacity c
      → Every
          (λ o. u64 (o.1.num_pages_active + 1) ≡ after_write c f.num_pages_active)
          (make_room c e f w)
  unfolding make_room
  make_room-Room e f w le =
      let P = λ (o : Event × PageFtl × Machine).
        u64 (o.1.num_pages_active + 1) ≡ after_write c f.num_pages_active in
      if_cases (Every P) (f.num_pages_active == capacity c)
        (λ q. Every-bind _ P (erase_first c e w) _ (Every-trivial _) λ o _.
          let full : f.num_pages_active ≡ capacity c = (==_iff _ _).0 q in
          let small = capacity_small c in
          let less = wrap_sub f.num_pages_active c.block_size (omega arith) (omega arith) in
          let one = wrap_suc (f.num_pages_active - c.block_size) (omega arith) in
          ap (λ (n : ℕ). (n + 1) % 2 ^ 64) less ∙ one ∙ (rw q refl))
        (λ q.
          let below : f.num_pages_active ≢ capacity c =
            λ g. (let z = (==_iff _ _).1 g in ground arith) in
          let small = capacity_small c in wrap_suc f.num_pages_active (omega arith) ∙ (rw q refl))

  -- With a page at least in a block and a block at least in the capacity, which is the 32-bit
  -- product that the code computes: from at most as many pages in use as the capacity, a write of
  -- the page-level FTL that returns leaves one more, or one more than a block less at the capacity,
  -- and again at most as many as the capacity.
  pub write-InCapacity :
      (e : Event) (f : PageFtl) (w : Machine)
      → f.num_pages_active ≤ capacity c
      → Every
          (λ o.
            (o.2.num_pages_active ≡ after_write c f.num_pages_active)
            × (o.2.num_pages_active ≤ capacity c))
          (write c e f w)
  unfolding write
  write-InCapacity e f w le =
      let P = λ (o : Status × Event × PageFtl × Machine).
        (o.2.num_pages_active ≡ after_write c f.num_pages_active)
        × (o.2.num_pages_active ≤ capacity c) in
      let e0 = set_noop true (set_address (at c 1 AddressValid.page) e) in
      let limit : after_write c f.num_pages_active ≤ capacity c =
        if_cases (λ (n : ℕ). n ≤ capacity c) (f.num_pages_active == capacity c) (λ _. omega arith)
          (λ q.
            let below : f.num_pages_active ≢ capacity c =
              λ g. (let z = (==_iff _ _).1 g in ground arith) in
            omega arith) in
      Every-bind _ P (make_room c e0 f (count_write w)) _ (make_room-Room e0 f (count_write w) le)
        λ o k.
          Every-bind _ P (issue c o.0 o.2) _ (Every-trivial _)
            λ x _. (k, subst (λ (n : ℕ). n ≤ capacity c) (sym k) limit)

-- With blocks of at most 2^64 pages: a trim of the page-level FTL that returns and makes all pages
-- of a block trimmed, when fewer pages are counted as in use than a block has, wraps the counter
-- around: it is 2^64 less a block more than before.
pub trim-Wrapped :
    (c : Config) (e : Event) (f : PageFtl) (w : Machine)
    → c.block_size ≤ 2 ^ 64
    → f.num_pages_active < c.block_size
    → all_trimmed c.block_size
        (u32 e.logical_address - u32 e.logical_address % c.block_size)
        (set f.trim_map e.logical_address true)
      ≡ ok true
    → Every (λ o. o.2.num_pages_active + c.block_size ≡ f.num_pages_active + 2 ^ 64) (trim c e f w)
unfolding trim
trim-Wrapped c e f w le few done =
    let P = λ (o : Status × Event × PageFtl × Machine).
      o.2.num_pages_active + c.block_size ≡ f.num_pages_active + 2 ^ 64 in
    Every-bind _ P (fetch f.trim_map e.logical_address) _ (Every-trivial _) λ old _. rw done (
      Every-bind _ P (erase_first c e (count_trim w)) _ (Every-trivial _)
        λ o _. wrap_below f.num_pages_active c.block_size few le)
