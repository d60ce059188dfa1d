-- ===== src/Ftls/Bast/Inv.antt =====
-- What BAST is to be like between requests: no more log blocks than allowed, whose pages and those of the
-- data blocks are where the tables have room for them; and its merges.
use mnftl.Base.{
  ℕ, zero, suc, ◌+◌, ◌≤◌, ◌<◌, ◌≡◌, refl, ap, ◌∙◌, ◌↔◌, inl, inr, Bool, true, Option, none, some,
  List, [], ◌∷◌, arith, Bool-cases, ok, ◌>>=◌, fetch, Every, Every-bind, Every-trivial, length,
  get_elem?, set, replicate, All, length-replicate,
}
use mathlib.Core.Option.{some-injective}
use mnftl.Config.{Config, data_block, log_block, number_of_addressable_blocks}
use mnftl.Address.{Address}
use mnftl.Event.{Event}
use mnftl.Ssd.{Ssd}
use mnftl.BlockManager.{Machine, promote_block, erase_and_invalidate}
use mnftl.BlockManager.Alloc.{get_free_block}
use mnftl.BlockManager.Alloc.Keeps.{get_free_block-Keeps}
use mnftl.Ftls.Parent.{parent_cleanup}
use mnftl.Mnftl.Tables.{erase_key}
use mnftl.Ftls.Bast.{LogPageBlock, new_log, Bast, new_bast, update_map_block}
use mnftl.Ftls.Bast.Merge.{
  erase_data, count_switch, in_order, switch_block, is_sequential, merge_pages, random_merge,
  merge_log,
}
use mnftl.Ftls.Bast.Tables.{Values}

-- A place in a block.
abbrev pub InBlock : Config → Option ℕ → Type 0
InBlock c none = Unit
InBlock c (some i) = i < c.block_size

abbrev pub IsLog : Config → LogPageBlock → Type 0
IsLog c b = (length b.pages ≡ c.block_size) × All (InBlock c) b.pages

pub record IsBast (c : Config) (f : Bast) : Type 0 where
  pub within : length f.log_map ≤ c.bast_log_block_limit
  pub logs : Values (IsLog c) f.log_map
  pub entries : length f.data_list ≡ number_of_addressable_blocks c

pub new_log-IsLog : (c : Config) (a : Address) → IsLog c (new_log c a)
new_log-IsLog c a = (length-replicate c.block_size none, unset c.block_size)
  where
    unset : (n : ℕ) → All (InBlock c) (replicate n none)
    unset zero = tt
    unset (suc n) = (tt, unset n)

pub new_bast-IsBast : (c : Config) (shift : ℕ) → IsBast c (new_bast c shift)
unfolding new_bast
new_bast-IsBast c shift = record {
  within = omega arith;
  logs = tt;
  entries = length-replicate (number_of_addressable_blocks c) none;
}

-- The log block of a logical block is gone, and its data are in another data block.
pub record Merged (lba : ℕ) (f g : Bast) : Type 0 where
  pub log_map : g.log_map ≡ erase_key lba f.log_map
  pub start : ℕ
  pub data_list : g.data_list ≡ set f.data_list lba (some start)
  pub same_shift : g.address_shift ≡ f.address_shift

module _ (order : Ssd → List ℕ) (c : Config) where
  switch_block-Merged :
      (b : LogPageBlock) (lba : ℕ) (e : Event) (f : Bast) (w : Machine)
      → Every (λ o. Merged lba f o.1) (switch_block c b lba e f w)
  unfolding switch_block
  switch_block-Merged b lba e f w =
      let P = λ (o : Event × Bast × Machine). Merged lba f o.1 in
      Every-bind _ P (fetch f.data_list lba) _ (Every-trivial _) λ d _.
        Every-bind _ P
          (erase_data c d e (record w { manager = promote_block data_block w.manager })) _
          (Every-trivial _)
          λ o _.
            Every-bind _ P (update_map_block c o.0 (count_switch o.1)) _ (Every-trivial _) λ o' _.
              record {
                log_map = refl;
                start = b.address.real_address;
                data_list = refl;
                same_shift = refl;
              }

  random_merge-Merged :
      (b : LogPageBlock) (lba : ℕ) (e : Event) (f : Bast) (w : Machine)
      → Every (λ o. Merged lba f o.1) (random_merge order c b lba e f w)
  unfolding random_merge
  random_merge-Merged b lba e f w =
      let P = λ (o : Event × Bast × Machine). Merged lba f o.1 in
      Every-bind (λ o. o.2 ≡ f) P (get_free_block parent_cleanup order c data_block e f w) _
        (get_free_block-Keeps parent_cleanup order c (λ g. g ≡ f) (λ e b g w p. tt) data_block e f w
          refl)
        λ o same. Every-bind _ P (fetch o.2.data_list lba) _ (Every-trivial _) λ d _.
          Every-bind _ P (merge_pages c b d o.0.real_address c.block_size 0 o.1 o.3) _
            (Every-trivial _)
            λ o2 _.
              Every-bind _ P (erase_and_invalidate c b.address log_block o2.0 o2.1) _
                (Every-trivial _)
                λ o3 _. Every-bind _ P (erase_data c d o3.0 o3.1) _ (Every-trivial _) λ o4 _.
                  Every-bind _ P (update_map_block c o4.0 o4.1) _ (Every-trivial _) λ o5 _. record {
                    log_map = ap (λ (g : Bast). erase_key lba g.log_map) same;
                    start = o.0.real_address;
                    data_list = ap (λ (g : Bast). set g.data_list lba (some o.0.real_address)) same;
                    same_shift = ap (λ (g : Bast). g.address_shift) same;
                  }

  -- A merge of a log block of BAST that returns, as a switch or page by page, has removed the log
  -- block of its logical block and no other, and has put one data block in the entry of that logical
  -- block and changed no other entry.
  pub merge_log-Merged :
      (b : LogPageBlock) (lba : ℕ) (e : Event) (f : Bast) (w : Machine)
      → Every (λ o. Merged lba f o.1) (merge_log order c b lba e f w)
  unfolding merge_log is_sequential
  merge_log-Merged b lba e f w = elim (Bool-cases (in_order 0 b.pages)) [
    | inl q ↦ rw q (
        Every-bind _ (λ (o : Event × Bast × Machine). Merged lba f o.1)
          (do (e1, f1, w1) ← switch_block c b lba e f w; ok (true, e1, f1, w1)) _
          (Every-bind _ (λ (o : Bool × Event × Bast × Machine). (o.0 ≡ true) × Merged lba f o.2)
            (switch_block c b lba e f w) _ (switch_block-Merged b lba e f w) λ o k. (refl, k))
          λ o k. rw k.0 k.1)
    | inr q ↦ rw q (random_merge-Merged b lba e f w)
  ]

-- The test of `is_sequential`, from place `i` on, is true just if each entry names its own place.
pub in_order-each :
    (i : ℕ) (ps : List (Option ℕ))
    → (in_order i ps ≡ true) ↔ ((j : ℕ) → j < length ps → get_elem? ps j ≡ some (some (i + j)))
unfolding in_order
in_order-each i ps = (there i ps, back i ps)
  where
    there :
        (i : ℕ) (ps : List (Option ℕ))
        → in_order i ps ≡ true
        → (j : ℕ) → j < length ps
        → get_elem? ps j ≡ some (some (i + j))
    there i [] e j lt = absurd (omega arith)
    there i (none ∷ ps) e j lt = absurd (ground arith)
    there i (some k ∷ ps) e zero lt =
        let same : k ≡ i = ground arith in ap (λ (x : ℕ). some (some x)) (same ∙ (omega arith))
    there i (some k ∷ ps) e (suc j) lt =
        let rest : in_order (suc i) ps ≡ true = ground arith in
        there (suc i) ps rest j (omega arith) ∙ ap (λ (x : ℕ). some (some x)) (omega arith)

    back :
        (i : ℕ) (ps : List (Option ℕ))
        → ((j : ℕ) → j < length ps → get_elem? ps j ≡ some (some (i + j)))
        → in_order i ps ≡ true
    back i [] h = refl
    back i (none ∷ ps) h = absurd (let z = h 0 (omega arith) in ground arith)
    back i (some k ∷ ps) h =
        let z = h 0 (omega arith) in
        let same : k ≡ i = some-injective _ _ (some-injective _ _ z) ∙ (omega arith) in
        let rest =
          back (suc i) ps
            (λ j lt. h (suc j) (omega arith) ∙ ap (λ (x : ℕ). some (some x)) (omega arith)) in
        ground arith
