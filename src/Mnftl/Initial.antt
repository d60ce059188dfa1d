-- ===== src/Mnftl/Initial.antt =====
-- MNFTL and the block manager as their constructors leave them.
use mnftl.Base.{ℕ, ◌%◌, ◌≡◌, refl, sym, ◌∙◌, none, arith}
use mathlib.Core.Option.{none-ne-some}
use mnftl.Config.{Config}
use mnftl.BlockManager.{Machine, new_block_manager}
use mnftl.BlockManager.Alloc.Fresh.{NoReturns}
use mnftl.Mnftl.{new_mnftl, lbn_of, pmd_index_of, map_slot_of}
use mnftl.Mnftl.Tables.Laws.{entry_nil}
use mnftl.Mnftl.Inv.{IsSetUp, Inv, content}

mod_zero : (n : ℕ) → 0 % n ≡ 0
mod_zero n = omega arith

new_block_manager-NoReturns : (c : Config) → IsSetUp c → NoReturns c (new_block_manager c)
unfolding new_block_manager
new_block_manager-NoReturns c h = record {
  no_free = refl;
  no_invalid = refl;
  limit = refl;
  whole = mod_zero c.block_size;
}

-- MNFTL and the block manager as their constructors leave them have the invariant, in a
-- configuration set up for MNFTL, and no logical page holds data.
pub new_mnftl-Inv :
    (c : Config) (w : Machine)
    → IsSetUp c
    → w.manager ≡ new_block_manager c
    → Inv c (new_mnftl c) w × ((lpn : ℕ) → content c (new_mnftl c) w lpn ≡ none)
unfolding new_mnftl
new_mnftl-Inv c w h same = (
  record {
    returns = rw same (new_block_manager-NoReturns c h);
    current = λ e. absurd (ground arith);
    anchored = λ lbn i j p e. absurd (none-ne-some p (sym (entry_nil lbn i j) ∙ e));
    used = λ lbn i j p e. absurd (none-ne-some p (sym (entry_nil lbn i j) ∙ e));
  },
  λ lpn. rw (entry_nil (lbn_of c lpn) (pmd_index_of c lpn) (map_slot_of c lpn)) refl,
)
