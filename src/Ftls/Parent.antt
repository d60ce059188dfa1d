-- ===== src/Ftls/Parent.antt =====
-- ssd_ftlparent.cpp: the base class of the FTLs. Its queries pass on to the controller.
use mnftl.Base.{ℕ, Run, abort}
use mnftl.Config.{PageState, BlockState}
use mnftl.Address.{Address}
use mnftl.Event.{Event}
use mnftl.Flash.Block.{Block}
use mnftl.Ssd
use mnftl.Ssd.Queries.{
  controller_erases_remaining, controller_least_worn, controller_state, controller_block_state,
}
use mnftl.BlockManager.{Machine}

-- `FtlParent::cleanup_block`: `assert(false)`.
abbrev pub parent_cleanup : {F : Type 0} → Event → ℕ → F → Machine → Run (Event × F × Machine)
parent_cleanup e block f w = abort

-- The queries of `FtlParent`.
pub get_erases_remaining : Address → Machine → Run ℕ
get_erases_remaining a w = controller_erases_remaining a w.ssd

pub get_least_worn : Address → Machine → Run Address
get_least_worn a w = controller_least_worn a w.ssd

pub get_state : Address → Machine → Run PageState
get_state a w = controller_state a w.ssd

pub get_block_state : Address → Machine → Run BlockState
get_block_state a w = controller_block_state a w.ssd

pub get_block_pointer : Address → Machine → Run Block
get_block_pointer a w = Ssd.get_block_pointer a w.ssd
