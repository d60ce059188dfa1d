-- ===== src/Mnftl/Live/Initial.antt =====
-- MNFTL on a new device.
use mnftl.Base.{◌*◌, ◌≡◌, arith}
use mnftl.Config.{Config, total_pages}
use mnftl.Address.{no_address}
use mnftl.Address.Linear.{set_linear-InRange}
use mnftl.Ssd.{new_ssd}
use mnftl.Ssd.Initial.{new_ssd-IsNew}
use mnftl.BlockManager.{Machine, new_block_manager}
use mnftl.Mnftl.{new_mnftl, num_pmd_of, q_of}
use mnftl.Mnftl.Tables.Shape.{IsShaped-nil}
use mnftl.Mnftl.Tables.Laws.{entry_nil}
use mnftl.Mnftl.Live.{IsRunnable, Live, pages_left}

-- In a configuration that MNFTL can run on, the device, MNFTL and the block manager as their
-- constructors leave them meet the conditions of `Live`, and all pages of the device are left.
pub new_mnftl-Live :
    (c : Config) (w : Machine)
    → IsRunnable c
    → w.ssd ≡ new_ssd c
    → w.manager ≡ new_block_manager c
    → Live c (new_mnftl c) w × (pages_left c (new_mnftl c) w ≡ total_pages c)
unfolding new_mnftl new_block_manager
new_mnftl-Live c w run device manager =
    let new = new_ssd-IsNew c in
    (
      record {
        shaped = rw device new.0;
        unwritten = λ n h b.
            rw device (new.1 _ (set_linear-InRange c (n * c.block_size) no_address run.sized));
        current = λ e. absurd (ground arith);
        tables = IsShaped-nil (num_pmd_of c) (q_of c);
        mapped = λ lbn i j p e. absurd (let gone = entry_nil lbn i j in ground arith);
      },
      rw manager (omega arith),
    )
