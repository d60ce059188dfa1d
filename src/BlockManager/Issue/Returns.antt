-- ===== src/BlockManager/Issue/Returns.antt =====
-- When `controller.issue` returns for the FTL, for a write and for a read of one page.
use mnftl.Base.{ℕ, ◌^◌, ◌≤◌, ◌<◌, ◌≡◌, refl, false, ok, Returns, Returns-bind}
use mnftl.Config.{Config, Status, EventType, rank}
use mnftl.Address.{Address}
use mnftl.Address.Linear.{InRange}
use mnftl.Event.{Event}
use mnftl.Flash.Kept.{raise}
use mnftl.Ssd.Returns.{IsDevice, ssd_count}
use mnftl.Controller
use mnftl.Controller.Returns.{Runs, no_rise, rise_in, Replaceable}
use mnftl.Controller.Returns.Issue.{issue-write-Runs, issue-read-Runs}
use mnftl.BlockManager.{Machine, issue}

-- The machine after an event: the device is well shaped, its counts have risen, the block manager is as it was.
abbrev pub Raised : Config → (Address → ℕ) → Machine → Machine → Type 0
Raised c delta w w' =
    IsDevice c w'.ssd
    × ((a : Address) → ssd_count a w'.ssd ≡ raise (delta a) (ssd_count a w.ssd))
    × (w'.manager ≡ w.manager)

module _ (c : Config) (pos : 0 < c.bus_ctrl_delay) (e : Event) (w : Machine) (size : e.size ≡ 1)
    (s : IsDevice c w.ssd) (lt : InRange c e.address) (full : 4 ≤ rank e.address.valid)
    (rep : Replaceable c e w.ssd) where
  pub issue-write-Returns :
      c.block_size < 2 ^ 32
      → e.event_type ≡ EventType.write
      → e.noop ≡ false
      → ssd_count e.address w.ssd ≡ ok e.address.page
      → Returns (λ o. Raised c (rise_in e.address) w o.2) (issue c e w)
  unfolding issue
  issue-write-Returns small t n at_end =
      Returns-bind (Runs c (rise_in e.address) e w.ssd)
        (λ (o : Status × Event × Machine). Raised c (rise_in e.address) w o.2)
        (Controller.issue c e w.memory w.ssd) _
        (issue-write-Runs c e w.memory w.ssd pos small t size s n lt full at_end rep)
        λ o k. (k.shaped, k.counts, refl)

  pub issue-read-Returns :
      e.event_type ≡ EventType.read → Returns (λ o. Raised c no_rise w o.2) (issue c e w)
  unfolding issue
  issue-read-Returns t =
      Returns-bind (Runs c no_rise e w.ssd)
        (λ (o : Status × Event × Machine). Raised c no_rise w o.2)
        (Controller.issue c e w.memory w.ssd) _
        (issue-read-Runs c e w.memory w.ssd pos t size s lt full rep)
        λ o k. (k.shaped, k.counts, refl)
