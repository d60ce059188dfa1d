-- ===== src/BlockManager/Issue.antt =====
-- What `controller.issue` does to the machine, for a write, a read and a trim of one page.
pub mod Returns
use mnftl.Base.{◌≡◌, refl, false, ok, Every, Every-bind}
use mnftl.Config.{Config, Status, success, EventType}
use mnftl.Address.{Address}
use mnftl.Event.{Event, Later}
use mnftl.Flash.Page.{Memory, point_to, store_payload}
use mnftl.Flash.Effect.{IsUsed, Target}
use mnftl.Ssd.Effects.{ssd_view}
use mnftl.Controller
use mnftl.Controller.Effects.{issue-write, issue-read, issue-trim}
use mnftl.BlockManager.{Machine, issue}

-- An event goes through, with a given memory, and keeps the pages in use and the block manager.
pub record Issued (e : Event) (w : Machine) (memory : Memory) (o : Status × Event × Machine)
    : Type 0 where
  pub done : o.0 ≡ success
  pub later : Later e o.1
  pub same_memory : o.2.memory ≡ memory
  pub same_manager : o.2.manager ≡ w.manager
  pub kept : (a : Address) → IsUsed (ssd_view a w.ssd) → IsUsed (ssd_view a o.2.ssd)

module _ (c : Config) (e : Event) (w : Machine) where
  pub issue-write-Issued :
      e.event_type ≡ EventType.write
      → e.size ≡ 1
      → e.noop ≡ false
      → Every
          (λ o. Issued e w (store_payload c e w.memory) o × Target ssd_view e.address w.ssd o.2.ssd)
          (issue c e w)
  unfolding issue
  issue-write-Issued t s h =
      Every-bind _
        (λ o. Issued e w (store_payload c e w.memory) o × Target ssd_view e.address w.ssd o.2.ssd)
        (Controller.issue c e w.memory w.ssd) _ (issue-write c e w.memory w.ssd t s h)
        λ o k. (
          record {
            done = k.0.done;
            later = k.0.later;
            same_memory = k.0.memory;
            same_manager = refl;
            kept = k.0.kept;
          },
          k.1,
        )

  pub issue-read-Issued :
      e.event_type ≡ EventType.read
      → e.size ≡ 1
      → Every (Issued e w (point_to c e w.memory)) (issue c e w)
  unfolding issue
  issue-read-Issued t s =
      Every-bind _ (Issued e w (point_to c e w.memory)) (Controller.issue c e w.memory w.ssd) _
        (issue-read c e w.memory w.ssd t s)
        λ o k. record {
          done = k.done;
          later = k.later;
          same_memory = k.memory;
          same_manager = refl;
          kept = k.kept;
        }

  pub issue-trim-eq : e.event_type ≡ EventType.trim → e.size ≡ 1 → issue c e w ≡ ok (success, e, w)
  unfolding issue
  issue-trim-eq t s = rw (issue-trim c e w.memory w.ssd t s) refl
