-- ===== src/Flash/Die/Effects.antt =====
-- What reads, writes and replacements of a page do to its die.
use mnftl.Base.{◌≡◌, false, ◌&&◌, ltb, leb, Run, Every, Every-bind, Every-assert, Every-fetch}
use mnftl.Config.{Config, rank}
use mnftl.Address.{Address}
use mnftl.Event.{Event}
use mnftl.Flash.Page.{Memory, point_to, store_payload}
use mnftl.Flash.Wear.{route}
use mnftl.Flash.Block.{Block}
use mnftl.Flash.Block.Effects.{block_view}
use mnftl.Flash.Effect.{View, within, Effect, Target, route-Effect, route-Target, within-same}
use mnftl.Flash.Plane
use mnftl.Flash.Plane.{Plane}
use mnftl.Flash.Plane.Effects
use mnftl.Flash.Plane.Effects.{plane_view}
use mnftl.Flash.Die.{Die, read, write, replace, modify_block}

abbrev pub die_view : View Die
die_view a d = within (λ x. x.plane) plane_view a d.planes

module _ (c : Config) (e : Event) (m : Memory) (d : Die) where
  pub read-Effect : Every (Effect die_view e (point_to c e m) d) (read c e m d)
  unfolding read
  read-Effect =
      Every-assert (Effect die_view e (point_to c e m) d)
        (ltb e.address.plane d.size && ltb 2 (rank e.address.valid)) _
        (Every-bind (Effect (within (λ x. x.plane) plane_view) e (point_to c e m) d.planes)
          (Effect die_view e (point_to c e m) d) (route e.address.plane (Plane.read c e m) d.planes)
          _
          (route-Effect plane_view (λ x. x.plane) e (point_to c e m) (Plane.read c e m)
            (Effects.read-Effect c e m) e.address.plane d.planes)
          λ o k. record { done = k.done; later = k.later; memory = k.memory; kept = k.kept })

  pub write-Effect : Every (Effect die_view e (store_payload c e m) d) (write c e m d)
  unfolding write
  write-Effect =
      Every-assert (Effect die_view e (store_payload c e m) d)
        (ltb e.address.plane d.size && ltb 2 (rank e.address.valid)) _
        (Every-bind (Effect (within (λ x. x.plane) plane_view) e (store_payload c e m) d.planes)
          (Effect die_view e (store_payload c e m) d)
          (route e.address.plane (Plane.write c e m) d.planes) _
          (route-Effect plane_view (λ x. x.plane) e (store_payload c e m) (Plane.write c e m)
            (Effects.write-Effect c e m) e.address.plane d.planes)
          λ o k. record { done = k.done; later = k.later; memory = k.memory; kept = k.kept })

  pub write-Target : e.noop ≡ false → Every (λ o. Target die_view e.address d o.3) (write c e m d)
  unfolding write
  write-Target h =
      Every-assert (λ o. Target die_view e.address d o.3)
        (ltb e.address.plane d.size && ltb 2 (rank e.address.valid)) _
        (Every-bind (λ o. Target (within (λ x. x.plane) plane_view) e.address d.planes o.3)
          (λ o. Target die_view e.address d o.3)
          (route e.address.plane (Plane.write c e m) d.planes) _
          (route-Target plane_view (λ x. x.plane) e (store_payload c e m) (Plane.write c e m)
            e.address (λ p. Effects.write-Target c e m p h) d.planes)
          λ o k. record { fresh = k.fresh; now = k.now })

pub replace-Effect :
    (e : Event) (m : Memory) (d : Die) → Every (Effect die_view e m d) (replace e m d)
unfolding replace
replace-Effect e m d = Every-assert (Effect die_view e m d) (ltb e.address.plane d.size) _ (
    Every-bind (Effect (within (λ x. x.plane) plane_view) e m d.planes) (Effect die_view e m d)
      (route e.replace_address.plane (Plane.replace e m) d.planes) _
      (route-Effect plane_view (λ x. x.plane) e m (Plane.replace e m) (Effects.replace-Effect e m)
        e.replace_address.plane d.planes)
      λ o k. record { done = k.done; later = k.later; memory = k.memory; kept = k.kept })

-- An update of one block that keeps the states of its pages keeps those of the die.
pub modify_block_same :
    (a : Address) (f : Block → Run Block) (d : Die)
    → ((b : Block) → Every (λ b'. (x : Address) → block_view x b' ≡ block_view x b) (f b))
    → Every (λ d'. (x : Address) → die_view x d' ≡ die_view x d) (modify_block a f d)
unfolding modify_block
modify_block_same a f d h =
    let K = λ (d' : Die). (x : Address) → die_view x d' ≡ die_view x d in
    Every-assert K (leb 3 (rank a.valid)) _ (
      Every-fetch K d.planes a.plane _ λ p q.
        Every-bind (λ p'. (x : Address) → plane_view x p' ≡ plane_view x p) K
          (Plane.modify_block a f p) _ (Effects.modify_block_same a f p h)
          λ p' k x. within-same (plane_view x) d.planes a.plane x.plane p' q (k x))
