-- ===== src/Flash/Plane/Effects.antt =====
-- What reads, writes and replacements of a page do to its plane.
use mnftl.Base.{◌≡◌, false, ◌&&◌, ltb, leb, Run, Every, Every-bind, Every-assert, Every-fetch}
use mnftl.Config.{Config, rank}
use mnftl.Address.{Address}
use mnftl.Event.{Event}
use mnftl.Flash.Page.{Memory, point_to, store_payload}
use mnftl.Flash.Wear.{route}
use mnftl.Flash.Block.Effects.{block_view}
use mnftl.Flash.Effect.{View, within, Effect, Target, route-Effect, route-Target, within-same}
use mnftl.Flash.Block
use mnftl.Flash.Block.{Block}
use mnftl.Flash.Block.Effects
use mnftl.Flash.Plane.{Plane, read, write, replace, modify_block}

abbrev pub plane_view : View Plane
plane_view a d = within (λ x. x.block) block_view a d.blocks

module _ (c : Config) (e : Event) (m : Memory) (d : Plane) where
  pub read-Effect : Every (Effect plane_view e (point_to c e m) d) (read c e m d)
  unfolding read
  read-Effect =
      Every-assert (Effect plane_view e (point_to c e m) d)
        (ltb e.address.block d.size && ltb 3 (rank e.address.valid)) _
        (Every-bind (Effect (within (λ x. x.block) block_view) e (point_to c e m) d.blocks)
          (Effect plane_view e (point_to c e m) d)
          (route e.address.block (Block.read c e m) d.blocks) _
          (route-Effect block_view (λ x. x.block) e (point_to c e m) (Block.read c e m)
            (Effects.read-Effect c e m) e.address.block d.blocks)
          λ o k. record { done = k.done; later = k.later; memory = k.memory; kept = k.kept })

  pub write-Effect : Every (Effect plane_view e (store_payload c e m) d) (write c e m d)
  unfolding write
  write-Effect =
      Every-assert (Effect plane_view e (store_payload c e m) d)
        (ltb e.address.block d.size
          && ltb 3 (rank e.address.valid)
          && leb 4 (rank d.next_page.valid))
        _
        (Every-fetch (Effect plane_view e (store_payload c e m) d) d.blocks e.address.block _
          λ prev _.
            (Every-bind (Effect (within (λ x. x.block) block_view) e (store_payload c e m) d.blocks)
              (Effect plane_view e (store_payload c e m) d)
              (route e.address.block (Block.write c e m) d.blocks) _
              (route-Effect block_view (λ x. x.block) e (store_payload c e m) (Block.write c e m)
                (Effects.write-Effect c e m) e.address.block d.blocks)
              λ o k.
                Every-fetch (Effect plane_view e (store_payload c e m) d) o.3 o.1.address.block _
                  λ b _. record {
                    done = k.done;
                    later = k.later;
                    memory = k.memory;
                    kept = k.kept;
                  }))

  pub write-Target : e.noop ≡ false → Every (λ o. Target plane_view e.address d o.3) (write c e m d)
  unfolding write
  write-Target h =
      Every-assert (λ o. Target plane_view e.address d o.3)
        (ltb e.address.block d.size
          && ltb 3 (rank e.address.valid)
          && leb 4 (rank d.next_page.valid))
        _
        (Every-fetch (λ o. Target plane_view e.address d o.3) d.blocks e.address.block _
          λ prev _.
            (Every-bind (λ o. Target (within (λ x. x.block) block_view) e.address d.blocks o.3)
              (λ o. Target plane_view e.address d o.3)
              (route e.address.block (Block.write c e m) d.blocks) _
              (route-Target block_view (λ x. x.block) e (store_payload c e m) (Block.write c e m)
                e.address (λ p. Effects.write-Target c e m p h) d.blocks)
              λ o k.
                Every-fetch (λ o. Target plane_view e.address d o.3) o.3 o.1.address.block _
                  λ b _. record { fresh = k.fresh; now = k.now }))

pub replace-Effect :
    (e : Event) (m : Memory) (d : Plane) → Every (Effect plane_view e m d) (replace e m d)
unfolding replace
replace-Effect e m d = Every-assert (Effect plane_view e m d) (ltb e.address.block d.size) _ (
    Every-bind (Effect (within (λ x. x.block) block_view) e m d.blocks) (Effect plane_view e m d)
      (route e.replace_address.block (Block.replace e m) d.blocks) _
      (route-Effect block_view (λ x. x.block) e m (Block.replace e m) (Effects.replace-Effect e m)
        e.replace_address.block d.blocks)
      λ o k. record { done = k.done; later = k.later; memory = k.memory; kept = k.kept })

-- An update of one block that keeps the states of its pages keeps those of the plane.
pub modify_block_same :
    (a : Address) (f : Block → Run Block) (d : Plane)
    → ((b : Block) → Every (λ b'. (x : Address) → block_view x b' ≡ block_view x b) (f b))
    → Every (λ d'. (x : Address) → plane_view x d' ≡ plane_view x d) (modify_block a f d)
unfolding modify_block
modify_block_same a f d h =
    let K = λ (d' : Plane). (x : Address) → plane_view x d' ≡ plane_view x d in
    Every-assert K (leb 3 (rank a.valid)) _ (
      Every-fetch K d.blocks a.block _ λ p q.
        Every-bind (λ p'. (x : Address) → block_view x p' ≡ block_view x p) K (f p) _ (h p)
          λ p' k x. within-same (block_view x) d.blocks a.block x.block p' q (k x))
