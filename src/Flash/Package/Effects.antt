-- ===== src/Flash/Package/Effects.antt =====
-- What reads, writes and replacements of a page do to its package.
use mnftl.Base.{◌≡◌, false, ◌&&◌, ltb, leb, Run, Every, Every-bind, Every-assert, Every-fetch}
use mnftl.Config.{Config, rank}
use mnftl.Address.{Address}
use mnftl.Event.{Event}
use mnftl.Flash.Page.{Memory, point_to, store_payload}
use mnftl.Flash.Wear.{route}
use mnftl.Flash.Block.{Block}
use mnftl.Flash.Block.Effects.{block_view}
use mnftl.Flash.Effect.{View, within, Effect, Target, route-Effect, route-Target, within-same}
use mnftl.Flash.Die
use mnftl.Flash.Die.{Die}
use mnftl.Flash.Die.Effects
use mnftl.Flash.Die.Effects.{die_view}
use mnftl.Flash.Package.{Package, read, write, replace, modify_block}

abbrev pub package_view : View Package
package_view a d = within (λ x. x.die) die_view a d.dies

module _ (c : Config) (e : Event) (m : Memory) (d : Package) where
  pub read-Effect : Every (Effect package_view e (point_to c e m) d) (read c e m d)
  unfolding read
  read-Effect =
      Every-assert (Effect package_view e (point_to c e m) d)
        (ltb e.address.die d.size && ltb 1 (rank e.address.valid)) _
        (Every-bind (Effect (within (λ x. x.die) die_view) e (point_to c e m) d.dies)
          (Effect package_view e (point_to c e m) d) (route e.address.die (Die.read c e m) d.dies) _
          (route-Effect die_view (λ x. x.die) e (point_to c e m) (Die.read c e m)
            (Effects.read-Effect c e m) e.address.die d.dies)
          λ o k. record { done = k.done; later = k.later; memory = k.memory; kept = k.kept })

  pub write-Effect : Every (Effect package_view e (store_payload c e m) d) (write c e m d)
  unfolding write
  write-Effect =
      Every-assert (Effect package_view e (store_payload c e m) d)
        (ltb e.address.die d.size && ltb 1 (rank e.address.valid)) _
        (Every-bind (Effect (within (λ x. x.die) die_view) e (store_payload c e m) d.dies)
          (Effect package_view e (store_payload c e m) d)
          (route e.address.die (Die.write c e m) d.dies) _
          (route-Effect die_view (λ x. x.die) e (store_payload c e m) (Die.write c e m)
            (Effects.write-Effect c e m) e.address.die d.dies)
          λ o k. record { done = k.done; later = k.later; memory = k.memory; kept = k.kept })

  pub write-Target :
      e.noop ≡ false → Every (λ o. Target package_view e.address d o.3) (write c e m d)
  unfolding write
  write-Target h =
      Every-assert (λ o. Target package_view e.address d o.3)
        (ltb e.address.die d.size && ltb 1 (rank e.address.valid)) _
        (Every-bind (λ o. Target (within (λ x. x.die) die_view) e.address d.dies o.3)
          (λ o. Target package_view e.address d o.3) (route e.address.die (Die.write c e m) d.dies)
          _
          (route-Target die_view (λ x. x.die) e (store_payload c e m) (Die.write c e m) e.address
            (λ p. Effects.write-Target c e m p h) d.dies)
          λ o k. record { fresh = k.fresh; now = k.now })

pub replace-Effect :
    (e : Event) (m : Memory) (d : Package) → Every (Effect package_view e m d) (replace e m d)
unfolding replace
replace-Effect e m d =
    Every-bind (Effect (within (λ x. x.die) die_view) e m d.dies) (Effect package_view e m d)
      (route e.replace_address.die (Die.replace e m) d.dies) _
      (route-Effect die_view (λ x. x.die) e m (Die.replace e m) (Effects.replace-Effect e m)
        e.replace_address.die d.dies)
      λ o k. record { done = k.done; later = k.later; memory = k.memory; kept = k.kept }

-- An update of one block that keeps the states of its pages keeps those of the package.
pub modify_block_same :
    (a : Address) (f : Block → Run Block) (d : Package)
    → ((b : Block) → Every (λ b'. (x : Address) → block_view x b' ≡ block_view x b) (f b))
    → Every (λ d'. (x : Address) → package_view x d' ≡ package_view x d) (modify_block a f d)
unfolding modify_block
modify_block_same a f d h =
    let K = λ (d' : Package). (x : Address) → package_view x d' ≡ package_view x d in
    Every-assert K (leb 2 (rank a.valid)) _ (
      Every-fetch K d.dies a.die _ λ p q.
        Every-bind (λ p'. (x : Address) → die_view x p' ≡ die_view x p) K (Die.modify_block a f p) _
          (Effects.modify_block_same a f p h)
          λ p' k x. within-same (die_view x) d.dies a.die x.die p' q (k x))
