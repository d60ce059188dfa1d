-- ===== src/Ssd/Effects.antt =====
-- What reads, writes and replacements of a page do to its ssd.
use mnftl.Base.{
  ◌≡◌, refl, false, ◌&&◌, ltb, leb, ◌==◌, if_cases, Run, Every, Every-bind, Every-assert,
  Every-fetch,
}
use mnftl.Config.{Config, rank}
use mnftl.Address.{Address}
use mnftl.Event.{Event, Later-refl}
use mnftl.Flash.Page.{Memory, point_to, store_payload}
use mnftl.Flash.Wear.{route}
use mnftl.Flash.Block.{Block}
use mnftl.Flash.Block.Effects.{block_view}
use mnftl.Flash.Effect.{View, within, Effect, Target, route-Effect, route-Target, within-same}
use mnftl.Flash.Package
use mnftl.Flash.Package.{Package}
use mnftl.Flash.Package.Effects
use mnftl.Flash.Package.Effects.{package_view}
use mnftl.Ssd.{Ssd, read, write, replace, modify_block}

abbrev pub ssd_view : View Ssd
ssd_view a d = within (λ x. x.pkg) package_view a d.packages

module _ (c : Config) (e : Event) (m : Memory) (d : Ssd) where
  pub read-Effect : Every (Effect ssd_view e (point_to c e m) d) (read c e m d)
  unfolding read
  read-Effect =
      Every-assert (Effect ssd_view e (point_to c e m) d)
        (ltb e.address.pkg d.size && leb 1 (rank e.address.valid)) _
        (Every-bind (Effect (within (λ x. x.pkg) package_view) e (point_to c e m) d.packages)
          (Effect ssd_view e (point_to c e m) d)
          (route e.address.pkg (Package.read c e m) d.packages) _
          (route-Effect package_view (λ x. x.pkg) e (point_to c e m) (Package.read c e m)
            (Effects.read-Effect c e m) e.address.pkg d.packages)
          λ o k. record { done = k.done; later = k.later; memory = k.memory; kept = k.kept })

  pub write-Effect : Every (Effect ssd_view e (store_payload c e m) d) (write c e m d)
  unfolding write
  write-Effect =
      Every-assert (Effect ssd_view e (store_payload c e m) d)
        (ltb e.address.pkg d.size && leb 1 (rank e.address.valid)) _
        (Every-bind (Effect (within (λ x. x.pkg) package_view) e (store_payload c e m) d.packages)
          (Effect ssd_view e (store_payload c e m) d)
          (route e.address.pkg (Package.write c e m) d.packages) _
          (route-Effect package_view (λ x. x.pkg) e (store_payload c e m) (Package.write c e m)
            (Effects.write-Effect c e m) e.address.pkg d.packages)
          λ o k. record { done = k.done; later = k.later; memory = k.memory; kept = k.kept })

  pub write-Target : e.noop ≡ false → Every (λ o. Target ssd_view e.address d o.3) (write c e m d)
  unfolding write
  write-Target h =
      Every-assert (λ o. Target ssd_view e.address d o.3)
        (ltb e.address.pkg d.size && leb 1 (rank e.address.valid)) _
        (Every-bind (λ o. Target (within (λ x. x.pkg) package_view) e.address d.packages o.3)
          (λ o. Target ssd_view e.address d o.3)
          (route e.address.pkg (Package.write c e m) d.packages) _
          (route-Target package_view (λ x. x.pkg) e (store_payload c e m) (Package.write c e m)
            e.address (λ p. Effects.write-Target c e m p h) d.packages)
          λ o k. record { fresh = k.fresh; now = k.now })

pub replace-Effect :
    (e : Event) (m : Memory) (d : Ssd) → Every (Effect ssd_view e m d) (replace e m d)
unfolding replace
replace-Effect e m d =
    if_cases (Every (Effect ssd_view e m d)) (rank e.replace_address.valid == 0)
      (λ _. record { done = refl; later = Later-refl e; memory = refl; kept = λ a u. u })
      λ _. Every-assert (Effect ssd_view e m d) (ltb e.replace_address.pkg d.size) _ (
        Every-bind (Effect (within (λ x. x.pkg) package_view) e m d.packages)
          (Effect ssd_view e m d) _ _
          (if_cases (Every (Effect (within (λ x. x.pkg) package_view) e m d.packages))
            (rank e.replace_address.valid == 5)
            (λ _.
              route-Effect package_view (λ x. x.pkg) e m (Package.replace e m)
                (Effects.replace-Effect e m) e.replace_address.pkg d.packages)
            (λ _. record { done = refl; later = Later-refl e; memory = refl; kept = λ a u. u }))
          λ o k. record { done = k.done; later = k.later; memory = k.memory; kept = k.kept })

-- An update of one block that keeps the states of its pages keeps those of the ssd.
pub modify_block_same :
    (a : Address) (f : Block → Run Block) (d : Ssd)
    → ((b : Block) → Every (λ b'. (x : Address) → block_view x b' ≡ block_view x b) (f b))
    → Every (λ d'. (x : Address) → ssd_view x d' ≡ ssd_view x d) (modify_block a f d)
unfolding modify_block
modify_block_same a f d h =
    let K = λ (d' : Ssd). (x : Address) → ssd_view x d' ≡ ssd_view x d in
    Every-assert K (leb 1 (rank a.valid)) _ (
      Every-fetch K d.packages a.pkg _ λ p q.
        Every-bind (λ p'. (x : Address) → package_view x p' ≡ package_view x p) K
          (Package.modify_block a f p) _ (Effects.modify_block_same a f p h)
          λ p' k x. within-same (package_view x) d.packages a.pkg x.pkg p' q (k x))
