-- ===== src/Flash/Block/Effects.antt =====
-- What reads, writes and replacements of a page do to its block.
use mnftl.Base.{
  ℕ, ◌≡◌, refl, inl, inr, false, ◌||◌, arith, ltb, if_cases, Bool-cases, Option-cases, ok, Every,
  Every-bind, Every-assert, get_elem?,
}
use mnftl.Config.{Config, invalid}
use mnftl.Address.{Address}
use mnftl.Event.{Event, Later-refl, incr_time_taken, incr_time_taken-Later}
use mnftl.Flash.Page
use mnftl.Flash.Page.{Page, Memory, Outcome, is_empty, is_invalid, point_to, store_payload}
use mnftl.Flash.Wear.{route}
use mnftl.Flash.Effect.{
  IsUsed, View, within, Effect, Target, route-Effect, route-Target, within-set,
}
use mnftl.Flash.Block.{Block, read, write, replace, invalidate_page}

abbrev page_view : View Page
page_view a p = ok p.state

abbrev pub block_view : View Block
block_view a b = within (λ x. x.page) page_view a b.pages

page_read-Effect :
    (c : Config) (e : Event) (m : Memory) (p : Page)
    → Every (Effect page_view e (point_to c e m) p) (Page.read c e m p)
unfolding Page.read incr_time_taken
page_read-Effect c e m p = record {
  done = refl;
  later = incr_time_taken-Later c.page_read_delay e;
  memory = refl;
  kept = λ a u. u;
}

page_write-Effect :
    (c : Config) (e : Event) (m : Memory) (p : Page)
    → Every (Effect page_view e (store_payload c e m) p) (Page.write c e m p)
unfolding Page.write incr_time_taken
page_write-Effect c e m p =
    Every-assert (Effect page_view e (store_payload c e m) p) (e.noop || is_empty p.state) _
      (record {
        done = refl;
        later = incr_time_taken-Later c.page_write_delay e;
        memory = refl;
        kept = λ a u. if_cases (λ (q : Page). is_empty q.state ≡ false) e.noop (λ _. u) (λ _. refl);
      })

page_write-Target :
    (c : Config) (e : Event) (m : Memory) (a : Address)
    → e.noop ≡ false
    → (p : Page) → Every (λ o. Target page_view a p o.3) (Page.write c e m p)
unfolding Page.write
page_write-Target c e m a h p = elim (Bool-cases (is_empty p.state)) [
  | inl q ↦ rw (h, q) (record { fresh = λ u. ground arith; now = refl })
  | inr q ↦ rw (h, q) tt
]

module _ (c : Config) (e : Event) (m : Memory) (b : Block) where
  pub read-Effect : Every (Effect block_view e (point_to c e m) b) (read c e m b)
  unfolding read
  read-Effect =
      Every-bind (Effect (within (λ x. x.page) page_view) e (point_to c e m) b.pages)
        (Effect block_view e (point_to c e m) b) (route e.address.page (Page.read c e m) b.pages) _
        (route-Effect page_view (λ x. x.page) e (point_to c e m) (Page.read c e m)
          (page_read-Effect c e m) e.address.page b.pages)
        λ o k. record { done = k.done; later = k.later; memory = k.memory; kept = k.kept }

  pub write-Effect : Every (Effect block_view e (store_payload c e m) b) (write c e m b)
  unfolding write
  write-Effect =
      Every-bind (Effect (within (λ x. x.page) page_view) e (store_payload c e m) b.pages)
        (Effect block_view e (store_payload c e m) b)
        (route e.address.page (Page.write c e m) b.pages) _
        (route-Effect page_view (λ x. x.page) e (store_payload c e m) (Page.write c e m)
          (page_write-Effect c e m) e.address.page b.pages)
        λ o k. record {
          done = k.done;
          later = k.later;
          memory = k.memory;
          kept = λ a u.
              if_cases (λ x. IsUsed (block_view a x)) o.1.noop (λ _. k.kept a u) (λ _. k.kept a u);
        }

  pub write-Target : e.noop ≡ false → Every (λ o. Target block_view e.address b o.3) (write c e m b)
  unfolding write
  write-Target h =
      Every-bind (λ o. Target (within (λ x. x.page) page_view) e.address b.pages o.3)
        (λ o. Target block_view e.address b o.3) (route e.address.page (Page.write c e m) b.pages) _
        (route-Target page_view (λ x. x.page) e (store_payload c e m) (Page.write c e m) e.address
          (page_write-Target c e m e.address h) b.pages)
        λ o k. record {
          fresh = k.fresh;
          now = if_cases (λ x. IsUsed (block_view e.address x)) o.1.noop (λ _. k.now) (λ _. k.now);
        }

-- Invalidation leaves every page in use.
pub invalidate_page_keeps :
    (i : ℕ) (b : Block)
    → Every
        (λ b'. (a : Address) → IsUsed (block_view a b) → IsUsed (block_view a b'))
        (invalidate_page i b)
unfolding invalidate_page
invalidate_page_keeps i b =
    Every-assert (λ b'. (a : Address) → IsUsed (block_view a b) → IsUsed (block_view a b'))
      (ltb i b.size) _
      (elim (Option-cases (get_elem? b.pages i)) [
        | inl q ↦ rw q tt
        | inr (p, q) ↦ rw q λ a u.
            if_cases (λ x. IsUsed (block_view a x)) (is_invalid p.state) (λ _. u)
              (λ _.
                within-set (page_view a) b.pages i a.page (record p { state = invalid }) q
                  (λ _. refl) u)
      ])

pub replace-Effect :
    (e : Event) (m : Memory) (b : Block) → Every (Effect block_view e m b) (replace e m b)
unfolding replace
replace-Effect e m b =
    Every-bind (λ b'. (a : Address) → IsUsed (block_view a b) → IsUsed (block_view a b'))
      (Effect block_view e m b) (invalidate_page e.replace_address.page b) _
      (invalidate_page_keeps e.replace_address.page b)
      λ b' k. record { done = refl; later = Later-refl e; memory = refl; kept = k }
