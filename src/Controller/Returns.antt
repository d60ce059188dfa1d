-- ===== src/Controller/Returns.antt =====
-- When `Controller::issue` returns, for a read and for a write of one page.
pub mod Issue
use mnftl.Base.{
  ℕ, zero, suc, ◌+◌, ◌-◌, ◌*◌, ◌/◌, ◌%◌, ◌^◌, ◌≤◌, ◌<◌, max, ◌≡◌, refl, sym, ap, ◌∙◌, subst, ◌≢◌,
  ◌↔◌, ◌⊎◌, inl, inr, Bool, true, false, not, ◌&&◌, ◌||◌, Option, none, some, List, [], ◌∷◌, ◌++◌,
  map, arith, ltb, leb, ◌==◌, if◌then◌else◌, ltb→lt, lt→ltb, leb→le, le→leb, ==_iff, if_cases,
  Bool-cases, Option-cases, u32, u64, Run, ok, abort, ◌>>=◌, ◌>>◌, assert, or_abort, fetch, Every,
  Every-bind, Every-assert, Every_ok, Every-trivial, Every-fetch, Every-both, Every-map, Returns,
  Returns-bind, Returns-assert, Returns-fetch, Returns-Every, Returns-map, Returns-eq, length,
  get_elem?, set, replicate, count_if, keep_if, All, length-append, length-set, length-replicate,
  get_elem?-lt, get_elem?_total, get_elem?-set_self, get_elem?-set_ne, get_elem?-set,
  get_elem?-replicate, count_if-set, count_if-replicate, All_get, All-set,
}
use mnftl.Config.{Config, Status, success, EventType, rank}
use mnftl.Address.{Address}
use mnftl.Address.Linear.{InRange}
use mnftl.Event.{Event, Later, Later-refl, Later-trans, incr_time_taken-Later}
use mnftl.Bus
use mnftl.Bus.{Bus, ram_read, ram_write}
use mnftl.Bus.Returns.{IsBus, lock-Returns}
use mnftl.Flash.Page.{Memory, Outcome, point_to, store_payload}
use mnftl.Flash.Kept.{Kept, raise, raise_zero}
use mnftl.Flash.Effect.{IsUsed, Effect}
use mnftl.Ssd
use mnftl.Ssd.{Ssd}
use mnftl.Ssd.Effects
use mnftl.Ssd.Effects.{ssd_view}
use mnftl.Ssd.Returns
use mnftl.Ssd.Returns.{IsDevice, ssd_count, in_ssd}
use mnftl.Controller.Effects.{lock_bus-Effect, buffer-Effect, of_type}
use mnftl.Controller.{◌▷◌, lock_bus, buffer, issue_read, issue_write, issue}

-- A call goes through: it keeps the device well shaped and the pages in use, and raises the counts.
pub record Runs (c : Config) (delta : Address → ℕ) (e : Event) (d : Ssd)
    (o : Status × Event × Memory × Ssd) : Type 0 where
  pub done : o.0 ≡ success
  pub later : Later e o.1
  pub used : (a : Address) → IsUsed (ssd_view a d) → IsUsed (ssd_view a o.3)
  pub shaped : IsDevice c o.3
  pub counts : (a : Address) → ssd_count a o.3 ≡ raise (delta a) (ssd_count a d)

abbrev pub no_rise : Address → ℕ
no_rise _ = 0

abbrev pub rise_in : Address → Address → ℕ
rise_in a x = if in_ssd a x then 1 else 0

raise_add : (m n : ℕ) (r : Run ℕ) → raise n (raise m r) ≡ raise (m + n) r
raise_add m n (ok k) = ap ok (omega arith)
raise_add m n abort = refl

module _ (c : Config) where
  pub ▷-Runs :
      (s t : Address → ℕ) (e : Event) (d : Ssd) (r : Outcome Ssd)
      (next : Event → Memory → Ssd → Outcome Ssd)
      → Returns (Runs c s e d) r
      → ((o : Status × Event × Memory × Ssd)
          → Runs c s e d o
          → Returns (Runs c t o.1 o.3) (next o.1 o.2 o.3))
      → Returns (Runs c (λ a. s a + t a) e d) (r ▷ next)
  ▷-Runs s t e d r next h k =
      let P = Runs c (λ a. s a + t a) e d in
      Returns-bind (Runs c s e d) P r _ h λ o g. rw g.done (
        Returns-map (Runs c t o.1 o.3) P (next o.1 o.2 o.3) (k o g) λ x y. record {
          done = y.done;
          later = Later-trans e o.1 x.1 g.later y.later;
          used = λ a u. y.used a (g.used a u);
          shaped = y.shaped;
          counts = λ a.
              y.counts a ∙ ap (raise (t a)) (g.counts a) ∙ raise_add (s a) (t a) (ssd_count a d);
        })

  pub Runs-eq :
      (s t : Address → ℕ) (e : Event) (d : Ssd) (r : Outcome Ssd)
      → ((a : Address) → s a ≡ t a)
      → Returns (Runs c s e d) r
      → Returns (Runs c t e d) r
  Runs-eq s t e d r same h = Returns-map (Runs c s e d) (Runs c t e d) r h λ o g. record {
    done = g.done;
    later = g.later;
    used = g.used;
    shaped = g.shaped;
    counts = λ a. g.counts a ∙ ap (λ (n : ℕ). raise n (ssd_count a d)) (same a);
  }

  lock_bus-Shaped :
      (start duration : ℕ) (e : Event) (m : Memory) (d : Ssd)
      → IsDevice c d
      → e.address.pkg < c.ssd_size
      → 0 < duration
      → Returns
          (λ o. IsDevice c o.3 × ((a : Address) → ssd_count a o.3 ≡ ssd_count a d))
          (lock_bus start duration e m d)
  unfolding lock_bus
  lock_bus-Shaped start duration e m d s lt pos =
      Returns-bind (λ (o : Status × Event × Bus). IsBus c o.2)
        (λ (o : Status × Event × Memory × Ssd).
          IsDevice c o.3 × ((a : Address) → ssd_count a o.3 ≡ ssd_count a d))
        (Bus.lock e.address.pkg start duration e d.bus) _
        (lock-Returns c e.address.pkg start duration e d.bus s.wired lt pos)
        λ o k. (record { sized = s.sized; parts = s.parts; wired = k }, λ a. refl)

  pub lock_bus-Runs :
      (start duration : ℕ) (e : Event) (m : Memory) (d : Ssd)
      → IsDevice c d
      → e.address.pkg < c.ssd_size
      → 0 < duration
      → Returns (Runs c no_rise e d) (lock_bus start duration e m d)
  lock_bus-Runs start duration e m d s lt pos =
      let P = λ (o : Status × Event × Memory × Ssd).
        IsDevice c o.3 × ((a : Address) → ssd_count a o.3 ≡ ssd_count a d) in
      Returns-map (λ o. P o × Effect ssd_view e m d o) (Runs c no_rise e d)
        (lock_bus start duration e m d)
        (Returns-Every P (Effect ssd_view e m d) (lock_bus start duration e m d)
          (lock_bus-Shaped start duration e m d s lt pos) (lock_bus-Effect start duration e m d))
        λ o k. record {
          done = k.1.done;
          later = k.1.later;
          used = k.1.kept;
          shaped = k.0.0;
          counts = λ a. k.0.1 a ∙ sym (raise_zero (ssd_count a d));
        }

  pub buffer-Runs :
      (e : Event) (m : Memory) (d : Ssd)
      → IsDevice c d
      → Returns (Runs c no_rise e d) (buffer c e m d)
  unfolding buffer ram_read ram_write
  buffer-Runs e m d s = record {
    done = refl;
    later = Later-trans e _ _ (incr_time_taken-Later _ e) (incr_time_taken-Later _ _);
    used = λ a u. u;
    shaped = s;
    counts = λ a. sym (raise_zero (ssd_count a d));
  }

  -- An operation of the device, by its two sides.
  pub device-Runs :
      (same : Address → Bool) (k : ℕ) (e : Event) (m : Memory) (d : Ssd) (r : Outcome Ssd)
      → Returns (λ o. Kept (IsDevice c) ssd_count same k d o.3) r
      → Every (Effect ssd_view e m d) r
      → Returns (Runs c (λ a. if same a then k else 0) e d) r
  device-Runs same k e m d r h g =
      let Q = λ (o : Status × Event × Memory × Ssd). Kept (IsDevice c) ssd_count same k d o.3 in
      Returns-map (λ o. Q o × Effect ssd_view e m d o) (Runs c (λ a. if same a then k else 0) e d) r
        (Returns-Every Q (Effect ssd_view e m d) r h g)
        λ o x. record {
          done = x.1.done;
          later = x.1.later;
          used = x.1.kept;
          shaped = x.0.shaped;
          counts = x.0.counts;
        }

  -- What may be replaced: nothing, or a page in use.
  unfoldable pub Replaceable : Event → Ssd → Type 0
  Replaceable e d =
      (rank e.replace_address.valid ≡ 0)
      ⊎ ((rank e.replace_address.valid ≡ 5)
          × InRange c e.replace_address
          × IsUsed (ssd_view e.replace_address d))

  pub replace-Runs :
      (e : Event) (m : Memory) (d : Ssd)
      → IsDevice c d
      → InRange c e.address
      → Replaceable e d
      → Returns (Runs c no_rise e d) (Ssd.replace e m d)
  unfolding Replaceable
  replace-Runs e m d s lt h =
      let same = in_ssd e.replace_address in
      Runs-eq (λ a. if same a then 0 else 0) no_rise e d (Ssd.replace e m d) (λ a. ground arith)
        (device-Runs same 0 e m d (Ssd.replace e m d)
          (elim h [
            | inl unset ↦ Returns.replace_none-Kept c d s e m unset
            | inr (full, at, u) ↦ Returns.replace_full-Kept c d s e m full lt at u
          ])
          (Effects.replace-Effect e m d))

  pub moved :
      (delta : Address → ℕ) (e : Event) (d : Ssd) (o : Status × Event × Memory × Ssd)
      → Runs c delta e d o
      → Replaceable e d
      → Replaceable o.1 o.3
  unfolding Replaceable
  moved delta e d o k h =
      let same : o.1.replace_address ≡ e.replace_address =
        ap (λ (x : Event). x.replace_address) k.later.same in
      elim h [
        | inl unset ↦ inl (rw same unset)
        | inr (full, at, u) ↦
            inr ((rw same full), (rw same at), (rw same (k.used e.replace_address u)))
      ]
