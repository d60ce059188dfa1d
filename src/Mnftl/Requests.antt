-- ===== src/Mnftl/Requests.antt =====
-- Requests to a device with MNFTL: `Ssd::event_arrive` of ssd_ssd.cpp, and `Controller::event_arrive`
-- of ssd_controller.cpp, and sessions of requests against a device of one array.
pub mod Sessions
use mnftl.Base.{
  ℕ, ◌*◌, ◌≡◌, refl, sym, ap, ◌∙◌, Bool, true, false, Option, none, some, List, [], ◌∷◌, leb, Run,
  ok, ◌>>=◌, ◌>>◌, assert, Every, Every-bind, Every-assert, Every-map, All,
}
use mathlib.Core.Bool.{false≢true}
use mnftl.Config.{Config, EventType, read, write, erase, merge, trim, Status, failure, total_pages}
use mnftl.Event.{Event, new_event, set_payload}
use mnftl.Ssd.{Ssd}
use mnftl.BlockManager.{Machine}
use mnftl.Mnftl
use mnftl.Mnftl.{Mnftl, Cleanup, Reply, count_trim}
use mnftl.Mnftl.Places.{Addressable}
use mnftl.Mnftl.Inv.{IsSetUp, Inv, content}
use mnftl.Mnftl.Commit.{put, drop}
use mnftl.Mnftl.Store.{write-Served}
use mnftl.Mnftl.Forget.{trim-Served}
use mnftl.Mnftl.Fetch.{buffered, shown, read-Served}

-- The arguments of `Ssd::event_arrive`.
pub record Request : Type 0 where
  pub event_type : EventType
  pub logical_address : ℕ
  pub size : ℕ
  pub start_time : ℕ
  pub buffer : Option ℕ

module _ (cleanup : Cleanup) (order : Ssd → List ℕ) where
  -- The branches of `Controller::event_arrive`.
  pub dispatch : EventType → Config → Event → Mnftl → Machine → Reply
  dispatch read c e f w = Mnftl.read c e f w
  dispatch write c e f w = Mnftl.write cleanup order c e f w
  dispatch trim c e f w = Mnftl.trim c e f w
  dispatch erase c e f w = ok (failure, e, f, w)
  dispatch merge c e f w = ok (failure, e, f, w)

  -- `Controller::event_arrive`
  pub event_arrive : Config → Event → Mnftl → Machine → Reply
  unfolding dispatch
  event_arrive c e f w = dispatch e.event_type c e f w

  -- `Ssd::event_arrive`. The answer is what `get_result_buffer` leads to, with the time taken.
  pub serve : Config → Request → Mnftl → Machine → Run ((ℕ × Option ℕ) × Mnftl × Machine)
  unfolding event_arrive
  serve c r f w = do
    assert (leb (r.logical_address * c.virtual_page_size) (total_pages c))
    let e = set_payload r.buffer (new_event r.event_type r.logical_address r.size r.start_time)
    (s, e', f', w') ← event_arrive c e f w
    ok ((e'.time_taken, buffered w'.memory), f', w')

  -- The requests in order.
  unfoldable pub run :
      Config → List Request → Mnftl → Machine → Run (List (Option ℕ) × Mnftl × Machine)
  unfolding serve
  run c [] f w = ok ([], f, w)
  run c (r ∷ rs) f w = do
    ((t, answer), f1, w1) ← serve c r f w
    (answers, f2, w2) ← run c rs f1 w1
    ok (answer ∷ answers, f2, w2)

-- A request of one page, with data to write.
abbrev pub has_data : Option ℕ → Bool
has_data none = false
has_data (some _) = true

pub record IsPage (c : Config) (r : Request) : Type 0 where
  pub size : r.size ≡ 1
  pub here : Addressable c r.logical_address
  pub payload : has_data r.buffer ≡ true

-- What a request makes of the contents: a device of one array.
abbrev put_data : ℕ → Option ℕ → (ℕ → Option ℕ) → ℕ → Option ℕ
put_data lpn none g = g
put_data lpn (some v) g = put lpn v g

abbrev pub apply_as : EventType → Request → (ℕ → Option ℕ) → ℕ → Option ℕ
apply_as write r g = put_data r.logical_address r.buffer g
apply_as trim r g = drop r.logical_address g
apply_as _ r g = g

abbrev pub apply : Request → (ℕ → Option ℕ) → ℕ → Option ℕ
apply r g = apply_as r.event_type r g

-- A read of a page that holds data answers with them.
abbrev pub AnswerAs : EventType → Request → (ℕ → Option ℕ) → Option ℕ → Type 0
AnswerAs read r g b = (v : ℕ) → g r.logical_address ≡ some v → b ≡ some v
AnswerAs _ r g b = Unit

abbrev pub Answers : List Request → (ℕ → Option ℕ) → List (Option ℕ) → Type 0
Answers [] g [] = Unit
Answers (r ∷ rs) g (b ∷ bs) = AnswerAs r.event_type r g b × Answers rs (apply r g) bs
Answers _ g _ = ⊥

abbrev pub run_contents : List Request → (ℕ → Option ℕ) → ℕ → Option ℕ
run_contents [] g = g
run_contents (r ∷ rs) g = run_contents rs (apply r g)

-- The contents on the logical pages that can be addressed.
abbrev pub Holds : Config → Mnftl → Machine → (ℕ → Option ℕ) → Type 0
Holds c f w g = (lpn : ℕ) → Addressable c lpn → content c f w lpn ≡ g lpn

pub event_of : Request → Event
event_of r = set_payload r.buffer (new_event r.event_type r.logical_address r.size r.start_time)

record Stepped (c : Config) (t : EventType) (r : Request) (g : ℕ → Option ℕ)
    (o : Status × Event × Mnftl × Machine) : Type 0 where
  inv : Inv c o.2 o.3
  holds : Holds c o.2 o.3 (apply_as t r g)
  answer : AnswerAs t r g (buffered o.3.memory)

module _ (cleanup : Cleanup) (order : Ssd → List ℕ) (c : Config) (set_up : IsSetUp c)
    (enabled : c.page_enable_data ≡ true) where
  module _ (r : Request) (page : IsPage c r) (f : Mnftl) (w : Machine) (v : Inv c f w)
      (g : ℕ → Option ℕ) (h : Holds c f w g) where
    write_data :
        (o : Option ℕ)
        → r.event_type ≡ write
        → r.buffer ≡ o
        → Every
            (λ x. Inv c x.2 x.3 × Holds c x.2 x.3 (put_data r.logical_address o g))
            (Mnftl.write cleanup order c (event_of r) f w)
    unfolding event_of new_event
    write_data none t b = absurd (false≢true (ap has_data (sym b) ∙ page.payload))
    write_data (some x) t b =
        Every-map _ _ (Mnftl.write cleanup order c (event_of r) f w)
          (λ o k. (k.inv, λ lpn a. k.contents lpn a ∙ (rw (h lpn a) refl)))
          (write-Served c set_up enabled cleanup order (event_of r) f w x v
            (record { event_type = t; size = page.size; noop = refl; payload = b }) page.here)

    dispatch-Stepped :
        (t : EventType)
        → r.event_type ≡ t
        → Every (Stepped c t r g) (dispatch cleanup order t c (event_of r) f w)
    unfolding dispatch event_of new_event
    dispatch-Stepped read t =
        Every-map _ (Stepped c read r g) (Mnftl.read c (event_of r) f w)
          (λ o k. record {
            inv = k.0.inv;
            holds = λ lpn a. k.0.contents lpn a ∙ h lpn a;
            answer = λ x q.
                k.2
                ∙ ap (λ (y : Option ℕ). shown y (buffered w.memory))
                    (h r.logical_address page.here ∙ q);
          })
          (read-Served c (event_of r) f w enabled v
            (record { event_type = t; size = page.size; noop = refl }))
    dispatch-Stepped write t =
        Every-map _ (Stepped c write r g) (Mnftl.write cleanup order c (event_of r) f w)
          (λ o k. record { inv = k.0; holds = k.1; answer = tt }) (write_data r.buffer t refl)
    dispatch-Stepped trim t =
        Every-map _ (Stepped c trim r g) (Mnftl.trim c (event_of r) f w)
          (λ o k. record {
            inv = k.0.inv;
            holds = λ lpn a. k.0.contents lpn a ∙ (rw (h lpn a) refl);
            answer = tt;
          })
          (trim-Served c (event_of r) f w set_up.block_pos v
            (record { event_type = t; size = page.size }) page.here)
    dispatch-Stepped erase t = record { inv = v; holds = h; answer = tt }
    dispatch-Stepped merge t = record { inv = v; holds = h; answer = tt }

    pub serve-Stepped :
        Every
          (λ o. Inv c o.1 o.2 × Holds c o.1 o.2 (apply r g) × AnswerAs r.event_type r g o.0.1)
          (serve cleanup order c r f w)
    unfolding serve event_arrive event_of new_event
    serve-Stepped =
        let P = λ (o : (ℕ × Option ℕ) × Mnftl × Machine).
          Inv c o.1 o.2 × Holds c o.1 o.2 (apply r g) × AnswerAs r.event_type r g o.0.1 in
        Every-assert P (leb (r.logical_address * c.virtual_page_size) (total_pages c)) _ (
          Every-bind (Stepped c r.event_type r g) P
            (dispatch cleanup order r.event_type c (event_of r) f w)
            (λ x. ok ((x.1.time_taken, buffered x.3.memory), x.2, x.3))
            (dispatch-Stepped r.event_type refl) λ o k. (k.inv, k.holds, k.answer))

  -- On a device set up for MNFTL that stores data, from a state with the invariant whose logical
  -- pages hold `g`: a session of requests that returns, each of one addressable page and with a
  -- buffer, has answered each read of a page that holds data with the data last written to it,
  -- leaves the pages as the writes and trims make them of `g`, and keeps the invariant.
  pub run-Answers :
      (rs : List Request) (f : Mnftl) (w : Machine) (g : ℕ → Option ℕ)
      → All (IsPage c) rs
      → Inv c f w
      → Holds c f w g
      → Every
          (λ o. Answers rs g o.0 × Inv c o.1 o.2 × Holds c o.1 o.2 (run_contents rs g))
          (run cleanup order c rs f w)
  unfolding run
  run-Answers [] f w g pages v h = (tt, v, h)
  run-Answers (r ∷ rs) f w g pages v h =
      let P = λ (o : List (Option ℕ) × Mnftl × Machine).
        Answers (r ∷ rs) g o.0 × Inv c o.1 o.2 × Holds c o.1 o.2 (run_contents (r ∷ rs) g) in
      Every-bind _ P (serve cleanup order c r f w) _ (serve-Stepped r pages.0 f w v g h) λ o k.
        Every-bind _ P (run cleanup order c rs o.1 o.2) _
          (run-Answers rs o.1 o.2 (apply r g) pages.1 k.0 k.1) λ o' k'. ((k.2, k'.0), k'.1, k'.2)
