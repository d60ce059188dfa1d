-- ===== src/Tests/Witnesses.antt =====
-- The theorems at concrete inputs.
use mnftl.Base.{ℕ, ◌<◌, ◌≡◌, refl, Option, none, some, arith, Every, Every_ok, All}
use mnftl.Config.{EventType, read, write, trim, AddressValid, data_block}
use mnftl.Address.{Address, no_address}
use mnftl.Event.{Event, new_event, set_payload, set_address}
use mnftl.Flash.Page.{store_payload, point_to}
use mnftl.Flash.Effect.{Effect, Target}
use mnftl.Ssd.Effects.{ssd_view}
use mnftl.Controller
use mnftl.Controller.Effects.{issue-write, issue-read}
use mnftl.BlockManager.Alloc.{get_free_block}
use mnftl.BlockManager.Alloc.Fresh.{Handed, get_free_block_fresh}
use mnftl.Mnftl
use mnftl.Mnftl.{Mnftl, new_mnftl, count_trim, lbn_of, pmd_index_of, map_slot_of}
use mnftl.Mnftl.Inv.{IsSetUp, Inv, content}
use mnftl.Mnftl.Commit.{put, drop, Served}
use mnftl.Mnftl.Store.{write-Served}
use mnftl.Mnftl.Forget.{trim-Served}
use mnftl.Mnftl.Fetch.{buffered, shown, read-Served}
use mnftl.Mnftl.Requests.{IsPage, Answers, Holds, run, run_contents, run-Answers}
use mnftl.Mnftl.Initial.{new_mnftl-Inv}
use mnftl.Tests.Sessions.{
  small, fresh_machine, no_cleanup, no_order, session, request, after_session, session_returns,
}

small-IsSetUp : IsSetUp small
small-IsSetUp = record { block_pos = omega arith; impl = refl; capacity = omega arith }

is_page : (t : EventType) (lpn v : ℕ) → lpn < 16 → IsPage small (request t lpn (some v))
is_page t lpn v h = record { size = refl; here = omega arith; payload = refl }

session-IsPage : All (IsPage small) session
session-IsPage = (
  is_page write 2 7 (omega arith),
  (
    is_page write 1 8 (omega arith),
    (
      is_page read 2 0 (omega arith),
      (
        is_page write 2 9 (omega arith),
        (
          is_page read 2 0 (omega arith),
          (
            is_page write 3 5 (omega arith),
            (
              is_page write 9 6 (omega arith),
              (
                is_page read 1 0 (omega arith),
                (is_page trim 1 0 (omega arith), (is_page read 9 0 (omega arith), tt)),
              ),
            ),
          ),
        ),
      ),
    ),
  ),
)

new_mnftl-Inv_example :
    Inv small (new_mnftl small) fresh_machine
    × ((lpn : ℕ) → content small (new_mnftl small) fresh_machine lpn ≡ none)
new_mnftl-Inv_example = new_mnftl-Inv small fresh_machine small-IsSetUp refl

abbrev nothing : ℕ → Option ℕ
nothing _ = none

run-Answers-session :
    Every
      (λ o.
        Answers session nothing o.0
        × Inv small o.1 o.2
        × Holds small o.1 o.2 (run_contents session nothing))
      (run no_cleanup no_order small session (new_mnftl small) fresh_machine)
run-Answers-session =
    run-Answers no_cleanup no_order small small-IsSetUp refl session (new_mnftl small) fresh_machine
      nothing session-IsPage (new_mnftl-Inv small fresh_machine small-IsSetUp refl).0
      (λ lpn _. (new_mnftl-Inv small fresh_machine small-IsSetUp refl).1 lpn)

run-Answers_example :
    Every
      (λ o.
        Answers session nothing o.0
        × Inv small o.1 o.2
        × Holds small o.1 o.2 (run_contents session nothing))
      (run no_cleanup no_order small session (new_mnftl small) fresh_machine)
run-Answers_example =
    run-Answers no_cleanup no_order small small-IsSetUp refl session (new_mnftl small) fresh_machine
      nothing session-IsPage (new_mnftl-Inv small fresh_machine small-IsSetUp refl).0
      (λ lpn _. (new_mnftl-Inv small fresh_machine small-IsSetUp refl).1 lpn)

-- The state after the session, by what it holds.
kept_state :
    Inv small after_session.1 after_session.2
    × Holds small after_session.1 after_session.2 (run_contents session nothing)
kept_state =
    let k =
      Every_ok
        (λ o.
          Answers session nothing o.0
          × Inv small o.1 o.2
          × Holds small o.1 o.2 (run_contents session nothing))
        (run no_cleanup no_order small session (new_mnftl small) fresh_machine) run-Answers-session
        session_returns in
    (k.1, k.2)

abbrev page_event : EventType → ℕ → Option ℕ → Event
page_event t lpn v = set_payload v (new_event t lpn 1 0)

write-Served_example :
    Every (Served small (put 2 6 (content small after_session.1 after_session.2))) (
      Mnftl.write no_cleanup no_order small
        (page_event write 2 (some 6))
        after_session.1
        after_session.2)
unfolding new_event
write-Served_example =
    write-Served small small-IsSetUp refl no_cleanup no_order (page_event write 2 (some 6))
      after_session.1 after_session.2 6 kept_state.0
      (record { event_type = refl; size = refl; noop = refl; payload = refl }) (omega arith)

read-Served_example :
    Every
      (λ o.
        Served small (content small after_session.1 after_session.2) o
        × (o.2 ≡ after_session.1)
        × (buffered o.3.memory
            ≡ shown
                (content small after_session.1 after_session.2 2)
                (buffered after_session.2.memory)))
      (Mnftl.read small (page_event read 2 none) after_session.1 after_session.2)
unfolding new_event
read-Served_example =
    read-Served small (page_event read 2 none) after_session.1 after_session.2 refl kept_state.0
      (record { event_type = refl; size = refl; noop = refl })

trim-Served_example :
    Every
      (λ o.
        Served small (drop 2 (content small after_session.1 after_session.2)) o
        × (o.3 ≡ count_trim after_session.2))
      (Mnftl.trim small (page_event trim 2 none) after_session.1 after_session.2)
unfolding new_event
trim-Served_example =
    trim-Served small (page_event trim 2 none) after_session.1 after_session.2 (omega arith)
      kept_state.0 (record { event_type = refl; size = refl }) (omega arith)

-- A write to the first page of the new device.
abbrev first_page : Address
first_page = record no_address { valid = AddressValid.page }

issue-write_example :
    let e = set_address first_page (page_event write 0 (some 5)) in
    Every
      (λ o.
        Effect ssd_view e (store_payload small e fresh_machine.memory) fresh_machine.ssd o
        × Target ssd_view first_page fresh_machine.ssd o.3)
      (Controller.issue small e fresh_machine.memory fresh_machine.ssd)
unfolding new_event
issue-write_example =
    issue-write small (set_address first_page (page_event write 0 (some 5))) fresh_machine.memory
      fresh_machine.ssd refl refl refl

issue-read_example :
    let e = set_address first_page (page_event read 0 none) in
    Every
      (Effect ssd_view e (point_to small e fresh_machine.memory) fresh_machine.ssd)
      (Controller.issue small e fresh_machine.memory fresh_machine.ssd)
unfolding new_event
issue-read_example =
    issue-read small (set_address first_page (page_event read 0 none)) fresh_machine.memory
      fresh_machine.ssd refl refl

get_free_block_fresh_example :
    Every
      (Handed {F = Mnftl} no_cleanup no_order small refl
        (page_event write 0 (some 5))
        (new_mnftl small)
        fresh_machine)
      (get_free_block no_cleanup no_order small data_block
        (page_event write 0 (some 5))
        (new_mnftl small)
        fresh_machine)
get_free_block_fresh_example =
    get_free_block_fresh no_cleanup no_order small refl (page_event write 0 (some 5))
      (new_mnftl small) fresh_machine (omega arith)
      (new_mnftl-Inv small fresh_machine small-IsSetUp refl).0.returns
