-- ===== src/Tests/Liveness.antt =====
-- Requests to MNFTL on a small device.
use mnftl.Base.{ℕ, ◌+◌, ◌<◌, ◌≡◌, refl, subst, Option, none, some, arith, Returns, All}
use mnftl.Config.{read, write, trim, EventType, AddressValid}
use mnftl.Address.{no_address, at}
use mnftl.Event.{Event, new_event, set_payload}
use mnftl.Flash.Effect.{IsUsed}
use mnftl.Ssd.Effects.{ssd_view}
use mnftl.Mnftl
use mnftl.Mnftl.{Mnftl, new_mnftl}
use mnftl.Mnftl.Inv.{Inv, lookup}
use mnftl.Mnftl.Initial.{new_mnftl-Inv}
use mnftl.Mnftl.Requests.{Answers, Holds, run, run_contents}
use mnftl.Mnftl.Requests.Sessions.{IsAllowed, run-Session, run-new_device, run-InDevice}
use mnftl.Mnftl.Live.{IsRunnable, Live, pages_left}
use mnftl.Mnftl.Live.Store.{Spent, write-Spent}
use mnftl.Mnftl.Live.Others.{read-Spent, trim-Spent}
use mnftl.Mnftl.Live.Initial.{new_mnftl-Live}
use mnftl.Tests.Sessions.{
  small, fresh_machine, no_cleanup, no_order, session, request, after_session, session_returns,
}

small-IsRunnable : IsRunnable small
small-IsRunnable = record {
  set_up = record { block_pos = omega arith; impl = refl; capacity = omega arith };
  sized = record {
    ssd_pos = omega arith;
    package_pos = omega arith;
    die_pos = omega arith;
    plane_pos = omega arith;
    block_pos = omega arith;
  };
  single = refl;
  timed = omega arith;
  small = omega arith;
  entries = omega arith;
}

allowed : (t : EventType) (lpn v : ℕ) → lpn < 16 → IsAllowed small (request t lpn (some v))
allowed t lpn v h = record {
  page = record { size = refl; here = omega arith; payload = refl };
  inside = omega arith;
}

session-IsAllowed : All (IsAllowed small) session
session-IsAllowed = (
  allowed write 2 7 (omega arith),
  (
    allowed write 1 8 (omega arith),
    (
      allowed read 2 0 (omega arith),
      (
        allowed write 2 9 (omega arith),
        (
          allowed read 2 0 (omega arith),
          (
            allowed write 3 5 (omega arith),
            (
              allowed write 9 6 (omega arith),
              (
                allowed read 1 0 (omega arith),
                (allowed trim 1 0 (omega arith), (allowed read 9 0 (omega arith), tt)),
              ),
            ),
          ),
        ),
      ),
    ),
  ),
)

new_mnftl-Live_example :
    Live small (new_mnftl small) fresh_machine
    × (pages_left small (new_mnftl small) fresh_machine ≡ 16)
new_mnftl-Live_example = new_mnftl-Live small fresh_machine small-IsRunnable refl refl

abbrev nothing : ℕ → Option ℕ
nothing _ = none

start-Inv : Inv small (new_mnftl small) fresh_machine
start-Inv = (new_mnftl-Inv small fresh_machine small-IsRunnable.set_up refl).0

start-Holds : Holds small (new_mnftl small) fresh_machine nothing
start-Holds lpn _ = (new_mnftl-Inv small fresh_machine small-IsRunnable.set_up refl).1 lpn

start-Live : Live small (new_mnftl small) fresh_machine
start-Live = (new_mnftl-Live small fresh_machine small-IsRunnable refl refl).0

start_left : pages_left small (new_mnftl small) fresh_machine ≡ 16
start_left = (new_mnftl-Live small fresh_machine small-IsRunnable refl refl).1

run-Session_example :
    Returns
      (λ o.
        (Answers session nothing o.0
          × Inv small o.1 o.2
          × Holds small o.1 o.2 (run_contents session nothing))
        × (Live small o.1 o.2
            × (pages_left small o.1 o.2 + 5 ≡ pages_left small (new_mnftl small) fresh_machine)))
      (run no_cleanup no_order small session (new_mnftl small) fresh_machine)
run-Session_example =
    run-Session no_cleanup no_order small small-IsRunnable refl session (new_mnftl small)
      fresh_machine nothing session-IsAllowed start-Inv start-Live start-Holds
      (rw start_left (omega arith))

run-new_device_example :
    Returns
      (λ o. Answers session nothing o.0 × Holds small o.1 o.2 (run_contents session nothing))
      (run no_cleanup no_order small session (new_mnftl small) fresh_machine)
run-new_device_example =
    run-new_device no_cleanup no_order small small-IsRunnable refl session fresh_machine
      session-IsAllowed refl refl (omega arith)

run-InDevice_example :
    Returns
      (λ o.
        (lpn ppn : ℕ)
        → lookup small o.1 lpn ≡ some ppn
        → (ppn < 16) × IsUsed (ssd_view (at small ppn AddressValid.page) o.2.ssd))
      (run no_cleanup no_order small session (new_mnftl small) fresh_machine)
run-InDevice_example =
    run-InDevice no_cleanup no_order small small-IsRunnable refl session fresh_machine
      session-IsAllowed refl refl (omega arith)

abbrev page_event : EventType → ℕ → Option ℕ → Event
page_event t lpn v = set_payload v (new_event t lpn 1 0)

write-Spent_example : Returns (Spent small small-IsRunnable 1 (new_mnftl small) fresh_machine) (
    Mnftl.write no_cleanup no_order small
      (page_event write 2 (some 6))
      (new_mnftl small)
      fresh_machine)
unfolding new_event no_address
write-Spent_example =
    write-Spent small small-IsRunnable no_cleanup no_order (page_event write 2 (some 6))
      (new_mnftl small) fresh_machine 6 start-Inv start-Live (rw start_left (omega arith))
      (record { event_type = refl; size = refl; noop = refl; payload = refl }) refl

-- The state after the session.
kept-Live : Live small after_session.1 after_session.2
kept-Live =
    (subst
      (Returns (λ o.
        (Answers session nothing o.0
          × Inv small o.1 o.2
          × Holds small o.1 o.2 (run_contents session nothing))
        × (Live small o.1 o.2
            × (pages_left small o.1 o.2 + 5 ≡ pages_left small (new_mnftl small) fresh_machine))))
      session_returns run_session).1.0
  where
    run_session :
        Returns
          (λ o.
            (Answers session nothing o.0
              × Inv small o.1 o.2
              × Holds small o.1 o.2 (run_contents session nothing))
            × (Live small o.1 o.2
                × (pages_left small o.1 o.2 + 5
                    ≡ pages_left small (new_mnftl small) fresh_machine)))
          (run no_cleanup no_order small session (new_mnftl small) fresh_machine)
    run_session =
        run-Session no_cleanup no_order small small-IsRunnable refl session (new_mnftl small)
          fresh_machine nothing session-IsAllowed start-Inv start-Live start-Holds
          (rw start_left (omega arith))

read-Spent_example :
    Returns
      (Spent small small-IsRunnable 0 after_session.1 after_session.2)
      (Mnftl.read small (page_event read 2 none) after_session.1 after_session.2)
unfolding new_event no_address
read-Spent_example =
    read-Spent small small-IsRunnable (page_event read 2 none) after_session.1 after_session.2
      kept-Live (record { event_type = refl; size = refl; noop = refl }) refl

trim-Spent_example :
    Returns
      (Spent small small-IsRunnable 0 after_session.1 after_session.2)
      (Mnftl.trim small (page_event trim 2 none) after_session.1 after_session.2)
unfolding new_event
trim-Spent_example =
    trim-Spent small small-IsRunnable (page_event trim 2 none) after_session.1 after_session.2
      kept-Live (record { event_type = refl; size = refl })
