-- ===== src/Scoring/Socket/Examples.antt =====
-- Tests of the live channel of a match, and its theorems at concrete inputs.
use court_command.Prelude.{false, some, List, [], ◌∷◌}
use court_command.Scoring.Socket.{
  Hook, Event, render, unmount, opened, closed, fired, step, run, initial, open_,
}
use court_command.Scoring.Socket.Slot.{Alive, run-Alive_from_mount}
use court_command.Scoring.Socket.Leak.{Finished, unmount_ends}

abbrev busy : List Event
busy = opened 1 ∷ closed 1 ∷ fired 2 ∷ opened 3 ∷ []

run-Alive_from_mount_example : Alive "m7" (run (step initial (render (some "m7"))) busy)
run-Alive_from_mount_example = run-Alive_from_mount "m7" busy (tt, (tt, (tt, (tt, tt))))

unmount_ends_example :
    Finished
      (run (step (run (step initial (render (some "m7"))) busy) unmount) (closed 3 ∷ fired 2 ∷ []))
unmount_ends_example =
    unmount_ends "m7" busy (closed 3 ∷ fired 2 ∷ []) (tt, (tt, (tt, (tt, tt)))) (tt, (tt, tt))

abbrev opened_hook : Hook
opened_hook = record initial {
  state = open_;
  ws_ref = some 1;
  active = some "m7";
  live = record { id = 1; public_id = "m7"; closing = false } ∷ [];
  next_id = 2;
}
