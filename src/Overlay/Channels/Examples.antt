-- ===== src/Overlay/Channels/Examples.antt =====
-- Tests of the overlay channels, and their theorems at concrete inputs.
use Prim.Native.String.{String}
use court_command.Prelude.{ℕ, ◌≡◌, refl, true, false, Option, none, some, List, [], ◌∷◌, arith}
use court_command.Backoff.{backoff_delay}
use court_command.Overlay.Channels.{
  open_, disconnected, overlay, court, match_, Socket, Hook, find_socket, Event, render, unmount,
  opened, message, closed, fired, step, run, Message, match_update, aggregate_state, max_attempts,
  initial,
}
use court_command.Overlay.Channels.Connected.{Connected}
use court_command.Overlay.Channels.Lifetime.{
  subscription, mount-Connected, run-Connected_from_mount, Finished, unmount_quiesces,
}
use court_command.Overlay.Channels.Handover.{Leaking, handover_leaks}

abbrev game : Option String
game = some "m7"

abbrev score : Message
score = record { type = match_update; body = "11-9"; public_id = game }

-- Three sockets open, a score comes in, the court's socket breaks and connects again.
abbrev evening : List Event
evening =
    opened overlay 0
    ∷ opened court 1
    ∷ opened match_ 2
    ∷ message match_ 2 500 (some score)
    ∷ closed court 1
    ∷ fired court 3
    ∷ []

abbrev mounted : Hook
mounted = step initial (render true (some 4) game)

all_open : (run mounted (opened overlay 0 ∷ opened court 1 ∷ opened match_ 2 ∷ [])).state ≡ open_
unfolding run step initial aggregate_state max_attempts find_socket
all_open = refl

one_broken :
    let h =
      run mounted (opened overlay 0 ∷ opened court 1 ∷ opened match_ 2 ∷ closed court 1 ∷ []) in
    (h.state ≡ disconnected)
    × (h.pending court ≡ record { id = 3; sub = subscription 3 game; delay = 1000 } ∷ [])
unfolding run step initial aggregate_state max_attempts find_socket backoff_delay
one_broken = (refl, refl)

run-Connected_from_mount_example : Connected (subscription 3 game) (run mounted evening)
run-Connected_from_mount_example =
    run-Connected_from_mount 3 game evening (tt, (tt, (tt, (tt, (tt, (tt, tt))))))

unmount_quiesces_example :
    Finished (run (step (run mounted evening) unmount) (closed overlay 0 ∷ fired court 3 ∷ []))
unmount_quiesces_example =
    unmount_quiesces 3 game evening (closed overlay 0 ∷ fired court 3 ∷ [])
      (tt, (tt, (tt, (tt, (tt, (tt, tt)))))) (tt, (tt, tt))

abbrev first_socket : Socket
first_socket = record { id = 0; sub = subscription 3 game; closing = false }

handover_leaks_example :
    let h' = step (step mounted (render true (some 9) none)) (closed overlay 0) in
    Leaking
      (subscription 3 game)
      (subscription 8 none)
      (backoff_delay (mounted.attempts_ref overlay))
      h'
    × ((id : ℕ) × ((step h' unmount).live overlay
          ≡ record { id = id; sub = subscription 8 none; closing = false } ∷ []))
unfolding step initial
handover_leaks_example =
    handover_leaks (subscription 3 game) mounted first_socket 8 none (mount-Connected 3 game) refl
      (omega arith)
