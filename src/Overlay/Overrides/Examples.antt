-- ===== src/Overlay/Overrides/Examples.antt =====
-- Tests of the overrides tab, and its theorems at concrete inputs.
use court_command.Prelude.{ℕ, ◌≡◌, refl, true, false, none, some, [], ◌∷◌}
use court_command.Overlay.Contract.{key_eq, team_1_name, team_1_score}
use court_command.Overlay.Overrides.{
  text, number, DataOverrides, edited, put, update, Tab, edit, fired, unmount, step, run, mount,
}
use court_command.Overlay.Overrides.Commit.{Waits, run-Waits_from_mount}
use court_command.Overlay.Overrides.Burst.{edits, edited_by, burst_commits_once}

abbrev named : DataOverrides
named = (team_1_name, text "Aces") ∷ []

abbrev fresh : Tab
fresh = record {
  draft = named;
  pending = none;
  flush_timer = none;
  timeouts = [];
  next_id = 0;
  confirm_clear_open = true;
  clear_pending = false;
  mounted = true;
  sent = [];
  failures = [];
  cleared = 0;
}

abbrev waiting : Tab
waiting = record fresh {
  pending = some named;
  flush_timer = some 0;
  timeouts = 0 ∷ [];
  next_id = 1;
}

-- Two edits within the delay make one request.
two_edits :
    (run (mount (some named)) (
      edit team_1_score (some (number 3))
      ∷ edit team_1_score (some (number 4))
      ∷ fired 0
      ∷ fired 1
      ∷ [])).sent
    ≡ update ((team_1_name, text "Aces") ∷ (team_1_score, number 4) ∷ []) ∷ []
unfolding run step mount put key_eq
two_edits = refl

run-Waits_from_mount_example :
    Waits (run (mount none) (edit team_1_score (some (number 3)) ∷ unmount ∷ []))
run-Waits_from_mount_example =
    run-Waits_from_mount none (edit team_1_score (some (number 3)) ∷ unmount ∷ [])

burst_commits_once_example :
    let u = run waiting (edit team_1_score (some (number 3)) ∷ edits ((team_1_name, none) ∷ [])) in
    let d = edited_by ((team_1_name, none) ∷ []) (edited team_1_score (some (number 3)) named) in
    (u.draft ≡ d)
    × (u.sent ≡ [])
    × ((id : ℕ) × (u.timeouts ≡ id ∷ []) × ((step u (fired id)).sent ≡ update d ∷ []))
burst_commits_once_example =
    burst_commits_once waiting team_1_score (some (number 3)) ((team_1_name, none) ∷ []) refl refl
