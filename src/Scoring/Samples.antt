-- ===== src/Scoring/Samples.antt =====
-- A match and an answer for the tests.
use court_command.Prelude.{ℕ, false, none, some, []}
use court_command.Scoring.Match.{Match, ScoringActionResult, in_progress, rally, team_1}

abbrev pub played : ℕ → Match
played score = record {
  id = 1;
  public_id = "m7";
  status = in_progress;
  scoring_type = rally;
  points_to_win = 11;
  win_by = 2;
  best_of = 3;
  current_game = 1;
  team_1 = none;
  team_2 = none;
  team_1_score = score;
  team_2_score = 0;
  team_1_games_won = 0;
  team_2_games_won = 0;
  serving_team = some team_1;
  server_number = some team_1;
  serving_player_id = none;
  timeouts_per_game = 2;
  team_1_timeouts_used = 0;
  team_2_timeouts_used = 0;
  set_scores = [];
  is_paused = false;
  is_quick_match = false;
  match_type = none;
  division_id = none;
  division_name = none;
  tournament_id = none;
  tournament_name = none;
  court_id = none;
  court_name = none;
  match_series_id = none;
  scheduled_at = none;
  started_at = none;
  completed_at = none;
  winner_team_id = none;
  loser_team_id = none;
  expires_at = none;
  created_at = "";
  updated_at = "";
}

abbrev pub answer : ℕ → ScoringActionResult
answer score = record {
  result = played score;
  game_over_detected = false;
  match_over_detected = false;
  end_change_detected = false;
}
