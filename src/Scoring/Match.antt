-- ===== src/Scoring/Match.antt =====
-- The match as the backend sends it (web/src/features/scoring/types.ts).
-- Ids, scores and counts are natural numbers; a team's number is `team_1` or `team_2`; an optional
-- or nullable field is an `Option`.
use Prim.Native.String.{String}
use court_command.Prelude.{ℕ, Bool, Option, List}

pub data MatchStatus : Type 0 where
  scheduled warmup in_progress paused completed cancelled forfeited : MatchStatus

pub data MatchType : Type 0 where
  tournament quick pickup practice league : MatchType

pub data ScoringType : Type 0 where
  side_out rally : ScoringType

pub data Team : Type 0 where
  team_1 team_2 : Team

pub record Player : Type 0 where
  pub id : ℕ
  pub public_id : String
  pub display_name : String

pub record MatchTeam : Type 0 where
  pub id : ℕ
  pub name : String
  pub short_name : Option String
  pub primary_color : Option String
  pub logo_url : Option String
  pub players : Option (List Player)

pub record CompletedGame : Type 0 where
  pub game_num : ℕ
  pub team_one_score : ℕ
  pub team_two_score : ℕ
  pub winner : Team

-- A server number is 1 or 2, as a team's number.
pub record Match : Type 0 where
  pub id : ℕ
  pub public_id : String
  pub status : MatchStatus
  pub scoring_type : ScoringType
  pub points_to_win : ℕ
  pub win_by : ℕ
  pub best_of : ℕ
  pub current_game : ℕ
  pub team_1 : Option MatchTeam
  pub team_2 : Option MatchTeam
  pub team_1_score : ℕ
  pub team_2_score : ℕ
  pub team_1_games_won : ℕ
  pub team_2_games_won : ℕ
  pub serving_team : Option Team
  pub server_number : Option Team
  pub serving_player_id : Option ℕ
  pub timeouts_per_game : ℕ
  pub team_1_timeouts_used : ℕ
  pub team_2_timeouts_used : ℕ
  pub set_scores : List CompletedGame
  pub is_paused : Bool
  pub is_quick_match : Bool
  pub match_type : Option MatchType
  pub division_id : Option ℕ
  pub division_name : Option String
  pub tournament_id : Option ℕ
  pub tournament_name : Option String
  pub court_id : Option ℕ
  pub court_name : Option String
  pub match_series_id : Option ℕ
  pub scheduled_at : Option String
  pub started_at : Option String
  pub completed_at : Option String
  pub winner_team_id : Option ℕ
  pub loser_team_id : Option ℕ
  pub expires_at : Option String
  pub created_at : String
  pub updated_at : String

pub record ScoringActionResult : Type 0 where
  pub result : Match
  pub game_over_detected : Bool
  pub match_over_detected : Bool
  pub end_change_detected : Bool
