-- ===== src/Overlay/Contract.antt =====
-- The tables of override keys (web/src/features/overlay/contract.ts).
use Prim.Native.String.{String}
use mathlib.Core.Logic.{ite}
use text.Mathlib.Text.{◌==◌ as str_eq}
use court_command.Prelude.{
  ◌≡◌, ◌↔◌, refl, false≢true, ◌≡◌, refl, ◌↔◌, Bool, true, false, false≢true, List, [], ◌∷◌, ◌++◌,
  filter,
}

pub data OverrideKey : Type 0 where
  team_1_name team_1_short_name team_1_score team_1_color team_1_logo_url : OverrideKey
  team_1_game_wins team_1_player_1_name team_1_player_2_name : OverrideKey
  team_2_name team_2_short_name team_2_score team_2_color team_2_logo_url : OverrideKey
  team_2_game_wins team_2_player_1_name team_2_player_2_name : OverrideKey
  division_name tournament_name league_name round_label match_info court_name : OverrideKey
  tournament_logo_url league_logo_url : OverrideKey
  match_status serving_team server_number current_game : OverrideKey

pub OverrideKey-discrete : Discrete OverrideKey
OverrideKey-discrete = hlevel

-- `===` on override keys.
unfoldable pub key_eq : OverrideKey → OverrideKey → Bool
unfolding OverrideKey-discrete
key_eq a b = ite (OverrideKey-discrete a b) true false

pub key_eq_iff : (a b : OverrideKey) → (key_eq a b ≡ true) ↔ (a ≡ b)
unfolding key_eq
key_eq_iff a b = elim (OverrideKey-discrete a b) as (λ d. (ite d true false ≡ true) ↔ (a ≡ b)) [
  | yes p ↦ (λ _. p, λ _. refl)
  | no p ↦ (λ h. absurd (false≢true h), λ q. absurd (p q))
]

-- `OVERRIDE_KEY`.
pub key_text : OverrideKey → String
key_text team_1_name = "team_1_name"
key_text team_1_short_name = "team_1_short_name"
key_text team_1_score = "team_1_score"
key_text team_1_color = "team_1_color"
key_text team_1_logo_url = "team_1_logo_url"
key_text team_1_game_wins = "team_1_game_wins"
key_text team_1_player_1_name = "team_1_player_1_name"
key_text team_1_player_2_name = "team_1_player_2_name"
key_text team_2_name = "team_2_name"
key_text team_2_short_name = "team_2_short_name"
key_text team_2_score = "team_2_score"
key_text team_2_color = "team_2_color"
key_text team_2_logo_url = "team_2_logo_url"
key_text team_2_game_wins = "team_2_game_wins"
key_text team_2_player_1_name = "team_2_player_1_name"
key_text team_2_player_2_name = "team_2_player_2_name"
key_text division_name = "division_name"
key_text tournament_name = "tournament_name"
key_text league_name = "league_name"
key_text round_label = "round_label"
key_text match_info = "match_info"
key_text court_name = "court_name"
key_text tournament_logo_url = "tournament_logo_url"
key_text league_logo_url = "league_logo_url"
key_text match_status = "match_status"
key_text serving_team = "serving_team"
key_text server_number = "server_number"
key_text current_game = "current_game"

-- `OVERRIDE_KEY_GROUPS`.
abbrev pub override_key_groups : List (String × List OverrideKey)
override_key_groups =
    (
      "Team 1",
      team_1_name ∷ team_1_short_name ∷ team_1_score ∷ team_1_color ∷ team_1_logo_url
          ∷ team_1_game_wins ∷ [],
    )
    ∷ ("Team 1 roster", team_1_player_1_name ∷ team_1_player_2_name ∷ [])
    ∷ (
      "Team 2",
      team_2_name ∷ team_2_short_name ∷ team_2_score ∷ team_2_color ∷ team_2_logo_url
          ∷ team_2_game_wins ∷ [],
    )
    ∷ ("Team 2 roster", team_2_player_1_name ∷ team_2_player_2_name ∷ [])
    ∷ (
      "Match context",
      division_name ∷ tournament_name ∷ league_name ∷ round_label ∷ match_info ∷ court_name ∷ [],
    )
    ∷ ("Branding", tournament_logo_url ∷ league_logo_url ∷ [])
    ∷ ("Match state", match_status ∷ serving_team ∷ server_number ∷ current_game ∷ [])
    ∷ []

-- `NUMERIC_OVERRIDE_KEYS`.
abbrev pub numeric_override_keys : List OverrideKey
numeric_override_keys =
    team_1_score ∷ team_1_game_wins ∷ team_2_score ∷ team_2_game_wins ∷ serving_team ∷ server_number
    ∷ current_game ∷ []

-- The keys that the tab draws a row for, from the first to the last.
abbrev pub shown_keys : List (String × List OverrideKey) → List OverrideKey
shown_keys [] = []
shown_keys ((label, keys) ∷ groups) = keys ++ shown_keys groups

-- Each override key has exactly one row in the tab.
pub shown_once : (k : OverrideKey) → filter (key_eq k) (shown_keys override_key_groups) ≡ k ∷ []
unfolding key_eq
shown_once team_1_name = refl
shown_once _ = refl

-- Among the keys of the rows, the text of a key is the text of that key only.
pub text_unique :
    (k : OverrideKey)
    → filter (λ j. str_eq (key_text j) (key_text k)) (shown_keys override_key_groups) ≡ k ∷ []
unfolding key_text
text_unique team_1_name = refl
text_unique _ = refl
