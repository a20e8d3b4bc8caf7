-- ===== src/Scoring/Override.antt =====
-- The dialog that overrides a score (web/src/features/scoring/ScoreOverrideModal.tsx). A number typed
-- as a score is natural, an input that is no number gives zero.
pub mod Edits
mod Examples
use Prim.Native.String.{String}
use Prim.Native.String
use Prim.Native.Char.{code}
use court_command.Prelude.{
  ℕ, zero, suc, ◌+◌, ◌-◌, ◌*◌, ◌/◌, ◌%◌, ◌^◌, ◌≤◌, ◌<◌, min, max, ◌≡◌, refl, sym, ap, ◌∙◌, subst,
  ◌≢◌, ◌↔◌, ◌⊎◌, inl, inr, Bool, true, false, not, ◌&&◌, ◌||◌, false≢true, Option, none, some, List,
  [], ◌∷◌, ◌++◌, map, arith, ltb, leb, ◌==◌, if◌then◌else◌, ltb→lt, lt→ltb, leb→le, ==_iff, ==_refl,
  Bool-cases, Option-cases, or_else, if_both, length, get_elem?, filter, any, all, length-append,
  length-filter-le, filter-filter, any-filter, filter-eq_of_length, filter-all, filter-true,
  filter-false, filter-append, All, In, Ordered, All-filter, Ordered-filter, In-filter,
  In-of_filter, In-map, All-map, All-In, All-append, Ordered-map,
}
use text.Mathlib.Text.{◌==◌ as str_eq}
use court_command.Prelude.Text.{trim, is_empty, is_space, codes}
use court_command.Scoring.Match.{Match, MatchStatus, Team, CompletedGame}
use court_command.Scoring.Actions.{OverrideGameInput, override_score, Request, request}

pub record GameRow : Type 0 where
  pub game_number : ℕ
  pub team_1_score : ℕ
  pub team_2_score : ℕ
  pub winner : Option Team

abbrev pub completed_row : CompletedGame → GameRow
completed_row g = record {
  game_number = g.game_num;
  team_1_score = g.team_one_score;
  team_2_score = g.team_two_score;
  winner = some g.winner;
}

abbrev pub current_row : Match → GameRow
current_row m = record {
  game_number = m.current_game;
  team_1_score = m.team_1_score;
  team_2_score = m.team_2_score;
  winner = none;
}

abbrev pub is_in_progress : MatchStatus → Bool
is_in_progress MatchStatus.in_progress = true
is_in_progress _ = false

pub build_initial_rows : Match → List GameRow
build_initial_rows m =
    let rows = map completed_row m.set_scores in
    if is_in_progress m.status && all (λ r. not (r.game_number == m.current_game)) rows
    then rows ++ current_row m ∷ []
    else rows

-- The inputs of a row.
pub data RowEdit : Type 0 where
  set_team_1_score set_team_2_score : ℕ → RowEdit
  set_winner : Option Team → RowEdit

abbrev pub edit_row : RowEdit → GameRow → GameRow
edit_row (set_team_1_score v) r = record r { team_1_score = v }
edit_row (set_team_2_score v) r = record r { team_2_score = v }
edit_row (set_winner v) r = record r { winner = v }

pub update_row : ℕ → RowEdit → List GameRow → List GameRow
update_row idx edit [] = []
update_row zero edit (r ∷ rows) = edit_row edit r ∷ rows
update_row (suc idx) edit (r ∷ rows) = r ∷ update_row idx edit rows

-- The length of a text in code units.
abbrev pub units : List ℕ → ℕ
units [] = 0
units (c ∷ cs) = (if leb 65536 c then 2 else 1) + units cs

abbrev pub text_length : String → ℕ
text_length s = units (codes s)

abbrev pub game_input : GameRow → OverrideGameInput
game_input r = record {
  game_number = r.game_number;
  team_1_score = r.team_1_score;
  team_2_score = r.team_2_score;
  winner = r.winner;
}

-- The dialog with the properties of its last render; `sent` are the requests made, the latest first.
pub record Dialog : Type 0 where
  pub is_open : Bool
  pub shown_match : Match
  pub rows : List GameRow
  pub reason : String
  pub error : Option String
  pub pending : Bool
  pub sent : List Request

-- What the effect sets when the dialog is open.
pub reset_to : Match → Dialog → Dialog
unfolding build_initial_rows
reset_to m d = record d { rows = build_initial_rows m; reason = ""; error = none }

pub mounted : Bool → Match → Dialog
unfolding build_initial_rows
mounted is_open m = record {
  is_open = is_open;
  shown_match = m;
  rows = build_initial_rows m;
  reason = "";
  error = none;
  pending = false;
  sent = [];
}

abbrev pub same_flag : Bool → Bool → Bool
same_flag true b = b
same_flag false b = not b

-- A render with other properties, and the effect on `[open, match.public_id]`.
pub rendered : Bool → Match → Dialog → Dialog
unfolding reset_to
rendered is_open m d =
    let next = record d { is_open = is_open; shown_match = m } in
    if same_flag d.is_open is_open && str_eq d.shown_match.public_id m.public_id
    then next
    else if is_open
    then reset_to m next
    else next

pub submit : Dialog → Dialog
submit d =
    if ltb (text_length (trim d.reason)) 10
    then record d { error = some "Reason must be at least 10 characters" }
    else record d {
      pending = true;
      sent =
          request d.shown_match.public_id (override_score (map game_input d.rows) (trim d.reason))
          ∷ d.sent;
    }

pub data Event : Type 0 where
  match_given : Bool → Match → Event
  row_edited : ℕ → RowEdit → Event
  reason_typed : String → Event
  submitted answered : Event

-- The inputs and the button work while the dialog is open, the button while no request is under way.
-- After an answer it is the parent that closes the dialog, by a render.
pub step : Event → Dialog → Dialog
unfolding rendered update_row submit
step (match_given is_open m) d = rendered is_open m d
step (row_edited idx edit) d =
    if d.is_open then record d { rows = update_row idx edit d.rows } else d
step (reason_typed text) d = if d.is_open then record d { reason = text } else d
step submitted d = if d.is_open && not d.pending then submit d else d
step answered d = record d { pending = false }

pub run : List Event → Dialog → Dialog
unfolding step
run [] d = d
run (e ∷ es) d = run es (step e d)
