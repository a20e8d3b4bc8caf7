-- ===== src/Tournaments/Bracket.antt =====
-- The bracket of a division (web/src/features/tournaments/DivisionBracket.tsx): its columns, the lines
-- between them, and the names it shows; and the columns and names of the same bracket on a TV
-- (web/src/features/overlay/tv/TVKioskBracket.tsx). A height doubled is written so; a seed stands apart
-- from the name it goes before.
pub mod Columns
pub mod Connectors
pub mod Names
mod Examples
use Prim.Native.String.{String}
use court_command.Prelude.{
  ℕ, zero, suc, ◌+◌, ◌-◌, ◌*◌, ◌/◌, ◌%◌, ◌^◌, ◌≤◌, ◌<◌, min, max, ◌≡◌, refl, sym, ap, ◌∙◌, subst,
  ◌≢◌, ◌↔◌, ◌⊎◌, inl, inr, Bool, true, false, not, ◌&&◌, ◌||◌, false≢true, Option, none, some, List,
  [], ◌∷◌, ◌++◌, map, arith, ltb, leb, ◌==◌, if◌then◌else◌, ltb→lt, lt→ltb, leb→le, ==_iff, ==_refl,
  Bool-cases, Option-cases, or_else, if_both, length, get_elem?, filter, any, all, length-append,
  length-filter-le, filter-filter, any-filter, filter-eq_of_length, filter-all, filter-true,
  filter-false, filter-append, All, In, Ordered, All-filter, Ordered-filter, In-filter,
  In-of_filter, In-map, All-map, All-In, All-append, Ordered-map,
}
use court_command.Prelude.Text.{is_empty}
use court_command.Grouping.{group_from, sorted_keys, column}

pub record TeamSummary : Type 0 where
  pub name : String
  pub short_name : Option String

-- Of a match the columns read these.
pub record BracketMatch : Type 0 where
  pub id : ℕ
  pub round : Option ℕ
  pub match_number : Option ℕ
  pub round_name : Option String

abbrev pub round_of : BracketMatch → ℕ
round_of m = or_else m.round 1

abbrev pub number_of : BracketMatch → ℕ
number_of m = or_else m.match_number 0

-- `rounds` and `roundKeys`.
pub rounds : List BracketMatch → List (ℕ × List BracketMatch)
rounds matches = group_from round_of [] matches

pub round_keys : List BracketMatch → List ℕ
unfolding rounds
round_keys matches = sorted_keys (rounds matches)

-- `roundMatches`.
pub round_matches : List BracketMatch → ℕ → List BracketMatch
unfolding rounds
round_matches matches round = column number_of (rounds matches) round

pub data RoundLabel : Type 0 where
  named : String → RoundLabel
  finals semifinals quarterfinals : RoundLabel
  round_number : ℕ → RoundLabel

abbrev pub label_by_place : ℕ → ℕ → RoundLabel
label_by_place round total_rounds =
    if total_rounds == round
    then finals
    else if total_rounds == round + 1
    then semifinals
    else if total_rounds == round + 2
    then quarterfinals
    else round_number round

pub get_round_label : ℕ → ℕ → Option String → RoundLabel
get_round_label round total_rounds none = label_by_place round total_rounds
get_round_label round total_rounds (some name) =
    if is_empty name then label_by_place round total_rounds else named name

-- The first match of a column gives the name.
abbrev pub first_name : List BracketMatch → Option String
first_name [] = none
first_name (m ∷ rest) = m.round_name

-- Whether lines are drawn after a column, of those from it on.
abbrev pub show_connectors : List ℕ → List BracketMatch → Bool
show_connectors [] matches = false
show_connectors (k ∷ later) matches = ltb 0 (length later) && ltb 1 (length matches)

-- The lines from two matches to the next round: the doubled heights of the two, and of the middle,
-- which the code halves once more.
pub record Connector : Type 0 where
  pub top : ℕ
  pub bottom : ℕ
  pub middle : ℕ

abbrev pub connector : ℕ → ℕ → ℕ → Connector
connector step match_height i =
    let top = 2 * (i * 2 * step) + match_height in
    let bottom = 2 * ((i * 2 + 1) * step) + match_height in
    record { top = top; bottom = bottom; middle = top + bottom }

-- The loop from an index on, with the turns left; its body leaves it where there is no second match.
pub connectors_from : ℕ → ℕ → ℕ → ℕ → ℕ → List Connector
connectors_from source_count step match_height i zero = []
connectors_from source_count step match_height i (suc turns) =
    let rest = connectors_from source_count step match_height (i + 1) turns in
    if leb source_count (i * 2 + 1) then [] else connector step match_height i ∷ rest

pub bracket_connectors : ℕ → ℕ → ℕ → List Connector
unfolding connectors_from
bracket_connectors source_count match_height gap =
    connectors_from source_count (match_height + gap) match_height 0 ((source_count + 1) / 2)

-- `totalHeight`, for a column that has a match.
pub total_height : ℕ → ℕ → ℕ → ℕ
total_height source_count match_height gap = source_count * (match_height + gap) - gap

pub data TeamName : Type 0 where
  team_name : Option ℕ → String → TeamName
  team_number : Option ℕ → ℕ → TeamName
  to_be_determined : TeamName

-- The text, if there is one that is not empty.
abbrev pub text_of : Option String → Option String
text_of none = none
text_of (some s) = if is_empty s then none else some s

abbrev pub short_name_of : Option TeamSummary → Option String
short_name_of none = none
short_name_of (some t) = text_of t.short_name

abbrev pub name_of : Option TeamSummary → Option String
name_of none = none
name_of (some t) = text_of (some t.name)

abbrev pub numbered_if_truthy : Option ℕ → Option ℕ → TeamName
numbered_if_truthy seed none = to_be_determined
numbered_if_truthy seed (some zero) = to_be_determined
numbered_if_truthy seed (some (suc id)) = team_number seed (suc id)

abbrev pub numbered_if_known : Option ℕ → Option ℕ → TeamName
numbered_if_known seed none = to_be_determined
numbered_if_known seed (some id) = team_number seed id

abbrev pub first_of : Option ℕ → Option String → Option String → TeamName → TeamName
first_of seed (some short) name fallback = team_name seed short
first_of seed none (some name) fallback = team_name seed name
first_of seed none none fallback = fallback

-- `teamDisplayName` of the division's page.
pub team_display_name : Option TeamSummary → Option ℕ → Option ℕ → TeamName
team_display_name team team_id seed =
    first_of seed (short_name_of team) (name_of team) (numbered_if_truthy seed team_id)

-- `formatTeamWithName` of the TV.
pub format_team_with_name : Option ℕ → Option TeamSummary → Option ℕ → TeamName
format_team_with_name none none seed = to_be_determined
format_team_with_name id team seed =
    first_of seed (short_name_of team) (name_of team) (numbered_if_known seed id)
