-- ===== src/Tournaments/Bracket/Names.antt =====
-- The names of the teams on a division's page and on a TV
-- (web/src/features/tournaments/DivisionBracket.tsx, web/src/features/overlay/tv/TVKioskBracket.tsx).
use court_command.Prelude.{ℕ, zero, suc, ◌≡◌, refl, ap, ◌≢◌, Option, none, some}
use court_command.Tournaments.Bracket.{
  TeamSummary, team_display_name, format_team_with_name, short_name_of, name_of, first_of,
  numbered_if_known, numbered_if_truthy,
}

numbered_eq :
    (seed id : Option ℕ) → id ≢ some 0 → numbered_if_truthy seed id ≡ numbered_if_known seed id
numbered_eq seed none h = refl
numbered_eq seed (some zero) h = absurd (h refl)
numbered_eq seed (some (suc n)) h = refl

-- The page and the TV show the same name of a team, its seed included, whichever of the team, its id
-- and its seed are known, as long as the id is not zero.
pub same_names :
    (team : Option TeamSummary) (id seed : Option ℕ)
    → id ≢ some 0
    → team_display_name team id seed ≡ format_team_with_name id team seed
unfolding team_display_name format_team_with_name
same_names none none seed h = refl
same_names none (some n) seed h = numbered_eq seed (some n) h
same_names (some t) none seed h = refl
same_names (some t) (some n) seed h =
    ap (first_of seed (short_name_of (some t)) (name_of (some t))) (numbered_eq seed (some n) h)
