-- ===== src/Public/Schedule.antt =====
-- The schedule of a tournament's public page: ScheduleTab of
-- web/src/features/public/PublicTournamentDetail.tsx, its filter and its rounds.
-- The Map of the rounds is the list of its entries, in the order of their insertion.
pub mod Rounds
mod Examples
use Prim.Native.String.{String, ◌++◌ as str_append}
use court_command.Prelude.{
  ℕ, zero, suc, ◌+◌, ◌-◌, ◌*◌, ◌/◌, ◌%◌, ◌^◌, ◌≤◌, ◌<◌, min, max, ◌≡◌, refl, sym, ap, ◌∙◌, subst,
  ◌≢◌, ◌↔◌, ◌⊎◌, inl, inr, Bool, true, false, not, ◌&&◌, ◌||◌, false≢true, Option, none, some, List,
  [], ◌∷◌, ◌++◌, map, arith, ltb, leb, ◌==◌, if◌then◌else◌, ltb→lt, lt→ltb, leb→le, ==_iff, ==_refl,
  Bool-cases, Option-cases, or_else, if_both, length, get_elem?, filter, any, all, length-append,
  length-filter-le, filter-filter, any-filter, filter-eq_of_length, filter-all, filter-true,
  filter-false, filter-append, All, In, Ordered, All-filter, Ordered-filter, In-filter,
  In-of_filter, In-map, All-map, All-In, All-append, Ordered-map,
}
use court_command.Prelude.Maps.{TextMap, set_key, get_key}
use court_command.Scoring.Match.{
  MatchStatus, scheduled, warmup, in_progress, paused, completed, cancelled, forfeited,
}

-- What the tab uses of a LiveMatch.
pub record LiveMatch : Type 0 where
  pub id : ℕ
  pub status : MatchStatus
  pub round : Option ℕ
  pub round_name : Option String

pub data Filter : Type 0 where
  show_all live upcoming over : Filter

unfoldable pub is_live : MatchStatus → Bool
is_live in_progress = true
is_live warmup = true
is_live paused = true
is_live _ = false

unfoldable pub is_upcoming : MatchStatus → Bool
is_upcoming scheduled = true
is_upcoming _ = false

unfoldable pub is_over : MatchStatus → Bool
is_over completed = true
is_over forfeited = true
is_over cancelled = true
is_over _ = false

unfoldable pub passes : Filter → LiveMatch → Bool
unfolding is_live is_upcoming is_over
passes live m = is_live m.status
passes upcoming m = is_upcoming m.status
passes over m = is_over m.status
passes show_all m = true

abbrev pub filtered : Filter → List LiveMatch → List LiveMatch
filtered f = filter (passes f)

abbrev digit : ℕ → String
digit n =
    if n == 0
    then "0"
    else if n == 1
    then "1"
    else if n == 2
    then "2"
    else if n == 3
    then "3"
    else if n == 4
    then "4"
    else if n == 5
    then "5"
    else if n == 6
    then "6"
    else if n == 7
    then "7"
    else if n == 8
    then "8"
    else "9"

-- The decimal digits of a number; a number is fuel enough for its digits.
abbrev digits : ℕ → ℕ → String → String
digits zero n acc = str_append (digit (n % 10)) acc
digits (suc fuel) n acc =
    let more = digits fuel (n / 10) (str_append (digit (n % 10)) acc) in
    if ltb n 10 then str_append (digit n) acc else more

abbrev decimal : ℕ → String
decimal n = digits n n ""

-- `match.round ? ... : 'Unassigned'`.
unfoldable pub numbered : Option ℕ → String
numbered none = "Unassigned"
numbered (some zero) = "Unassigned"
numbered (some (suc n)) = str_append "Round " (decimal (suc n))

unfoldable pub round_key : LiveMatch → String
unfolding numbered
round_key m = or_else m.round_name (numbered m.round)

-- `const group = byRound.get(key) ?? []; group.push(match); byRound.set(key, group)`.
unfoldable pub push_round : LiveMatch → TextMap (List LiveMatch) → TextMap (List LiveMatch)
unfolding set_key get_key round_key
push_round m rounds =
    set_key (round_key m) (or_else (get_key (round_key m) rounds) [] ++ m ∷ []) rounds

unfoldable pub add_rounds : List LiveMatch → TextMap (List LiveMatch) → TextMap (List LiveMatch)
unfolding push_round
add_rounds [] rounds = rounds
add_rounds (m ∷ ms) rounds = add_rounds ms (push_round m rounds)

unfoldable pub by_round : Filter → List LiveMatch → TextMap (List LiveMatch)
unfolding add_rounds
by_round f ms = add_rounds (filtered f ms) []
