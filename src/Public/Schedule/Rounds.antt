-- ===== src/Public/Schedule/Rounds.antt =====
-- What the schedule shows (web/src/features/public/PublicTournamentDetail.tsx).
use Prim.Native.String.{String}
use court_command.Prelude.{
  ℕ, ◌+◌, ◌≡◌, refl, sym, ap, ◌∙◌, inl, inr, Bool, true, false, List, [], ◌∷◌, ◌++◌, if◌then◌else◌,
  Bool-cases, or_else, filter, any,
}
use court_command.Prelude.{append_assoc, append-nil}
use court_command.Prelude.Text.{same_text, same_text→eq}
use court_command.Prelude.Maps.{TextMap, set_key, get_key, get-set, get-set_other}
use court_command.Scoring.Match.{
  MatchStatus, scheduled, warmup, in_progress, paused, completed, cancelled, forfeited,
}
use court_command.Public.Schedule.{
  LiveMatch, Filter, live, upcoming, over, is_live, is_upcoming, is_over, passes, round_key,
  push_round, add_rounds, by_round,
}

-- The matches under a heading, none where it is missing.
abbrev pub under : String → TextMap (List LiveMatch) → List LiveMatch
under key rounds = or_else (get_key key rounds) []

-- The headings: each where its first match stands.
abbrev pub headings : List String → List LiveMatch → List String
headings seen [] = seen
headings seen (m ∷ ms) =
    headings (if any (λ k. same_text k (round_key m)) seen then seen else seen ++ round_key m ∷ [])
      ms

abbrev pub keys : TextMap (List LiveMatch) → List String
keys [] = []
keys ((k, ms) ∷ rest) = k ∷ keys rest

under-push :
    (key : String) (m : LiveMatch) (rounds : TextMap (List LiveMatch))
    → under key (push_round m rounds)
      ≡ (if same_text (round_key m) key then under key rounds ++ m ∷ [] else under key rounds)
unfolding push_round
under-push key m rounds = elim (Bool-cases (same_text (round_key m) key)) [
  | inl e ↦
      rw (e, sym (same_text→eq (round_key m) key e))
        (ap (λ o. or_else o [])
          (get-set (round_key m) (under (round_key m) rounds ++ m ∷ []) rounds))
  | inr e ↦ rw e (
      ap (λ o. or_else o [])
        (get-set_other (round_key m) key (under (round_key m) rounds ++ m ∷ []) rounds e))
]

under-add :
    (key : String) (ms : List LiveMatch) (rounds : TextMap (List LiveMatch))
    → under key (add_rounds ms rounds)
      ≡ under key rounds ++ filter (λ m. same_text (round_key m) key) ms
unfolding add_rounds
under-add key [] rounds = sym (append-nil (under key rounds))
under-add key (m ∷ ms) rounds =
    under-add key ms (push_round m rounds)
    ∙ ap (λ xs. xs ++ filter (λ x. same_text (round_key x) key) ms) (under-push key m rounds)
    ∙ elim (Bool-cases (same_text (round_key m) key)) [
      | inl e ↦
          rw e (
            append_assoc (under key rounds) (m ∷ []) (filter (λ x. same_text (round_key x) key) ms))
      | inr e ↦ rw e refl
    ]

keys-set :
    (key : String) (value : List LiveMatch) (rounds : TextMap (List LiveMatch))
    → keys (set_key key value rounds)
      ≡ (if any (λ k. same_text k key) (keys rounds) then keys rounds else keys rounds ++ key ∷ [])
unfolding set_key
keys-set key value [] = refl
keys-set key value ((k, v) ∷ rest) = elim (Bool-cases (same_text k key)) [
  | inl e ↦ rw e refl
  | inr e ↦
      rw e (
        ap (λ r. k ∷ r) (keys-set key value rest) ∙ inside (any (λ j. same_text j key) (keys rest)))
]
  where
    inside :
        (b : Bool)
        → (k ∷ (if b then keys rest else keys rest ++ key ∷ []))
          ≡ (if b then k ∷ keys rest else (k ∷ keys rest) ++ key ∷ [])
    inside true = refl
    inside false = refl

keys-add :
    (ms : List LiveMatch) (rounds : TextMap (List LiveMatch))
    → keys (add_rounds ms rounds) ≡ headings (keys rounds) ms
unfolding add_rounds push_round
keys-add [] rounds = refl
keys-add (m ∷ ms) rounds =
    keys-add ms (push_round m rounds)
    ∙ ap (λ s. headings s ms) (keys-set (round_key m) (under (round_key m) rounds ++ m ∷ []) rounds)

-- Under each heading of the schedule stand the matches that pass the filter and belong to that round,
-- in their order; and the headings stand in the order of their first matches, each once.
pub by_round_lem :
    (f : Filter) (ms : List LiveMatch) (key : String)
    → (under key (by_round f ms) ≡ filter (λ m. same_text (round_key m) key) (filter (passes f) ms))
      × (keys (by_round f ms) ≡ headings [] (filter (passes f) ms))
unfolding by_round
by_round_lem f ms key =
    (under-add key (filter (passes f) ms) [], keys-add (filter (passes f) ms) [])

abbrev ones : List Bool → ℕ
ones [] = 0
ones (b ∷ bs) = (if b then 1 else 0) + ones bs

-- A match passes exactly one of the filters besides the one that shows all.
pub one_filter : (m : LiveMatch) → ones (passes live m ∷ passes upcoming m ∷ passes over m ∷ []) ≡ 1
unfolding passes is_live is_upcoming is_over
one_filter m = by_status m.status
  where
    by_status : (s : MatchStatus) → ones (is_live s ∷ is_upcoming s ∷ is_over s ∷ []) ≡ 1
    by_status scheduled = refl
    by_status warmup = refl
    by_status in_progress = refl
    by_status paused = refl
    by_status completed = refl
    by_status cancelled = refl
    by_status forfeited = refl
