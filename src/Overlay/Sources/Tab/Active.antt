-- ===== src/Overlay/Sources/Tab/Active.antt =====
-- The match that the source tab shows (web/src/features/overlay/controls/SourceTab.tsx).
use court_command.Prelude.{
  ℕ, zero, suc, ◌≤◌, ◌≡◌, refl, sym, subst, ◌⊎◌, inl, inr, Bool, true, false, ◌||◌, Option, none,
  some, List, [], ◌∷◌, arith, Bool-cases, length, filter, any, all, In, In-of_filter,
}
use court_command.Scoring.Match.{Match}
use court_command.Overlay.Sources.Tab.{
  is_on_court, is_scheduled, take, match_options, find_on_court, or_first, active_match,
}

-- A match that is played now or to be played.
abbrev pub is_open : Match → Bool
is_open m = is_on_court m.status || is_scheduled m.status

-- What the tab may show of the matches that it lists.
abbrev pub Shows : List Match → Option Match → Type 0
Shows ms none = ms ≡ []
Shows ms (some m) =
    (In m ms × (is_open m ≡ true))
    × ((is_on_court m.status ≡ true) ⊎ (any (λ x. is_on_court x.status) ms ≡ false))

In-take : (n : ℕ) (ms : List Match) (m : Match) → In m (take n ms) → In m ms
In-take zero ms m h = absurd h
In-take (suc n) [] m h = absurd h
In-take (suc n) (x ∷ ms) m (inl e) = inl e
In-take (suc n) (x ∷ ms) m (inr h) = inr (In-take n ms m h)

find-none : (ms : List Match) → find_on_court ms ≡ none → any (λ x. is_on_court x.status) ms ≡ false
unfolding find_on_court
find-none [] h = refl
find-none (x ∷ ms) h = elim (Bool-cases (is_on_court x.status)) [
  | inl e ↦ ground (arith, rw e at h)
  | inr e ↦ rw e (find-none ms (rw e at h))
]

find-In :
    (ms : List Match) (m : Match)
    → find_on_court ms ≡ some m
    → In m ms × (is_on_court m.status ≡ true)
unfolding find_on_court
find-In [] m h = ground arith
find-In (x ∷ ms) m h = elim (Bool-cases (is_on_court x.status)) [
  | inl e ↦
      let same : x ≡ m = ground (arith, rw e at h) in
      (inl (sym same), subst (λ s. is_on_court s.status ≡ true) same e)
  | inr e ↦ let (deep, on) = find-In ms m (rw e at h) in (inr deep, on)
]

options-open :
    (all : List Match) (m : Match) → In m (match_options all) → In m all × (is_open m ≡ true)
unfolding match_options
options-open all m h = In-of_filter is_open m all (In-take 20 (filter is_open all) m h)

chosen-Shows :
    (ms : List Match) (o : Option Match)
    → ((m : Match) → In m ms → is_open m ≡ true)
    → find_on_court ms ≡ o
    → Shows ms (or_first o ms)
unfolding or_first
chosen-Shows [] none k h = refl
chosen-Shows (x ∷ ms) none k h = ((inl refl, k x (inl refl)), inr (find-none (x ∷ ms) h))
chosen-Shows ms (some m) k h = let (deep, on) = find-In ms m h in ((deep, k m deep), inl on)

length-take : (n : ℕ) (ms : List Match) → length (take n ms) ≤ n
length-take zero ms = omega arith
length-take (suc n) [] = omega arith
length-take (suc n) (x ∷ ms) = omega (arith, length-take n ms)

-- The tab lists at most twenty matches of the court. It shows none if the list is empty; otherwise
-- it shows one of the list, which is scheduled or on the court, and one that is on the court if the
-- list has any.
pub active_match_lem :
    (all : List Match)
    → (length (match_options all) ≤ 20) × Shows (match_options all) (active_match all)
unfolding active_match match_options
active_match_lem all = (
  length-take 20 (filter is_open all),
  chosen-Shows (match_options all) (find_on_court (match_options all))
      (λ m h. (options-open all m h).1) refl,
)
