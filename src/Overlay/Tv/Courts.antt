-- ===== src/Overlay/Tv/Courts.antt =====
-- The list of courts on a TV (web/src/features/overlay/tv/TVKioskBracket.tsx).
use court_command.Prelude.{
  ℕ, ◌≡◌, refl, sym, ap, ◌∙◌, inl, inr, Bool, true, false, not, ◌&&◌, List, [], ◌∷◌, ◌++◌, arith,
  leb, if◌then◌else◌, Bool-cases, if_both, filter, All, All-append,
}
use court_command.Grouping.{ranked}
use court_command.Sorting.{insert, sort}

-- Of a court the list of courts reads whether it has an active match and one on deck.
pub record CourtSummary : Type 0 where
  pub id : ℕ
  pub active_match : Bool
  pub on_deck_match : Bool

abbrev pub is_active : CourtSummary → Bool
is_active c = c.active_match

abbrev pub is_on_deck : CourtSummary → Bool
is_on_deck c = not c.active_match && c.on_deck_match

abbrev pub is_idle : CourtSummary → Bool
is_idle c = not c.active_match && not c.on_deck_match

-- `sorted`.
pub sorted_courts : List CourtSummary → List CourtSummary
sorted_courts courts =
    filter is_active courts ++ (filter is_on_deck courts ++ filter is_idle courts)

abbrev pub court_rank : CourtSummary → ℕ
court_rank c = if c.active_match then 0 else if c.on_deck_match then 1 else 2

insert-before :
    {A : Type 0} (le : A → A → Bool) (x : A) (ys : List A)
    → All (λ y. le x y ≡ true) ys
    → insert le x ys ≡ x ∷ ys
insert-before le x [] h = refl
insert-before le x (y ∷ ys) h = rw (h.0) refl

insert-after :
    {A : Type 0} (le : A → A → Bool) (x : A) (xs ys : List A)
    → All (λ y. le x y ≡ false) xs
    → insert le x (xs ++ ys) ≡ xs ++ insert le x ys
insert-after le x [] ys h = refl
insert-after le x (z ∷ zs) ys h = rw h.0 (ap (λ r. z ∷ r) (insert-after le x zs ys h.1))

filter_holds :
    {A : Type 0} (p : A → Bool) (Q : A → Type 0) (xs : List A)
    → ((a : A) → p a ≡ true → Q a)
    → All Q (filter p xs)
filter_holds p Q [] f = tt
filter_holds p Q (x ∷ xs) f = elim (Bool-cases (p x)) [
  | inl e ↦ rw e (f x e, filter_holds p Q xs f)
  | inr e ↦ rw e (filter_holds p Q xs f)
]

active_first : (c d : CourtSummary) → c.active_match ≡ true → ranked court_rank c d ≡ true
active_first c d e = rw e (ground arith)

after_active :
    (c d : CourtSummary)
    → c.active_match ≡ false
    → is_active d ≡ true
    → ranked court_rank c d ≡ false
after_active c d e f = rw (e, f) (if_both (λ r. leb r 0 ≡ false) c.on_deck_match refl refl)

on_deck_first :
    (c d : CourtSummary)
    → c.active_match ≡ false
    → c.on_deck_match ≡ true
    → d.active_match ≡ false
    → ranked court_rank c d ≡ true
on_deck_first c d e o f = rw (e, o, f) (if_both (λ r. leb 1 r ≡ true) d.on_deck_match refl refl)

after_on_deck :
    (c d : CourtSummary)
    → c.active_match ≡ false
    → c.on_deck_match ≡ false
    → is_on_deck d ≡ true
    → ranked court_rank c d ≡ false
after_on_deck c d e o f = ground arith

idle_last :
    (c d : CourtSummary)
    → c.active_match ≡ false
    → c.on_deck_match ≡ false
    → is_idle d ≡ true
    → ranked court_rank c d ≡ true
idle_last c d e o f = ground arith

not_active :
    (d : CourtSummary) (b : Bool) → (not d.active_match && b) ≡ true → d.active_match ≡ false
not_active d b e = ground arith

filter_each :
    (Q : CourtSummary → Type 0) (cs : List CourtSummary) (p : CourtSummary → Bool)
    → ((d : CourtSummary) → Q d)
    → All Q (filter p cs)
filter_each Q cs p f = filter_holds p Q cs (λ d e. f d)

-- A court added in front of the three lists.
abbrev with_court :
    Bool
    → Bool
    → CourtSummary
    → List CourtSummary
    → List CourtSummary
    → List CourtSummary
    → List CourtSummary
with_court a o c xs ys zs =
    (if a then c ∷ xs else xs)
    ++ ((if not a && o then c ∷ ys else ys) ++ (if not a && not o then c ∷ zs else zs))

placed :
    (active on_deck : Bool) (c : CourtSummary) (cs : List CourtSummary)
    → c.active_match ≡ active
    → c.on_deck_match ≡ on_deck
    → with_court active on_deck c (filter is_active cs) (filter is_on_deck cs) (filter is_idle cs)
      ≡ insert (ranked court_rank) c (sorted_courts cs)
unfolding sorted_courts
placed true on_deck c cs a o =
    let rest = filter is_on_deck cs ++ filter is_idle cs in
    let first : (d : CourtSummary) → ranked court_rank c d ≡ true = λ d. active_first c d a in
    (sym (
      insert-before (ranked court_rank) c (filter is_active cs ++ rest) (
        All-append (λ d. ranked court_rank c d ≡ true) (filter is_active cs) rest
          (filter_each (λ d. ranked court_rank c d ≡ true) cs is_active first)
          (All-append (λ d. ranked court_rank c d ≡ true) (filter is_on_deck cs) (filter is_idle cs)
            (filter_each (λ d. ranked court_rank c d ≡ true) cs is_on_deck first)
            (filter_each (λ d. ranked court_rank c d ≡ true) cs is_idle first)))))
placed false true c cs a o =
    let rest = filter is_on_deck cs ++ filter is_idle cs in
    (sym (
      insert-after (ranked court_rank) c (filter is_active cs) rest (
        filter_holds is_active (λ d. ranked court_rank c d ≡ false) cs
          (λ d e. after_active c d a e))
      ∙ ap (λ r. filter is_active cs ++ r)
          (insert-before (ranked court_rank) c rest (
            All-append (λ d. ranked court_rank c d ≡ true) (filter is_on_deck cs)
              (filter is_idle cs)
              (filter_holds is_on_deck (λ d. ranked court_rank c d ≡ true) cs
                (λ d e. on_deck_first c d a o (not_active d (d.on_deck_match) e)))
              (filter_holds is_idle (λ d. ranked court_rank c d ≡ true) cs
                (λ d e. on_deck_first c d a o (not_active d (not d.on_deck_match) e)))))))
placed false false c cs a o =
    (sym (
      insert-after (ranked court_rank) c (filter is_active cs)
        (filter is_on_deck cs ++ filter is_idle cs)
        (filter_holds is_active (λ d. ranked court_rank c d ≡ false) cs
          (λ d e. after_active c d a e))
      ∙ ap (λ r. filter is_active cs ++ r)
          (insert-after (ranked court_rank) c (filter is_on_deck cs) (filter is_idle cs) (
              filter_holds is_on_deck (λ d. ranked court_rank c d ≡ false) cs
                (λ d e. after_on_deck c d a o e))
            ∙ ap (λ r. filter is_on_deck cs ++ r)
                (insert-before (ranked court_rank) c (filter is_idle cs) (
                  filter_holds is_idle (λ d. ranked court_rank c d ≡ true) cs
                    (λ d e. idle_last c d a o e))))))

-- The courts are shown as a stable sort would: those with an active match, then those with one on
-- deck, then the others, each in the order they came.
pub sorted_courts_lem :
    (courts : List CourtSummary) → sorted_courts courts ≡ sort (ranked court_rank) courts
unfolding sorted_courts
sorted_courts_lem [] = refl
sorted_courts_lem (c ∷ cs) =
    placed c.active_match c.on_deck_match c cs refl refl
    ∙ ap (insert (ranked court_rank) c) (sorted_courts_lem cs)
