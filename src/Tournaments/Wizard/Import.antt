-- ===== src/Tournaments/Wizard/Import.antt =====
-- What is imported from the templates (web/src/features/tournaments/TournamentCreate.tsx).
use court_command.Prelude.{
  append-nil, and_left, and_right, ℕ, suc, ◌≡◌, refl, sym, ap, ◌∙◌, inl, inr, Bool, true, false,
  not, ◌&&◌, ◌||◌, some, List, [], ◌∷◌, ◌++◌, map, arith, ltb, ◌==◌, if◌then◌else◌, ==_iff,
  Bool-cases, length, filter, any, all, filter-false,
}
use court_command.Tournaments.Draft.{DivisionTemplate, template_to_draft}
use court_command.Tournaments.Wizard.{Wizard, has, toggle, chosen, handle_import_templates}
use court_command.Tournaments.Wizard.Page.{
  Event, act, act_all, run, offered, template_toggled, imported,
}

abbrev xor : Bool → Bool → Bool
xor true b = not b
xor false b = b

any-append :
    {A : Type 0} (p : A → Bool) (xs ys : List A) → any p (xs ++ ys) ≡ (any p xs || any p ys)
any-append p [] ys = refl
any-append p (x ∷ xs) ys = ground (arith, any-append p xs ys)

has-delete :
    (j i : ℕ) (s : List ℕ)
    → has j (filter (λ other. not (i == other)) s) ≡ (not (j == i) && has j s)
has-delete j i [] = ground arith
has-delete j i (x ∷ s) = ground (arith, has-delete j i s)

has-eq : (j i : ℕ) (s : List ℕ) → (j == i) ≡ true → has j s ≡ has i s
has-eq j i s e = ap (λ k. has k s) ((==_iff j i).0 e)

xor-delete : (e h : Bool) → (e ≡ true → h ≡ true) → (not e && h) ≡ xor e h
xor-delete true h k = sym (ap not (k refl))
xor-delete false h k = refl

xor-append : (e h : Bool) → (e ≡ true → h ≡ false) → (h || (e || false)) ≡ xor e h
xor-append true h k = ap (λ b. b || true) (k refl) ∙ sym (ap not (k refl))
xor-append false true k = refl
xor-append false false k = refl

has-toggle : (j i : ℕ) (s : List ℕ) → has j (toggle i s) ≡ xor (j == i) (has j s)
unfolding toggle
has-toggle j i s = elim (Bool-cases (has i s)) [
  | inl h ↦ rw h (has-delete j i s ∙ xor-delete (j == i) (has j s) (λ e. has-eq j i s e ∙ h))
  | inr h ↦ rw h (
      any-append (λ other. j == other) s (i ∷ [])
      ∙ xor-append (j == i) (has j s) (λ e. has-eq j i s e ∙ h))
]

toggle_all : List ℕ → List ℕ → List ℕ
toggle_all [] s = s
toggle_all (i ∷ is) s = toggle_all is (toggle i s)

-- A template's checkbox is clicked an odd number of times.
abbrev pub clicked_odd : ℕ → List ℕ → Bool
clicked_odd j [] = false
clicked_odd j (i ∷ is) = xor (j == i) (clicked_odd j is)

has-toggle_all :
    (j : ℕ) (is s : List ℕ) → has j (toggle_all is s) ≡ xor (clicked_odd j is) (has j s)
unfolding toggle_all
has-toggle_all j [] s = refl
has-toggle_all j (i ∷ is) s =
    has-toggle_all j is (toggle i s)
    ∙ ap (λ b. xor (clicked_odd j is) b) (has-toggle j i s)
    ∙ ground arith

filter-ext :
    {A : Type 0} (p q : A → Bool) (xs : List A) → ((a : A) → p a ≡ q a) → filter p xs ≡ filter q xs
filter-ext p q [] h = refl
filter-ext p q (x ∷ xs) h =
    ap (λ b. if b then x ∷ filter p xs else filter p xs) (h x)
    ∙ ap (λ ys. if q x then x ∷ ys else ys) (filter-ext p q xs h)

chosen-toggle_all :
    (is : List ℕ) (ts : List DivisionTemplate)
    → chosen (toggle_all is []) ts ≡ filter (λ t. clicked_odd t.id is) ts
chosen-toggle_all is ts =
    filter-ext (λ t. has t.id (toggle_all is [])) (λ t. clicked_odd t.id is) ts
      (λ t. has-toggle_all t.id is [] ∙ ground arith)

-- The picker is open, with some ids selected.
abbrev pub picking : List DivisionTemplate → List ℕ → Wizard → Wizard
picking ts selected w = record w {
  step = 1;
  show_template_picker = true;
  templates = some ts;
  selected = selected;
}

abbrev is_listed : List DivisionTemplate → ℕ → Bool
is_listed ts id = any (λ t. t.id == id) ts

click :
    (season_of : ℕ → ℕ → Bool) (i : ℕ) (s : List ℕ) (ts : List DivisionTemplate) (w : Wizard)
    → is_listed ts i ≡ true
    → act season_of (template_toggled i) (picking ts s w) ≡ picking ts (toggle i s) w
unfolding act run offered
click season_of i s ts w l = rw l refl

clicks :
    (season_of : ℕ → ℕ → Bool) (is : List ℕ) (s : List ℕ) (ts : List DivisionTemplate) (w : Wizard)
    → all (is_listed ts) is ≡ true
    → act_all season_of (map template_toggled is) (picking ts s w) ≡ picking ts (toggle_all is s) w
unfolding act_all act run offered toggle_all
clicks season_of [] s ts w l = refl
clicks season_of (i ∷ is) s ts w l =
    ap (act_all season_of (map template_toggled is))
      (click season_of i s ts w (and_left (is_listed ts i) (all (is_listed ts) is) l))
    ∙ clicks season_of is (toggle i s) ts w (and_right (is_listed ts i) (all (is_listed ts) is) l)

act_all-append :
    (season_of : ℕ → ℕ → Bool) (es fs : List Event) (w : Wizard)
    → act_all season_of (es ++ fs) w ≡ act_all season_of fs (act_all season_of es w)
unfolding act_all
act_all-append season_of [] fs w = refl
act_all-append season_of (e ∷ es) fs w = act_all-append season_of es fs (act season_of e w)

positive : (n : ℕ) → ltb 0 (suc n) ≡ true
positive n = ground arith

imported-divisions :
    (season_of : ℕ → ℕ → Bool) (s : List ℕ) (ts : List DivisionTemplate) (w : Wizard)
    → (act season_of imported (picking ts s w)).divisions
      ≡ w.divisions ++ map template_to_draft (chosen s ts)
unfolding act run offered handle_import_templates
imported-divisions season_of [] ts w = rw (filter-false ts) (sym (append-nil w.divisions))
imported-divisions season_of (i ∷ s) ts w = rw (positive (length s)) refl

-- With the template picker open and nothing selected, any clicks on the listed checkboxes followed by
-- the import append the drafts of exactly the templates clicked an odd number of times, in the order
-- of the list.
pub import_clicked :
    (season_of : ℕ → ℕ → Bool) (is : List ℕ) (ts : List DivisionTemplate) (w : Wizard)
    → all (is_listed ts) is ≡ true
    → (act_all season_of (map template_toggled is ++ imported ∷ []) (picking ts [] w)).divisions
      ≡ w.divisions ++ map template_to_draft (filter (λ t. clicked_odd t.id is) ts)
unfolding act_all
import_clicked season_of is ts w l =
    ap Wizard.divisions (
      act_all-append season_of (map template_toggled is) (imported ∷ []) (picking ts [] w)
      ∙ ap (act season_of imported) (clicks season_of is [] ts w l))
    ∙ imported-divisions season_of (toggle_all is []) ts w
    ∙ ap (λ cs. w.divisions ++ map template_to_draft cs) (chosen-toggle_all is ts)
