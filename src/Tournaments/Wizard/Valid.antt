-- ===== src/Tournaments/Wizard/Valid.antt =====
-- What the requests of the wizard (web/src/features/tournaments/TournamentCreate.tsx) carry: the checks
-- of the first step, and the season against the league.
use Prim.Native.String.{String}
use court_command.Prelude.{
  and_left, and_right, ℕ, zero, suc, ◌-◌, ◌≤◌, ◌≡◌, refl, sym, ◌∙◌, ◌≢◌, ◌⊎◌, inl, inr, Bool, true,
  false, not, ◌&&◌, false≢true, Option, none, some, List, [], ◌∷◌, arith, ◌==◌, if◌then◌else◌,
  ==_iff, Bool-cases, All,
}
use court_command.Tournaments.Wizard.{
  handle_add_division, handle_edit_division, handle_save_division, handle_remove_division,
  handle_cancel_division, handle_import_templates, handle_failed, payload, handle_submit, Status,
  initial, handle_back, handle_created, handle_next, update_field, step_errors, has_none, is_none,
  TournamentPayload, Wizard,
}
use court_command.Tournaments.Wizard.Page.{
  is_pending, field_edited, league_chosen, league_cleared, season_chosen, next, back, submitted,
  created, templates_arrived, created_as, act, arrived, act_all, offered, league_chosen, is_truthy,
  season_offered, run, Event,
}
use court_command.Tournaments.Draft.{
  DivisionTemplate, FormEdit, edit_form, set_venue_id, set_description, set_contact_email,
  set_contact_phone, set_website_url, set_rules_document_url, set_logo_url, set_banner_url,
  set_sponsors, TournamentFormData,
}
use court_command.Prelude.Text.{is_empty, is_blank, codes, codes_lt}

abbrev pub IsReady : String → String → String → Type 0
IsReady name start end =
    (is_blank name ≡ false)
    × ((is_empty start ≡ false)
        × ((is_empty end ≡ false) × (codes_lt (codes end) (codes start) ≡ false)))

-- A season is one of the league, if there is a season.
abbrev pub season_fits : (ℕ → ℕ → Bool) → Option ℕ → Option ℕ → Bool
season_fits season_of league none = true
season_fits season_of none (some season) = false
season_fits season_of (some zero) (some season) = false
season_fits season_of (some (suc league)) (some season) = season_of (suc league) season

abbrev IsSent : (ℕ → ℕ → Bool) → TournamentPayload → Type 0
IsSent season_of p =
    IsReady p.name p.start_date p.end_date × (season_fits season_of p.league_id p.season_id ≡ true)

-- The three errors, on what they test.
errors_none : Bool → Bool → Bool → Bool → Bool
errors_none n s e l =
    is_none (if n then some "Tournament name is required" else none)
    && (is_none (if s then some "Start date is required" else none)
        && is_none (
            if not s && (not e && l)
            then some "End date must be on or after start date"
            else if e
            then some "End date is required"
            else none))

errors_none-false :
    (n s e l : Bool)
    → errors_none n s e l ≡ true
    → (n ≡ false) × ((s ≡ false) × ((e ≡ false) × (l ≡ false)))
unfolding errors_none
errors_none-false n s e l h = ground arith

has_none-IsReady :
    (f : TournamentFormData)
    → has_none (step_errors f) ≡ true
    → IsReady f.name f.start_date f.end_date
unfolding step_errors errors_none
has_none-IsReady f h =
    errors_none-false (is_blank f.name) (is_empty f.start_date) (is_empty f.end_date)
      (codes_lt (codes f.end_date) (codes f.start_date)) h

-- The invariant, on the step, the form's fields and the requests.
abbrev pub IsSound :
    (ℕ → ℕ → Bool)
    → ℕ
    → String
    → String
    → String
    → Option ℕ
    → Option ℕ
    → List TournamentPayload
    → Type 0
IsSound season_of step name start end league season sent =
    (step ≤ 2)
    × (((step ≡ 0) ⊎ IsReady name start end)
        × ((season_fits season_of league season ≡ true) × All (IsSent season_of) sent))

abbrev pub IsSoundWizard : (ℕ → ℕ → Bool) → Wizard → Type 0
IsSoundWizard season_of w =
    IsSound season_of w.step w.form.name w.form.start_date w.form.end_date w.form.league_id
      w.form.season_id w.sent

not_zero : (n m : ℕ) → n ≡ suc m → n ≢ 0
not_zero n m e z = omega arith

step-ready : {A : Type 0} (n m : ℕ) → (n ≡ 0) ⊎ A → n ≡ suc m → A
step-ready n m (inl z) e = absurd (not_zero n m e z)
step-ready n m (inr a) e = a

handle_next-IsSound :
    (season_of : ℕ → ℕ → Bool) (w : Wizard)
    → IsSoundWizard season_of w
    → IsSoundWizard season_of (handle_next w)
unfolding handle_next
handle_next-IsSound season_of w h = elim (Bool-cases (w.step == 0)) [
  | inl z ↦ elim (Bool-cases (has_none (step_errors w.form))) [
    | inl ok ↦ rw (z, ok) (omega arith, (inr (has_none-IsReady w.form ok), h.1.1))
    | inr bad ↦ rw (z, bad) h
  ]
  | inr later ↦ rw later (
    omega arith,
    (
      inr (elim h.1.0 [
        | inl z ↦ absurd (false≢true (sym later ∙ ((==_iff w.step 0).1 z)))
        | inr r ↦ r
      ]),
      h.1.1,
    ),
  )
]

update_field-IsSound :
    (season_of : ℕ → ℕ → Bool) (edit : FormEdit) (w : Wizard)
    → w.step ≡ 0
    → IsSoundWizard season_of w
    → IsSoundWizard season_of (update_field edit w)
unfolding update_field edit_form
update_field-IsSound season_of (FormEdit.set_name v) w z h = (h.0, (inl z, h.1.1))
update_field-IsSound season_of (FormEdit.set_start_date v) w z h = (h.0, (inl z, h.1.1))
update_field-IsSound season_of (FormEdit.set_end_date v) w z h = (h.0, (inl z, h.1.1))
update_field-IsSound season_of (set_venue_id v) w z h = h
update_field-IsSound season_of (set_description v) w z h = h
update_field-IsSound season_of (set_contact_email v) w z h = h
update_field-IsSound season_of (set_contact_phone v) w z h = h
update_field-IsSound season_of (set_website_url v) w z h = h
update_field-IsSound season_of (set_rules_document_url v) w z h = h
update_field-IsSound season_of (set_logo_url v) w z h = h
update_field-IsSound season_of (set_banner_url v) w z h = h
update_field-IsSound season_of (set_sponsors v) w z h = h

fits-unpicked :
    (season_of : ℕ → ℕ → Bool) (league season : Option ℕ)
    → is_truthy league ≡ false
    → season_fits season_of league season ≡ true
    → (id : Option ℕ) → season_fits season_of id season ≡ true
fits-unpicked season_of league none t h id = refl
fits-unpicked season_of none (some s) t h id = absurd (false≢true h)
fits-unpicked season_of (some zero) (some s) t h id = absurd (false≢true h)
fits-unpicked season_of (some (suc n)) (some s) t h id = absurd (false≢true (sym t))

fits-offered :
    (season_of : ℕ → ℕ → Bool) (league season : Option ℕ)
    → season_offered season_of league season ≡ true
    → season_fits season_of league season ≡ true
fits-offered season_of none season h = absurd (false≢true h)
fits-offered season_of (some zero) season h = absurd (false≢true h)
fits-offered season_of (some (suc n)) none h = refl
fits-offered season_of (some (suc n)) (some s) h = h

set_league-IsSound :
    (season_of : ℕ → ℕ → Bool) (id : ℕ) (w : Wizard)
    → w.step ≡ 0
    → is_truthy w.form.league_id ≡ false
    → IsSoundWizard season_of w
    → IsSoundWizard season_of (run (league_chosen id) w)
unfolding run
set_league-IsSound season_of zero w z t h = (h.0, (h.1.0, (refl, h.1.1.1)))
set_league-IsSound season_of (suc id) w z t h = (
  h.0,
  (
    h.1.0,
    (fits-unpicked season_of w.form.league_id w.form.season_id t h.1.1.0 (some (suc id)), h.1.1.1),
  ),
)

back-ready : {A : Type 0} (n : ℕ) → (n ≡ 0) ⊎ A → (n - 1 ≡ 0) ⊎ A
back-ready n (inl z) = inl (omega arith)
back-ready n (inr a) = inr a

created_as-IsSound :
    (season_of : ℕ → ℕ → Bool) (status : Option Status) (id : ℕ) (w : Wizard)
    → IsSoundWizard season_of w
    → IsSoundWizard season_of (created_as status id w)
unfolding handle_created
created_as-IsSound season_of none id w h = h
created_as-IsSound season_of (some status) id w h = h

arrived-IsSound :
    (season_of : ℕ → ℕ → Bool) (ts : Option (List DivisionTemplate)) (w : Wizard)
    → IsSoundWizard season_of w
    → IsSoundWizard season_of (arrived ts w)
arrived-IsSound season_of none w h = h
arrived-IsSound season_of (some ts) w h = h

run-IsSound :
    (season_of : ℕ → ℕ → Bool) (e : Event) (w : Wizard)
    → offered season_of e w ≡ true
    → IsSoundWizard season_of w
    → IsSoundWizard season_of (run e w)
unfolding run offered handle_back handle_submit payload handle_add_division handle_edit_division
    handle_save_division handle_remove_division handle_cancel_division handle_import_templates
    handle_failed
run-IsSound season_of (field_edited edit) w o h =
    update_field-IsSound season_of edit w ((==_iff w.step 0).0 o) h
run-IsSound season_of (league_chosen id) w o h =
    set_league-IsSound season_of id w
      ((==_iff w.step 0).0 (and_left (w.step == 0) (not (is_truthy w.form.league_id)) o))
      (ground (arith, and_right (w.step == 0) (not (is_truthy w.form.league_id)) o)) h
run-IsSound season_of league_cleared w o h = (h.0, (h.1.0, (refl, h.1.1.1)))
run-IsSound season_of (season_chosen season) w o h = (
  h.0,
  (
    h.1.0,
    (
      fits-offered season_of w.form.league_id season
          (and_right (w.step == 0) (season_offered season_of w.form.league_id season) o),
      h.1.1.1,
    ),
  ),
)
run-IsSound season_of next w o h = handle_next-IsSound season_of w h
run-IsSound season_of back w o h = (omega arith, (back-ready w.step h.1.0, h.1.1))
run-IsSound season_of (submitted status) w o h = (
  h.0,
  (
    h.1.0,
    (
      h.1.1.0,
      (
        (
          step-ready w.step 1 h.1.0
              ((==_iff w.step 2).0 (and_left (w.step == 2) (not (is_pending w.pending)) o)),
          h.1.1.0,
        ),
        h.1.1.1,
      ),
    ),
  ),
)
run-IsSound season_of (created id) w o h = created_as-IsSound season_of w.pending id w h
run-IsSound season_of (templates_arrived ts) w o h = arrived-IsSound season_of ts w h
run-IsSound season_of _ w o h = h

act_all-IsSound :
    (season_of : ℕ → ℕ → Bool) (es : List Event) (w : Wizard)
    → IsSoundWizard season_of w
    → IsSoundWizard season_of (act_all season_of es w)
unfolding act_all act
act_all-IsSound season_of [] w h = h
act_all-IsSound season_of (e ∷ es) w h =
    act_all-IsSound season_of es (act season_of e w) (elim (Bool-cases (offered season_of e w)) [
      | inl o ↦ rw o (run-IsSound season_of e w o h)
      | inr o ↦ rw o h
    ])

-- The wizard never leaves its three steps; past the first one the name is not blank, both dates are
-- given and the end is not before the start; and every request made carries such a name and dates,
-- and no season but one of its league.
pub wizard_sound :
    (season_of : ℕ → ℕ → Bool) (es : List Event)
    → IsSoundWizard season_of (act_all season_of es initial)
wizard_sound season_of es =
    act_all-IsSound season_of es initial (omega arith, (inl refl, (refl, tt)))
