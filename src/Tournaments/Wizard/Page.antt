-- ===== src/Tournaments/Wizard/Page.antt =====
-- What the page of the wizard (web/src/features/tournaments/TournamentCreate.tsx) offers, and what
-- its controls do.
use Prim.Native.String.{String}
use court_command.Prelude.{
  ℕ, zero, suc, Bool, true, false, not, ◌&&◌, Option, none, some, List, [], ◌∷◌, ltb, leb, ◌==◌,
  if◌then◌else◌, length, any,
}
use court_command.Prelude.Text.{is_blank}
use court_command.Tournaments.Draft.{DivisionTemplate, DraftEdit, update, FormEdit}
use court_command.Tournaments.Wizard.{
  Wizard, Status, update_field, set_league, handle_next, handle_back, handle_add_division,
  handle_edit_division, handle_save_division, handle_remove_division, handle_cancel_division,
  toggle, select_all, chosen, handle_import_templates, handle_submit, handle_created, handle_failed,
}

pub data Event : Type 0 where
  field_edited : FormEdit → Event
  league_chosen : ℕ → Event
  league_cleared : Event
  season_chosen : Option ℕ → Event
  next back : Event
  add_division division_saved division_cancelled : Event
  division_edited division_removed : ℕ → Event
  draft_changed : DraftEdit → Event
  picker_opened all_selected imported picker_cancelled : Event
  template_toggled : ℕ → Event
  templates_arrived : Option (List DivisionTemplate) → Event
  submitted : Status → Event
  created : ℕ → Event
  creation_failed : String → Event

abbrev pub is_truthy : Option ℕ → Bool
is_truthy none = false
is_truthy (some zero) = false
is_truthy (some (suc id)) = true

abbrev pub templates_or_none : Option (List DivisionTemplate) → List DivisionTemplate
templates_or_none none = []
templates_or_none (some ts) = ts

abbrev pub is_pending : Option Status → Bool
is_pending none = false
is_pending (some status) = true

-- The template picker is rendered.
abbrev pub picker_shown : ℕ → Bool → Option (List DivisionTemplate) → Bool
picker_shown step show none = false
picker_shown step show (some ts) = step == 1 && show

-- A season in the list of the seasons of the league picked.
abbrev pub season_offered : (ℕ → ℕ → Bool) → Option ℕ → Option ℕ → Bool
season_offered season_of none season = false
season_offered season_of (some zero) season = false
season_offered season_of (some (suc league)) none = true
season_offered season_of (some (suc league)) (some season) = season_of (suc league) season

-- The page that is rendered has the input or the button, and it is enabled; `season_of` is what the
-- service lists under a league. An answer comes while its request is under way.
unfoldable pub offered : (ℕ → ℕ → Bool) → Event → Wizard → Bool
unfolding is_blank
offered season_of (field_edited edit) w = w.step == 0
offered season_of (league_chosen id) w = w.step == 0 && not (is_truthy w.form.league_id)
offered season_of league_cleared w = w.step == 0 && is_truthy w.form.league_id
offered season_of (season_chosen season) w =
    w.step == 0 && season_offered season_of w.form.league_id season
offered season_of next w = leb w.step 1
offered season_of back w = leb 1 w.step
offered season_of add_division w = w.step == 1 && not w.show_division_form
offered season_of division_saved w =
    w.step == 1 && (w.show_division_form && not (is_blank w.division_draft.name))
offered season_of division_cancelled w = w.step == 1 && w.show_division_form
offered season_of (division_edited index) w = w.step == 1 && ltb index (length w.divisions)
offered season_of (division_removed index) w = w.step == 1 && ltb index (length w.divisions)
offered season_of (draft_changed edit) w = w.step == 1 && w.show_division_form
offered season_of picker_opened w =
    w.step == 1
    && (not w.show_division_form
        && (is_truthy w.form.league_id && ltb 0 (length (templates_or_none w.templates))))
offered season_of all_selected w = picker_shown w.step w.show_template_picker w.templates
offered season_of imported w =
    picker_shown w.step w.show_template_picker w.templates && ltb 0 (length w.selected)
offered season_of picker_cancelled w = picker_shown w.step w.show_template_picker w.templates
offered season_of (template_toggled id) w =
    picker_shown w.step w.show_template_picker w.templates
    && any (λ t. t.id == id) (templates_or_none w.templates)
offered season_of (templates_arrived ts) w = true
offered season_of (submitted status) w = w.step == 2 && not (is_pending w.pending)
offered season_of (created id) w = is_pending w.pending
offered season_of (creation_failed message) w = is_pending w.pending

abbrev pub created_as : Option Status → ℕ → Wizard → Wizard
unfolding handle_created
created_as none id w = w
created_as (some status) id w = handle_created status id w

-- A picker that is no longer rendered loses what was selected.
abbrev pub arrived : Option (List DivisionTemplate) → Wizard → Wizard
arrived none w = record w { templates = none; selected = [] }
arrived (some ts) w = record w { templates = some ts }

unfoldable pub run : Event → Wizard → Wizard
unfolding update_field handle_next handle_back handle_add_division handle_edit_division
    handle_save_division handle_remove_division handle_cancel_division toggle select_all
    handle_import_templates handle_submit handle_failed update
run (field_edited edit) w = update_field edit w
run (league_chosen id) w = record w { form = set_league (some id) w.form }
run league_cleared w = record w { form = set_league none w.form }
run (season_chosen season) w = record w { form = record w.form { season_id = season } }
run next w = handle_next w
run back w = handle_back w
run add_division w = handle_add_division w
run division_saved w = handle_save_division w
run division_cancelled w = handle_cancel_division w
run (division_edited index) w = handle_edit_division index w
run (division_removed index) w = handle_remove_division index w
run (draft_changed edit) w = record w { division_draft = update edit w.division_draft }
run picker_opened w = record w { show_template_picker = true }
run all_selected w = record w { selected = select_all (templates_or_none w.templates) }
run imported w = handle_import_templates (chosen w.selected (templates_or_none w.templates)) w
run picker_cancelled w = record w { show_template_picker = false; selected = [] }
run (template_toggled id) w = record w { selected = toggle id w.selected }
run (templates_arrived ts) w = arrived ts w
run (submitted status) w = handle_submit status w
run (created id) w = created_as w.pending id w
run (creation_failed message) w = handle_failed message w

-- What the user does, or an answer, does nothing unless the page offers it.
unfoldable pub act : (ℕ → ℕ → Bool) → Event → Wizard → Wizard
unfolding offered run
act season_of e w = if offered season_of e w then run e w else w

unfoldable pub act_all : (ℕ → ℕ → Bool) → List Event → Wizard → Wizard
unfolding act
act_all season_of [] w = w
act_all season_of (e ∷ es) w = act_all season_of es (act season_of e w)
