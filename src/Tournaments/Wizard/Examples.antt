-- ===== src/Tournaments/Wizard/Examples.antt =====
-- Runs of the wizard (web/src/features/tournaments/TournamentCreate.tsx).
use court_command.Prelude.{
  ℕ, ◌≡◌, refl, Bool, false, ◌&&◌, none, some, List, [], ◌∷◌, ◌==◌, length, get_elem?,
}
use court_command.Tournaments.Draft.{DivisionDraft, DivisionTemplate, empty_division, set_name}
use court_command.Tournaments.Draft
use court_command.Prelude.Text
use court_command.Tournaments.Wizard.{String, Wizard, initial, Status}
use court_command.Tournaments.Wizard.Page.{Event, act, act_all, run, offered}
use court_command.Tournaments.Wizard.Valid.{IsSoundWizard, wizard_sound}
use court_command.Tournaments.Wizard.Divisions

-- League 7 has season 3.
abbrev seasons : ℕ → ℕ → Bool
seasons league season = league == 7 && season == 3

-- The details are filled in, a division is added, and the tournament is published.
abbrev visit : List Event
visit =
    Event.field_edited (Draft.FormEdit.set_name "Spring Classic")
    ∷ Event.field_edited (Draft.FormEdit.set_start_date "2026-05-01")
    ∷ Event.field_edited (Draft.FormEdit.set_end_date "2026-05-03")
    ∷ Event.league_chosen 7
    ∷ Event.season_chosen (some 3)
    ∷ Event.next
    ∷ Event.add_division
    ∷ Event.draft_changed (Draft.DraftEdit.set_name "Open")
    ∷ Event.division_saved
    ∷ Event.next
    ∷ Event.submitted Status.published
    ∷ []

visit_sends : length (act_all seasons visit initial).sent ≡ 1
unfolding act_all act run offered
visit_sends = refl

wizard_sound_example : IsSoundWizard seasons (act_all seasons visit initial)
wizard_sound_example = wizard_sound seasons visit

abbrev named : String → DivisionDraft
named name = record empty_division { name = name }

abbrev three_divisions : Wizard
three_divisions = record initial { step = 1; divisions = named "A" ∷ named "B" ∷ named "C" ∷ [] }

abbrev edits : List Draft.DraftEdit
edits = Draft.DraftEdit.set_name "New" ∷ []

edit_then_save_example :
    get_elem?
      (act_all seasons (Event.division_edited 1 ∷ Divisions.typed edits) three_divisions).divisions
      1
    ≡ some (named "New")
unfolding Text.is_blank Draft.update
edit_then_save_example =
    Divisions.edit_then_save seasons three_divisions 1 (named "B") edits 1 refl refl refl

abbrev template : ℕ → String → DivisionTemplate
template id name = record {
  id = id;
  name = name;
  format = "doubles";
  gender_restriction = "open";
  bracket_format = "double_elimination";
  scoring_preset_id = none;
  max_teams = some 16;
  max_roster_size = none;
  entry_fee_amount = none;
  entry_fee_currency = "USD";
  auto_approve = false;
  registration_mode = "open";
  seed_method = "manual";
}

abbrev two_templates : List DivisionTemplate
two_templates = template 4 "Mixed" ∷ template 9 "Singles" ∷ []
