-- ===== src/Tournaments/Seeds/Examples.antt =====
-- Tests of the seeds, and their theorems at concrete inputs.
use court_command.Prelude.{◌≡◌, refl, none, some, List, [], ◌∷◌}
use court_command.Tournaments.Seeds.{
  Registration, lookup, put, combined_regs, set_each, set_by_id, spread, seeds_of,
  initialized_from_server, current_seeds, updates, Edit, typed, local_seeds, apply_edit,
  update_seed,
}

abbrev first : Registration
first = record { id = 4; seed = some 2 }

abbrev second : Registration
second = record { id = 7; seed = none }

abbrev regs : List Registration
regs = first ∷ second ∷ []

abbrev edits : List (List Registration × Edit)
edits = (regs, typed 7 (some 1)) ∷ []

-- Only the seed typed is sent.
one_update : updates (current_seeds regs (local_seeds [] edits)) regs ≡ (7, some 1) ∷ []
unfolding updates current_seeds local_seeds apply_edit update_seed initialized_from_server seeds_of
    spread put lookup
one_update = refl

combined : combined_regs (first ∷ []) (second ∷ []) ≡ regs
unfolding combined_regs set_each set_by_id
combined = refl
