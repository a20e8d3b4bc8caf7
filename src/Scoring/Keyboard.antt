-- ===== src/Scoring/Keyboard.antt =====
-- The keyboard shortcuts of the consoles (web/src/features/scoring/useKeyboardShortcuts.ts) and the
-- preferences that switch them (web/src/features/scoring/useScoringPrefs.ts).
use court_command.Prelude.{
  refl, ◌≡◌, ◌≡◌, Bool, true, false, ◌||◌, Option, none, some, if◌then◌else◌, or_else,
}

pub record ScoringPrefs : Type 0 where
  pub keyboard : Bool
  pub haptic : Bool
  pub sound : Bool

-- What stands under the storage key: nothing, a text that JSON.parse refuses, or an object, whose
-- fields are there only if they are Booleans.
pub data StoredPrefs : Type 0 where
  absent malformed : StoredPrefs
  parsed : (keyboard haptic sound : Option Bool) → StoredPrefs

abbrev pub default_prefs : ScoringPrefs
default_prefs = record { keyboard = true; haptic = true; sound = true }

pub read_prefs : StoredPrefs → ScoringPrefs
read_prefs absent = default_prefs
read_prefs malformed = default_prefs
read_prefs (parsed keyboard haptic sound) = record {
  keyboard = or_else keyboard default_prefs.keyboard;
  haptic = or_else haptic default_prefs.haptic;
  sound = or_else sound default_prefs.sound;
}

-- A successful write, as a later read finds it.
pub write_prefs : ScoringPrefs → StoredPrefs
write_prefs p = parsed (some p.keyboard) (some p.haptic) (some p.sound)

-- The settings that `update` merges in.
pub data Setting : Type 0 where
  set_keyboard set_haptic set_sound : Bool → Setting

abbrev pub merge : Setting → ScoringPrefs → ScoringPrefs
merge (set_keyboard v) p = record p { keyboard = v }
merge (set_haptic v) p = record p { haptic = v }
merge (set_sound v) p = record p { sound = v }

-- `writable` is false where localStorage refuses the write.
pub update_prefs : Bool → Setting → ScoringPrefs × StoredPrefs → ScoringPrefs × StoredPrefs
unfolding write_prefs
update_prefs writable s (prev, stored) =
    let next = merge s prev in (next, if writable then write_prefs next else stored)

-- After a change of a setting, a load reads the settings shown if storage takes the write, and else
-- what it read before.
pub update-read :
    (writable : Bool) (s : Setting) (prev : ScoringPrefs) (stored : StoredPrefs)
    → let (shown, kept) = update_prefs writable s (prev, stored) in
      (shown ≡ merge s prev) × (read_prefs kept ≡ (if writable then shown else read_prefs stored))
unfolding update_prefs read_prefs
update-read true s prev stored = (refl, refl)
update-read false s prev stored = (refl, refl)

-- `e.key`, as far as the switch tells keys apart.
pub data Key : Type 0 where
  one two lower_s upper_s lower_z upper_z lower_t upper_t escape other : Key

-- The element that the event comes from.
pub data Target : Type 0 where
  not_element input textarea select : Target
  element : (is_content_editable : Bool) → Target

pub record KeyboardEvent : Type 0 where
  pub key : Key
  pub alt_key : Bool
  pub ctrl_key : Bool
  pub meta_key : Bool
  pub target : Target

pub data Command : Type 0 where
  point_team1 point_team2 side_out undo timeout escape : Command

abbrev pub is_from_input : Target → Bool
is_from_input not_element = false
is_from_input input = true
is_from_input textarea = true
is_from_input select = true
is_from_input (element is_content_editable) = is_content_editable

abbrev pub command_of : Key → Option Command
command_of one = some point_team1
command_of two = some point_team2
command_of lower_s = some side_out
command_of upper_s = some side_out
command_of lower_z = some undo
command_of upper_z = some undo
command_of lower_t = some timeout
command_of upper_t = some timeout
command_of escape = some Command.escape
command_of other = none

-- The handler that a key press calls; there is no listener unless `enabled`.
unfoldable pub on_key : Bool → KeyboardEvent → Option Command
on_key enabled e =
    if enabled
    then if e.alt_key || e.ctrl_key || e.meta_key
      then none
      else if is_from_input e.target
      then none
      else command_of e.key
    else none
