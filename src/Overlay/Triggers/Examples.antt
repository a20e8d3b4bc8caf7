-- ===== src/Overlay/Triggers/Examples.antt =====
-- Tests of the trigger queue, and its theorems at concrete inputs.
use Prim.Native.String.{String}
use text.Mathlib.TextEquality.{eq_iff}
use court_command.Prelude.{◌≡◌, refl, ◌≢◌, true, false, none, some, List, [], ◌∷◌, filter, arith}
use court_command.Overlay.Triggers.{
  OverlayTrigger, TriggerInput, player_card, custom_text, manual, auto, Queue, Stored, array,
  object, other, absent, StorageKey, of_court, Event, fire, tick, sweep, alive, load_triggers, step,
  run, mount, needs_sweep, after_unmount,
}
use court_command.Overlay.Triggers.Sweep.{Sweeps, run-Swept}
use court_command.Overlay.Triggers.Storage.{reload-eq-filter}

abbrev banner : TriggerInput
banner = record { kind = custom_text; dismiss = auto 5000; payload = none }

abbrev card : TriggerInput
card = record { kind = player_card; dismiss = manual; payload = some (("player", "7") ∷ []) }

abbrev nothing_stored : StorageKey → Stored
nothing_stored _ = absent

abbrev evening : List Event
evening = fire "a" 1000 banner ∷ fire "b" 2000 card ∷ tick 0 2250 ∷ []

abbrev start : Queue
start = record {
  key = of_court 4;
  triggers = [];
  storage = nothing_stored;
  writable = true;
  sweeper = record { sweep_ref = none; intervals = []; next_interval = 0; swept_for = some false };
}

abbrev first_banner : OverlayTrigger
first_banner = record {
  id = "a";
  kind = custom_text;
  started_at = 1000;
  dismiss = auto 5000;
  payload = none;
}

abbrev first_card : OverlayTrigger
first_card = record {
  id = "b";
  kind = player_card;
  started_at = 2000;
  dismiss = manual;
  payload = some (("player", "7") ∷ []);
}

abbrev busy : Queue
busy = record start {
  triggers = first_card ∷ first_banner ∷ [];
  sweeper = record {
    sweep_ref = some 0;
    intervals = 0 ∷ [];
    next_interval = 1;
    swept_for = some true;
  };
}

evening_triggers : (run start evening).triggers ≡ first_card ∷ first_banner ∷ []
unfolding run step alive
evening_triggers = refl

tick_drops_banner : (step busy (tick 0 6000)).triggers ≡ first_card ∷ []
unfolding step alive sweep
tick_drops_banner = ground arith

load_drops_junk : load_triggers 5999 (array (other ∷ object first_banner ∷ [])) ≡ first_banner ∷ []
unfolding load_triggers alive
load_drops_junk = refl

evening_intervals : (run start evening).sweeper.intervals ≡ 0 ∷ []
unfolding run step alive
evening_intervals = refl

run-Swept_example :
    let q = run (mount (some 4) 0 true nothing_stored) evening in
    Sweeps (needs_sweep q.triggers) q.sweeper × ((after_unmount q).sweeper.intervals ≡ [])
run-Swept_example = run-Swept (some 4) 0 true nothing_stored evening

reload-eq-filter_example :
    let q = run (mount (some 4) 0 true nothing_stored) evening in
    load_triggers 7000 (q.storage q.key) ≡ filter (alive 7000) q.triggers
reload-eq-filter_example =
    reload-eq-filter (some 4) 0 7000 nothing_stored evening (tt, (tt, (tt, tt)))

b_ne_a : ◌≢◌ {A = String} "b" "a"
b_ne_a = ground (arith, eq_iff "b" "a")
