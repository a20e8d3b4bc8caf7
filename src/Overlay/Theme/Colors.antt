-- ===== src/Overlay/Theme/Colors.antt =====
-- What the theme tab sends (web/src/features/overlay/controls/ThemeTab.tsx).
use Prim.Native.String.{String}
use court_command.Prelude.{and_left, and_right}
use court_command.Prelude.{
  ℕ, ◌≡◌, refl, ap, ◌∙◌, inl, Bool, true, false, false≢true, Option, none, some, List, [], ◌∷◌,
  ◌++◌, map, or_else, if_both, all,
}
use court_command.Prelude.Text.{is_empty}
use court_command.Overlay.Debounce.{
  Timers, no_timers, rearm, cancel, expired, IsSingle, rearm-single, rearm-IsSingle,
  cancel-IsSingle, expired-IsSingle, cleared-IsSingle,
}
use court_command.Overlay.Theme.{
  ColorOverrides, Request, Tab, start, hydrate, commit_with_debounce, mutate, first_of,
  mutate_given, flush, fire, select_theme, put_color, theme_or_classic, set_override,
  reset_overrides, Event, config_came, theme_selected, color_edited, reset_clicked, fired,
  unmounted, step, run,
}

abbrev pub stays_mounted : Event → Bool
stays_mounted unmounted = false
stays_mounted _ = true

abbrev IsOpen : Tab → Type 0
IsOpen t = (t.mounted ≡ true) × IsSingle t.timers

mutate_given-IsOpen :
    (o : Option String) (c : ColorOverrides) (t : Tab) → IsOpen t → IsOpen (mutate_given o c t)
unfolding mutate_given mutate
mutate_given-IsOpen none c t k = k
mutate_given-IsOpen (some theme) c t k = if_both {A = Tab} IsOpen (is_empty theme) k k

fire-IsOpen : (ids : List ℕ) (t : Tab) → IsOpen t → IsOpen (fire ids t)
unfolding fire flush
fire-IsOpen [] t k = k
fire-IsOpen (id ∷ ids) t k =
    mutate_given-IsOpen (first_of t.pending_theme t.theme) (or_else t.pending_overrides t.overrides)
      (record t { timers = expired t.timers }) (k.0, expired-IsSingle t.timers k.1)

step-IsOpen : (e : Event) (t : Tab) → stays_mounted e ≡ true → IsOpen t → IsOpen (step e t)
unfolding step hydrate select_theme mutate set_override commit_with_debounce reset_overrides
step-IsOpen (config_came theme none) t h k = if_both {A = Tab} IsOpen t.mounted k k
step-IsOpen (config_came theme (some o)) t h k = if_both {A = Tab} IsOpen t.mounted k k
step-IsOpen (theme_selected theme) t h k =
    if_both {A = Tab} IsOpen t.mounted (k.0, cancel-IsSingle t.timers k.1) k
step-IsOpen (color_edited key value) t h k =
    if_both {A = Tab} IsOpen t.mounted (k.0, rearm-IsSingle t.timers k.1) k
step-IsOpen reset_clicked t h k =
    if_both {A = Tab} IsOpen t.mounted (k.0, cancel-IsSingle t.timers k.1) k
step-IsOpen fired t h k = fire-IsOpen t.timers.timeouts t k
step-IsOpen unmounted t h k = absurd (false≢true h)

run-IsOpen :
    (es : List Event) (t : Tab) → all stays_mounted es ≡ true → IsOpen t → IsOpen (run es t)
unfolding run
run-IsOpen [] t h k = k
run-IsOpen (e ∷ es) t h k =
    run-IsOpen es (step e t) (and_right (stays_mounted e) (all stays_mounted es) h)
      (step-IsOpen e t (and_left (stays_mounted e) (all stays_mounted es) h) k)

run-append : (es fs : List Event) (t : Tab) → run (es ++ fs) t ≡ run fs (run es t)
unfolding run
run-append [] fs t = refl
run-append (e ∷ es) fs t = run-append es fs (step e t)

-- A colour and its value, none or empty to go back to the theme's.
abbrev pub ColorEdit : Type 0
ColorEdit = String × Option String

abbrev pub edit_events : List ColorEdit → List Event
edit_events cs = map (λ (c : ColorEdit). color_edited c.0 c.1) cs

abbrev pub colored : List ColorEdit → ColorOverrides → ColorOverrides
colored [] overrides = overrides
colored (c ∷ cs) overrides = colored cs (put_color c.0 c.1 overrides)

abbrev state :
    String → ColorOverrides → Option String → Option ColorOverrides → Timers → List Request → Tab
state theme overrides pending_theme pending_overrides timers sent = record {
  theme = some theme;
  overrides = overrides;
  pending_theme = pending_theme;
  pending_overrides = pending_overrides;
  timers = timers;
  mounted = true;
  sent = sent;
}

-- An open tab with the config's theme, the overrides, and what it has sent.
abbrev Holds : String → ColorOverrides → List Request → Tab → Type 0
Holds theme overrides sent t =
    (p : Option String) × ((q : Option ColorOverrides) × ((s : Timers) × ((t
            ≡ state theme overrides p q s sent)
          × IsSingle s)))

abbrev pub request_of : String → ColorOverrides → Request
request_of theme overrides = record { theme_id = theme; color_overrides = overrides }

edits-Holds :
    (cs : List ColorEdit) (theme : String) (overrides : ColorOverrides) (sent : List Request)
    (t : Tab)
    → Holds theme overrides sent t
    → Holds theme (colored cs overrides) sent (run (edit_events cs) t)
unfolding run step set_override commit_with_debounce theme_or_classic
edits-Holds [] theme overrides sent t k = k
edits-Holds ((key, value) ∷ cs) theme overrides sent t (p, (q, (s, (e, i)))) =
    let next = put_color key value overrides in
    rw e (
      edits-Holds cs theme next sent (state theme next (some theme) (some next) (rearm s) sent)
        (some theme, (some next, (rearm s, (refl, rearm-IsSingle s i)))))

edit-sent :
    (key : String) (value : Option String) (theme : String) (overrides : ColorOverrides)
    (sent : List Request) (t : Tab)
    → is_empty theme ≡ false
    → Holds theme overrides sent t
    → (run (color_edited key value ∷ fired ∷ []) t).sent
      ≡ sent ++ request_of theme (put_color key value overrides) ∷ []
unfolding run step set_override commit_with_debounce theme_or_classic fire flush first_of
    mutate_given mutate
edit-sent key value theme overrides sent t h (p, (q, (s, (e, i)))) =
    rw e (rw (rearm-single s i) (rw h refl))

select-sent :
    (chosen theme : String) (overrides : ColorOverrides) (sent : List Request) (t : Tab)
    → Holds theme overrides sent t
    → (run (theme_selected chosen ∷ fired ∷ []) t).sent ≡ sent ++ request_of chosen overrides ∷ []
unfolding run step select_theme fire mutate cancel
select-sent chosen theme overrides sent t (p, (q, (s, (e, i)))) =
    rw e (rw (cleared-IsSingle s i) refl)

selected-Holds :
    (chosen theme : String) (overrides : ColorOverrides) (sent : List Request) (t : Tab)
    → Holds theme overrides sent t
    → Holds theme overrides
        (sent ++ request_of chosen overrides ∷ [])
        (run (theme_selected chosen ∷ []) t)
unfolding run step select_theme mutate cancel
selected-Holds chosen theme overrides sent t (p, (q, (s, (e, i)))) =
    rw e (some chosen, (q, (cancel s, (refl, cancel-IsSingle s i))))

abbrev with_theme : Tab → Option String → Bool → Tab
with_theme t theme mounted = record t { theme = theme; mounted = mounted }

IsOpen-Holds :
    (t : Tab) (theme : String) → t.theme ≡ some theme → IsOpen t → Holds theme t.overrides t.sent t
IsOpen-Holds t theme e (m, i) = (
  t.pending_theme,
  (
    t.pending_overrides,
    (t.timers, (ap (λ o. with_theme t o t.mounted) e ∙ ap (with_theme t (some theme)) m, i)),
  ),
)

module _ (before : List Event) (theme : String) where
  now : Tab
  now = run before start

  now-Holds :
      all stays_mounted before ≡ true
      → now.theme ≡ some theme
      → Holds theme now.overrides now.sent now
  unfolding now start no_timers
  now-Holds h e = IsOpen-Holds now theme e (run-IsOpen before start h (refl, inl refl))

  -- Whatever happened before, but for an unmount: let colours be edited, each before the timer of the
  -- edit before it has run out. If the timer of the last one runs, one request_of is sent, with the theme
  -- of the config and all of the edits; if a theme is chosen instead, one request_of is sent at once,
  -- with that theme and all of the edits, and the timer sends nothing more.
  pub colors_sent :
      (cs : List ColorEdit) (key : String) (value : Option String) (chosen : String)
      → all stays_mounted before ≡ true
      → (run before start).theme ≡ some theme
      → is_empty theme ≡ false
      → let t : Tab = run before start in
        ((run (edit_events cs ++ color_edited key value ∷ fired ∷ []) t).sent
          ≡ t.sent ++ request_of theme (put_color key value (colored cs t.overrides)) ∷ [])
        × ((run (edit_events cs ++ theme_selected chosen ∷ fired ∷ []) t).sent
            ≡ t.sent ++ request_of chosen (colored cs t.overrides) ∷ [])
  unfolding now
  colors_sent cs key value chosen h e g =
      let k = edits-Holds cs theme now.overrides now.sent now (now-Holds h e) in
      (
        ap Tab.sent (run-append (edit_events cs) (color_edited key value ∷ fired ∷ []) now)
            ∙ edit-sent key value theme (colored cs now.overrides) now.sent
                (run (edit_events cs) now) g k,
        ap Tab.sent (run-append (edit_events cs) (theme_selected chosen ∷ fired ∷ []) now)
            ∙ select-sent chosen theme (colored cs now.overrides) now.sent
                (run (edit_events cs) now) k,
      )

  -- A theme is chosen, and a colour is edited before the config with that theme has come in: the
  -- request_of of the edit goes back to the theme before.
  pub theme_undone :
      (key : String) (value : Option String) (chosen : String)
      → all stays_mounted before ≡ true
      → (run before start).theme ≡ some theme
      → is_empty theme ≡ false
      → let t : Tab = run before start in
        (run (theme_selected chosen ∷ color_edited key value ∷ fired ∷ []) t).sent
        ≡ (t.sent ++ request_of chosen t.overrides ∷ [])
          ++ request_of theme (put_color key value t.overrides) ∷ []
  unfolding now
  theme_undone key value chosen h e g =
      let sent = now.sent ++ request_of chosen now.overrides ∷ [] in
      ap Tab.sent
        (run-append (theme_selected chosen ∷ []) (color_edited key value ∷ fired ∷ []) now)
      ∙ edit-sent key value theme now.overrides sent (run (theme_selected chosen ∷ []) now) g
          (selected-Holds chosen theme now.overrides now.sent now (now-Holds h e))
