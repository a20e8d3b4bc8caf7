-- ===== src/Lib.antt =====
-- Court Command, the browser front end (web/src): a verification library.
--
-- The front end shows matches of pickleball courts and sends the scoring actions. The parts
-- of it that carry logic of their own are modelled here.
--
-- The overlay (web/src/features/overlay) draws a court's match over a stream. Its hook
-- useOverlayWebSocket keeps up to three WebSocket channels up, reconnects with growing delays, and
-- turns messages into writes to the query cache; its hook useTriggerQueue keeps the queue of
-- triggers that an operator fires, mirrors it into session storage, and sweeps what has expired.
-- The tabs of its control panel (web/src/features/overlay/controls) edit what it shows, each with a
-- draft and a delayed request, or choose the source of its data; a wizard
-- (web/src/features/overlay/setup) makes a court and its source, an editor
-- (web/src/features/overlay/profiles) changes the sources, and the elements drawn
-- (web/src/features/overlay/renderer) fade, rotate and dismiss themselves by timers and frames.
-- The scoring consoles (web/src/features/scoring, web/src/features/referee,
-- web/src/features/scorekeeper) send the actions, put the answers into the same cache, ask for the
-- end of games and matches, and show the events. The pages of tournaments
-- (web/src/features/tournaments) create a tournament in a wizard of three steps, seed a division, and
-- draw its bracket, which a TV shows again among slides that rotate (web/src/features/overlay/tv);
-- standings, pages of lists and the client of the service are shared by many pages.
--
-- Prelude, Sorting: Boolean tests, lists and their predicates; Array.prototype.sort as an insertion
--   sort with a stable order.
-- Backoff: BACKOFF_STEPS_MS and the delay of the next attempt.
-- Overlay/Channels: useOverlayWebSocket.ts. `Hook` holds the refs and the state of the hook, and for
--   each channel the sockets and the timeouts that the browser still holds for it (`live`,
--   `pending`), the latter being what closures of the source keep alive. `step` is one render with
--   dependencies, an unmount, or one event that the browser delivers; `connect`, `on_open`,
--   `on_message`, `on_close`, `apply_message`, `run_effect` and `cleanup` are the functions of the
--   source. The id of a socket or a timeout stands for the reference that the source holds.
-- Overlay/Triggers: useTriggerQueue.ts. `Queue` holds the state, session storage, and the sweep
--   intervals that the browser holds with the hook's ref to one; `settle` runs the effects after a
--   change, `sweep_effect` among them; ids and the clock come with the events; a storage that refuses
--   writes is a flag.
-- Overlay/Contract: the tables of override keys of contract.ts.
-- Overlay/Overrides: OverridesTab.tsx. `Tab` holds the state and the refs of the tab, the timeouts
--   that the browser holds for it, and the requests sent; answers and refreshed configs are events.
-- Scoring/Socket: useMatchWebSocket.ts, in the way of Overlay/Channels, with one socket.
-- Scoring/Match: types.ts. Scoring/Actions: the mutations of hooks.ts, their requests and
--   applyResult. Scoring/Keyboard: useKeyboardShortcuts.ts and useScoringPrefs.ts.
-- Scoring/Console: RefMatchConsole.tsx (Referee) and ScorekeeperMatchConsole.tsx (Scorekeeper), with
--   the buttons of MatchScoreboard.tsx and ScoringButtons.tsx. What the hooks return at a render is
--   an `Env`, which may differ from event to event; requests, toasts and feedback are logs.
-- Scoring/Timeline: EventsTimeline.tsx.
-- Scoring/Override: ScoreOverrideModal.tsx.
-- Tournaments/Draft, WizardState and Wizard: TournamentCreate.tsx. `Wizard` is its state; of
--   Wizard/Page, `run` calls its handlers, and `offered` tells which of them the rendered page has a
--   control for.
-- Tournaments/Bracket: DivisionBracket.tsx, and the names of TVKioskBracket.tsx (overlay/tv).
-- Overlay/Tv: useSlideRotation.ts (overlay/tv) with the renders and effects that React runs for it;
--   its Kiosk, Columns and Courts are TVKioskBracket.tsx.
-- Standings: StandingsView.tsx (web/src/features/leagues). Grouping: what these and the brackets share.
-- Overlay/Fade: FadeMount.tsx (overlay/renderer).
-- Overlay/Sources: the source profiles of overlay/types.ts; of its children, Editor and Mapper are
--   SourceProfileEditor.tsx (overlay/profiles), SetupForms and Setup are SetupWizard.tsx
--   (overlay/setup), and Tab is SourceTab.tsx (overlay/controls).
-- Overlay/Elements and Overlay/Theme: ElementsTab.tsx and ThemeTab.tsx (overlay/controls);
--   Overlay/Debounce is the timer that both delay their requests with.
-- Overlay/Result and Overlay/Sponsors: MatchResult.tsx and SponsorBug.tsx (overlay/renderer/elements).
-- Public/Schedule: ScheduleTab of PublicTournamentDetail.tsx (web/src/features/public).
-- Paging: usePagination.ts (web/src/hooks) with Pagination.tsx (web/src/components).
-- Api: lib/api.ts, with what fetch gives as a parameter.
-- Tournaments/Seeds: DivisionSeeds.tsx (web/src/features/tournaments): the registrations seeded, the
--   rows, the edits of the local seeds, and the requests of a save.
--
-- Events are delivered one by one, in any order: each run is a list of events. The only
-- fuels are the number of clicks of Paging's `walk`, where one for each page is enough, and that of
-- the digits of `decimal` in Public/Schedule, where a number has no more digits than itself.
-- Ids, scores, times and sequence ids are natural numbers; intervals that are typed are integers
-- (Prelude/Integers). Objects with texts as keys are lists of entries (Prelude/Maps).
-- JSON.parse and localStorage appear by their outcomes: absent, malformed, or read.
--
-- Not modelled: the Go backend (api), whose answers are inputs; React, react-query, the browser;
-- drawing, styles, and the forms that only send what is typed; the URLs of the sockets; hooks that
-- only name a URL.
pub mod Prelude
pub mod Sorting
pub mod Grouping
pub mod Api
pub mod Backoff
pub mod Overlay
pub mod Paging
pub mod Public
pub mod Scoring
pub mod Standings
pub mod Tournaments
