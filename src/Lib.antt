-- ===== src/Lib.antt =====
-- The browser side of impeccable live mode (`.skills/impeccable/scripts/`): the overlay that is
-- injected into a developer's page, lets the user pick an element or a place, sends the request to
-- a local helper server, and shows the variants that an agent wrote.
--
-- The files of the development and the code that they model:
--   Base and its children    the shared numbers, lists and texts. A text is the list of its UTF-16
--                            units; coordinates are integers (`Base/Int.antt`).
--   Value.antt               what `JSON.parse` gives, with property access, truthiness and `String`.
--   Session.antt, Session/   live-browser-session.js: the durable record of a session, the list of
--                            handled sessions and the scroll position of a tab, in a store that all
--                            tabs share. `Session/Browser.antt` holds `localStorage`, `JSON` and
--                            `parseFloat` as parameters with the laws that their documentation gives.
--                            A revision is a number that holds an integer, whose sum with 1 is
--                            rounded from 2^53 on (`plus_one`).
--   Ignores.antt, Ignores/   live-browser-ignores.js: the detector waivers of a page.
--                            `Ignores/Engine.antt` holds `toLowerCase`, `decodeURIComponent` and
--                            `RegExp` as parameters. `globToRegex` runs on fuel, one unit for each
--                            unit of the glob, since each round drops one at least.
--   Insert.antt, Insert/     live-browser.js, insert mode: from `detectInsertAxisFromStyle` to
--                            `resizePlaceholderFromEdge`. A coordinate counts parts of a pixel, and
--                            the number of parts in a pixel is an argument.
--   Phase.antt, Phase/       live-browser.js, the phase that the progress bar shows:
--                            `PHASE_RANK`, `shouldAdvancePhase` and `generationStatusText`.
--   Target.antt, Target/     live-browser.js, agent targets: the element that a request means
--                            (`Target/Resolve.antt`), the handlers in one tab (`Target/Tab.antt`),
--                            what comes back to them (`Target/Tab/Events.antt`), and the global bar
--                            that the helper hides (`Target/Bar.antt`). A handler is a function from
--                            the state of the tab to the next state and the list of what it sends or
--                            schedules. Answers, timers and changes of state are events, in any
--                            order, each with the page as it is then. The loop over declined targets
--                            gets one round for each target that waits at its start.
--   Recovery.antt, Recovery/ live-browser.js, session recovery: the tests on saved and reported
--                            sessions (`Recovery/Summary.antt`), and which session a page resumes
--                            (`Recovery/Choice.antt`: `loadSession`, `findAdoptableServerSession`
--                            and `restoreSessionWithoutWrapper` up to `currentSessionId`).
--                            `Recovery/Meta.antt` is `rememberSessionFileMeta` and
--                            `Recovery/Missed.antt` is
--                            `recoverMissedGenerationCompletion`. `Recovery/State.antt` is the rest
--                            of `restoreSessionWithoutWrapper`, with `applySavedSessionMeta` and
--                            `clampVariantIndex`, and `Recovery/State/Save.antt` is `saveSession`.
--                            `Recovery/Reload.antt` is `scheduleHandledRuntimeWrapperReload` with its
--                            timer and the stamps, and runs of events in any order, where a session
--                            with a timer has its wrapper in the page or not when the timer ends;
--                            `Recovery/Reload/Watch.antt` is `watchForHandledRuntimeWrapper`.
--                            `Recovery/Resume.antt` and `Recovery/Resume/Start.antt` are
--                            `resumeSession` with all that it calls, `restoreFromActiveSessions` and
--                            the part of `cleanup` that is about the session: functions from the
--                            variables to the variables and what is done to the page.
--                            `Host` and `Outside` hold
--                            what the browser gives: the location, `URL`, `toUpperCase` and
--                            `Number`. A count is a natural number or NaN.
--   Comparison.antt, Comparison/
--                            live-browser.js, the comparison of variants: Go, the observer of
--                            variants and `selectVariant` (`Comparison/Cycling.antt`), accept and
--                            discard (`Comparison/Accept.antt`), the messages of the helper and the
--                            loss of the connection (`Comparison/Messages.antt`). The continuation
--                            of a request or a timer is an operation of its own.
--   Apply.antt, Apply/       live-browser.js, the application of copy edits: the entry that survives
--                            a reload (`Apply.antt`), the dock (`Apply/Dock.antt`), the messages
--                            of the helper and the buttons (`Apply/Activity.antt`). Whether the
--                            storage refuses what is written is a field of the tab.
--   Connection.antt, Connection/
--                            live-browser.js, the posts to the helper: `sendEvent` with the gate
--                            behind a creation, what the answers mean, and checkpoints. The promise
--                            of a creation is its number, and a turn runs the continuations.
--   Markup.antt, Markup/     live-browser.js, the HTML of the design panel: `escapeHtml`, `cssSafe`,
--                            `buildListHtml`, which appends pieces that are printed, and the lines
--                            of `renderMarkdown` (`Markup/Lines.antt`, `Markup/Render.antt`), for
--                            any function in the place of `inlineMd`.
--   Svelte.antt, Svelte/     live-browser.js, `stripSvelteBlockRegions` and
--                            `stripSvelteKeyDelimiters`: their loops run on fuel, one round for each
--                            unit of the source, which is enough since each round drops one.
--                            `Svelte/Regions.antt` says what a region is.
--   Reference.antt, Reference/
--                            live-browser.js, the references of copy edits:
--                            `documentRefForElement` and `queryManualEditRef` with their parts, on
--                            the tree of the elements below the body, an element being its path.
--   Rows.antt, Rows/         live-browser.js, the texts that can be edited in the page:
--                            `collectEditableTextRows`, `wrapMixedContentTextNodes`, its inverse,
--                            and `hasTextRows`, on trees of nodes.
--   Steer.antt, Steer/       live-browser.js, the chat that steers a page: `submitSteerMessage`,
--                            `maybeCompleteSteer`, `unlockSteerChat` and the timeout; its input and
--                            button (`Steer/Input.antt`); and runs of events in any order
--                            (`Steer/Run.antt`).
--
-- A tab keeps its session state (Session) and its place among the agent targets (Target). Recovery
-- reads the session state, and Go sets the phase (Phase) and begins a comparison (Comparison), whose
-- events are posted behind the gate (Connection). An apply in flight (Apply) makes the tab busy for
-- agent targets and holds Go, accept and discard back. The geometry of insert mode (Insert), the
-- waivers (Ignores) and the texts (Markup, Svelte, Reference, Rows) are pure.
--
-- Not modelled: what live-browser.js draws (the overlay, the shaders, the screenshots, the design
-- panel), the EventSource that hears the helper, voice input, the editing of copy edits, the mounting
-- of variants and their parameters; live-browser-dom.js; and modern-screenshot.umd.js, a third-party
-- library. In Target the loss of the connection is no event. The Flutter client (`lib/`), the Go
-- server (`server/`) and the Python tools (`.skills/ui-ux-pro-max/`) are other programs.
pub mod Apply
pub mod Base
pub mod Comparison
pub mod Connection
pub mod Ignores
pub mod Insert
pub mod Markup
pub mod Phase
pub mod Recovery
pub mod Reference
pub mod Rows
pub mod Session
pub mod Steer
pub mod Svelte
pub mod Target
pub mod Value
