-- ===== src/Lib.antt =====
-- CacheStack: an in-memory key-value server under backend, in Go, and its dashboard, the single-page application
-- under frontend/src that shows the server's keys, edits them and runs commands. The library models what the
-- dashboard computes and what the server does with a request, and shows what the parts keep and do. A command
-- comes over a socket or in the body of a request; the parser cuts it, the dispatch calls the store, the broker
-- and the counters, and appends what changes the store to the log, which a start replays.
--
-- The parts, and how they meet. frontend/src/App.tsx holds the state: the keys, the log, the channels and
-- messages, the live figures, the page, the search, the command line. It polls the server once a second, and
-- the keys while their page is shown; it hands each page its part of the state and the handlers that change
-- it. The hooks useNotifications and useRegion add the queue of toasts and the region. api/client.ts makes
-- all requests; api/mock.ts makes the data shown while the server does not answer. Each handler that awaits
-- the server has two halves here: what it sends, and what it makes of the answer and of the state as it is
-- by then, so an interleaving of handlers is a sequence of these functions.
--
-- The files:
-- - Base, with Base/Tests and Base/Lists: names of the libraries passed on, Boolean tests on numbers, and
--   `slice`, `filter`, `find` and `includes` of arrays with their lemmas.
-- - Text and its children: texts as lists of UTF-16 code units, and the methods of strings that the source
--   calls. `show_ℕ`, the digits of a number, runs on fuel n + 1, and n has at most n + 1 digits.
-- - Number, Number/Sample: JavaScript's fractional numbers, an interface; fractions p / q are an instance.
-- - Types: frontend/src/types/index.ts.
-- - Notifications and its children: frontend/src/hooks/useNotifications.ts. `Queue` is the list, the counter
--   and the timers waiting; `push`, `dismiss`, `dismiss_all` are the hook's functions, `fire` is a timer's
--   callback; `Step` and `Reach` are the calls in any order.
-- - Mock, Mock/Pools: frontend/src/api/mock.ts.
-- - Client, Client/Requests: frontend/src/api/client.ts; Client/Uri: `encodeURIComponent` of the language.
-- - Poll and its children: App.tsx, the state of the live figures (`Live`, `start`) and one poll of the
--   metrics (`tick`, by whether the server answered); `run_ticks` is a run of polls.
-- - Keys and its children: App.tsx, `normaliseType`, the poll of the keys (`fetch_keys`), `handleDeleteKey`
--   and `handleSaveKey`.
-- - Palette, Palette/Laws: App.tsx, `execCmd`, and components/CommandPalette.tsx.
-- - Explorer and its children: pages/KeyExplorerPage.tsx (search, filter, highlight) and
--   components/ViewModal.tsx (the modal's value); Explorer/Page is the page's state and its buttons.
-- - PubSub and its children: App.tsx, the channels and the mock stream, and pages/PubSubPage.tsx.
-- - Region, Region/Laws: hooks/useRegion.ts and the region in components/Sidebar.tsx.
-- - Shell and its children: App.tsx, the page, the search and the panel; components/Sidebar.tsx, Topbar.tsx,
--   NotificationPanel.tsx and ToastStrip.tsx, what they choose to show.
-- - Charts and its children: hooks/useLineChart.ts and useBarChart.ts, and the effects of the pages that hand them
--   data: pages/MetricsPage.tsx (Charts, Charts/Follow), DashboardPage.tsx and components/StatCard.tsx (Charts/Board);
--   Charts/Settings has the styles and options.
-- - App, App/Parts, App/Sound: App.tsx as a whole, its state (`App`), all that happens to it (`Event`) and
--   what each event does (`step`) by the components' own functions.
-- - View and its children: what the components return. `Node` is the tree of elements, a component a function of
--   its props, callbacks among them; View/Icon, Panel, Sidebar, Topbar, Logs, Figures, Palette, Channels, Explorer
--   and Modal are the files of components and pages, View/Whole what App.tsx returns. `Ask` is what a handler asks
--   for, `event_of` the event of App that comes of it. View/Asked, Shown and Siblings hold the lemmas on handlers,
--   on texts and on keys.
-- - Command and its children: backend/internal/parser/parser.go. `tokenize` is the loop over the bytes of a
--   line (`scan_byte`), `parse` makes a command of the tokens.
-- - Int: Go's `int` as an integer, for the indices.
-- - Store and its children: backend/internal/store/store.go. `Store` is the map, the LRU list, the limit and the
--   counter of bytes; a method under the lock is one function from store to store. Store/Values has the
--   entries, Store/Methods the lists, sets and sorted sets and the methods on the whole store, Store/Windows
--   the indices of a range. `evict` runs on fuel, the number of keys, and each round removes one.
--   Store/Matched to Store/Refines relate the store to a list of pairs from the most to the least recently
--   used (`recent`), the methods to what they do to that list (`meant` in Store/Calls), and the sweeper to it
--   (Store/Sweep).
-- - Broker, Broker/Steps: backend/internal/pubsub/broker.go, and its calls in any order. Counters: backend/internal/metrics/metrics.go.
-- - Log, Log/Replay: backend/internal/persistence/aof.go, the file with its buffer (`Aof`), and the lines that are read.
-- - Dispatch and its children: backend/internal/networking/server.go, `dispatch` with a function for each command
--   (Dispatch/Handlers) and the round of a connection (`handle_line`); Dispatch/Http is
--   backend/internal/networking/http.go. Dispatch/Restart is the start of backend/cmd/server/main.go: `read_on` is
--   the loop of `Replay` over the file as it grows by what is logged, on fuel, one for each line and one for the end;
--   Dispatch/Reread, Recover, Relog and Endless are about it, Dispatch/Runs about the run that wrote the log.
-- - Across: the poll of the keys across both programs, `fetch_keys` of App.tsx on what `handle_keys` of http.go
--   answers; what JSON makes of a text is `Json`, the identity on ASCII.
-- - Tests and its children: runs at concrete inputs.
--
-- Parameters. The browser and JavaScript's own library are not part of the repository. What the source draws
-- with `Math.random()` and reads from the clock is an argument of each function that uses it. The answers of
-- `fetch` are arguments (`Answer`, `GeoAnswer`): rejected, or a status and a body. Fractional arithmetic is
-- the interface `Number`: the laws it asks for are those of the order, of `Math.max` and `Math.min`, and that a
-- quotient of counters below 2 ^ 52 compares with a literal as the exact quotient does. Letter case is the
-- interface `Unicode`: on ASCII text it is ASCII's. Counters of the server are natural numbers.
-- Of Go's library, letter case of UTF-8 is the interface `Case`, which is ASCII's on ASCII; `float64` is a type
-- with `IsScore`; the order in which `range` goes through a map is an argument (`Order`), as is the time of a
-- call, in nanoseconds, and the whole seconds of a duration; `Host` and `Codec` hold what the commands use of it. How much
-- `bufio.Writer` writes out when a line comes is the field `writer` of `Aof`; `IsWriter` says that it waits while
-- its 64 KB suffice and never holds more. `encodeURIComponent` follows the steps of the language's standard.
--
-- Not modelled. Sockets, HTTP headers, JSON and the file system of the server; its benchmark and its flags; locks
-- and goroutines: each method of the store, the broker and the log holds its lock throughout, so it is one step, and
-- a command is at one time of the clock, but for the calls of GET /api/keys, each of which has its own time and store
-- (`Reads`). How the browser lays out the elements, the drawing of the charts, the effects that scroll or focus, the entry point
-- main.tsx and the build's configuration: they keep no state of the program that its functions read. The intervals'
-- lengths and React's rendering: a run is a list of the calls made.
pub mod Base
pub mod Text
pub mod Number
pub mod Types
pub mod Notifications
pub mod Mock
pub mod Client
pub mod Poll
pub mod Keys
pub mod Explorer
pub mod Palette
pub mod PubSub
pub mod Region
pub mod Shell
pub mod Charts
pub mod Command
pub mod Int
pub mod Store
pub mod Across
pub mod App
pub mod View
pub mod Tests
pub mod Broker
pub mod Counters
pub mod Log
pub mod Dispatch
