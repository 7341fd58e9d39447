-- ===== src/Lib.antt =====
-- Kiro Proxy is a Go service with a React admin panel; this library models the panel's
-- TypeScript (ui/src), which is where the session, the request outcomes and the settings logic
-- live.
--
-- How the parts interact. Web Storage (ui/src/lib/storage.ts, module Storage) holds the admin
-- token. The session store (ui/src/lib/auth/session.ts, module Session) reads it, drops what
-- has expired, caches a snapshot and tells its listeners. The client (ui/src/lib/api/client.ts,
-- module Client) takes the token from the store for each request and ends the session on a 401
-- for that token; Client.Sending has the request that is handed to fetch, and Client.Downloads
-- the name of a downloaded file. SignIn is the asynchronous half of session.ts, over both, and
-- SignIn.Countdown the wait of the login form after a 429 (ui/src/features/auth/rate-limit.ts).
-- Events (ui/src/lib/events/admin-events.tsx) is the event stream of a session, which
-- reconnects with a fresh ticket and turns server events into refetched queries;
-- Events.Handlers is the registry of the handlers that components mount (useAdminEvent), which
-- run after that. Settings holds the logic of the settings cards
-- (ui/src/features/settings/lib): drafts over server copies (dirty.ts), with the structural
-- equality that compares them (its isEqual, module Settings.Draft.Equal), the outbound proxy's
-- URL and its form (proxy-url.ts, module Settings.Proxy), whether Go compiles a pattern
-- (go-regex.ts, module Settings.Regex), the rules of the prompt filter (prompt-filter.ts),
-- which use both, and the model-mapping rows (model-mappings.ts). Search
-- (ui/src/routes/-search.ts) validates the search parameters of the routes, and Redirect, on
-- the same file, splits the login page's redirect. Requests
-- (ui/src/features/requests/request-model.ts) turns the search into the API's query and masks
-- keys; Accounts (ui/src/features/accounts/account-model.ts) has the status, filters, sorting
-- and expiry labels of the account rows, the JSON that copies one (Accounts.Copy), which the
-- dialog of AddAccount takes back, the exported credentials, the order of an account's models
-- and the description of failed actions (Export, Models, Failures). Overview
-- (ui/src/features/overview/aggregate.ts) sums the per-minute cells of the heatmap into the
-- buckets of the traffic chart and merges them (Merge), cuts the live series into the bars of
-- the KPI strip (Bars) and shares the models out over a ring (Slices). AddAccount
-- (ui/src/features/add-account) is the wizard that adds accounts: the login state that its
-- flows share (flow-sessions.ts), the Microsoft and Builder ID flows over it
-- (AddAccount.Microsoft, AddAccount.BuilderId), and what the other flows send (lib, in
-- AddAccount.Credentials, LocalCache and Lines). Backups
-- (ui/src/features/backups/backup-model.ts) and ApiKeys (ui/src/features/api/api-key-form.ts)
-- are the forms of those pages. Messages (ui/src/lib/api/server-errors.ts) turns what the
-- client throws into the text the user reads, Translation (ui/src/lib/i18n/index.tsx) looks
-- texts up, and Keys (ui/src/lib/utils.ts) gives React keys. Text has the JavaScript strings,
-- as lists of UTF-16 code units, with the parts of String.prototype and Number.parseInt that
-- the panel uses; Json the values of JSON.parse.
--
-- State. Session.Store is the module state of session.ts: the browser's two storage areas, the
-- listener set, the snapshot with its object identity, the queued microtasks and the calls
-- made. Functions in camelCase keep their words in snake_case (getSession is get_session). A
-- function that changes state returns the next store (Events.Events is the state of the
-- stream's effect, with what it did so far); an asynchronous one is split at its awaits, and
-- the store may have changed between the parts. The flows of AddAccount are step relations: a
-- step is a click, a timer, a reply or a way out, in any order, and FlowSessions keeps a log of
-- the calls that end a login. A way out resets the sessions and unmounts the flow in one step.
-- In Events.Handlers a run is a list of mounts, unmounts, new connections and events, in any
-- order; no handler mounts or unmounts one while it runs.
--
-- Parameters. JSON.parse, JSON.stringify, URLSearchParams.toString, toLowerCase, the result of
-- fetch and the clock are arguments, and so are Number(s) on strings, URLSearchParams parsing,
-- localeCompare, toUpperCase, atob, encodeURIComponent, decodeURIComponent, Intl.PluralRules,
-- the rounding of a count times an error rate, the bodies of forms and downloads and, outside
-- Translation, the translation function. An area of Web Storage says whether it can be reached
-- and which writes its quota takes.
--
-- Numbers. Times are whole milliseconds or, in Accounts and Overview, seconds; integers are ℤ
-- or ℕ without a bound, which agrees with JavaScript's numbers below 2^53. Credits and usage
-- fractions are integers of one small unit, since the code compares and adds them and nothing
-- else. The fuel that looks for the id of a new prompt-filter rule is the number of rules,
-- since each step uses up one of them. The fuel that prints a number n is n + 1 rounds, and
-- each round divides n by ten. The fuel of the loops that cut bars or groups is the length they
-- cut, and each round takes one element at least. The fuel of a pattern's scan is its length,
-- and that of a class one more than the text after its bracket, which is told apart from a
-- rejected class: every round takes at least one unit.
--
-- Not modelled: React components, charts, the formatting of Intl, quotients that are
-- floating-point numbers, the login flows other than Microsoft and Builder ID, mocks and the Go
-- server, whose reasons the manifest lists.
pub mod Prelude
pub mod Text
pub mod Json
pub mod Storage
pub mod Session
pub mod Client
pub mod Search
pub mod Redirect
pub mod Requests
pub mod Accounts
pub mod Overview
pub mod SignIn
pub mod Events
pub mod Settings
pub mod Backups
pub mod ApiKeys
pub mod Messages
pub mod Keys
pub mod Translation
pub mod AddAccount
