-- ===== src/AddAccount/BuilderId.antt =====
-- ui/src/features/add-account/flows/builder-id-flow.tsx: a device login, polled until it completes.
-- Timers fire and replies arrive as steps, in any order.
pub mod Moves
pub mod Chain
pub mod Single
mod Tests
use kiro_reverse_api.Prelude.{
  ℕ, zero, suc, ◌+◌, ◌≡◌, Bool, true, false, ◌&&◌, ◌||◌, not, List, [], ◌∷◌, ◌++◌, All, Option,
  none, some, if◌then◌else◌, ◌==◌, ltb, any,
}
use kiro_reverse_api.Text.{Text, text_eq, is_full}
use kiro_reverse_api.AddAccount.{FlowSessions, new_sessions, is_current, stop_builder_id, reset}
use kiro_reverse_api.AddAccount.Lines.{valid, parse_region}

abbrev pub default_interval : ℕ
default_interval = 5

abbrev pub max_network_retries : ℕ
max_network_retries = 3

-- What a timer's callback remembers: the arguments of `schedule`.
pub record Armed : Type 0 where
  pub timer : ℕ
  pub generation : ℕ
  pub interval : ℕ
  pub failures : ℕ

-- A poll request under way.
pub record Poll : Type 0 where
  pub generation : ℕ
  pub session : Text
  pub interval : ℕ
  pub failures : ℕ

-- `code` says whether the device code is on screen, `starts` are the generations of the start
-- requests under way, and `created` counts the timers (its value is the next one's number).
pub record Flow : Type 0 where
  pub sessions : FlowSessions
  pub code : Bool
  pub starting : Bool
  pub starts : List ℕ
  pub armed : List Armed
  pub polls : List Poll
  pub created : ℕ

abbrev pub new_flow : Flow
new_flow = record {
  sessions = new_sessions;
  code = false;
  starting = false;
  starts = [];
  armed = [];
  polls = [];
  created = 0;
}

unfoldable pub schedule : ℕ → ℕ → ℕ → Flow → Flow
schedule generation interval failures f = record f {
  sessions = record (f.sessions) {
    builder_id_timer = some f.created;
    timers = f.created ∷ f.sessions.timers;
  };
  armed =
      record {
        timer = f.created;
        generation = generation;
        interval = interval;
        failures = failures;
      }
      ∷ f.armed;
  created = suc f.created;
}

-- `onStart` up to its await, where the region is a valid one.
unfoldable pub begin_start : Flow → Flow
begin_start f =
    if f.starting
    then f
    else record f { starting = true; starts = f.sessions.generation ∷ f.starts }

-- `res.interval || DEFAULT_INTERVAL_S`
abbrev pub or_interval : ℕ → ℕ → ℕ
or_interval zero d = d
or_interval (suc n) d = suc n

-- The reply to a start request: the session and the interval, or a failure.
pub data StartReply : Type 0 where
  opened : Text → ℕ → StartReply
  refused : StartReply

abbrev pub show_code : ℕ → Text → ℕ → Flow → Flow
show_code generation session interval f =
    schedule generation (or_interval interval default_interval) 0 (record f {
      sessions = record (stop_builder_id f.sessions) { builder_id_session = session };
      code = true;
    })

abbrev pub started : ℕ → StartReply → Flow → Flow
started generation (opened session interval) f = record (show_code generation session interval f) {
  starting = false;
}
started generation refused f = record f { starting = false }

-- A reply of an earlier generation is one to a flow that is no longer mounted.
unfoldable pub end_start : ℕ → StartReply → Flow → Flow
unfolding is_current schedule stop_builder_id
end_start generation r f = if is_current generation f.sessions then started generation r f else f

abbrev pub poll_of : Armed → Flow → Poll
poll_of a f = record {
  generation = a.generation;
  session = f.sessions.builder_id_session;
  interval = a.interval;
  failures = a.failures;
}

abbrev pub without_timer : ℕ → List ℕ → List ℕ
without_timer i [] = []
without_timer i (t ∷ ts) = if i == t then ts else t ∷ without_timer i ts

abbrev pub fired : Armed → Flow → Flow
fired a f = record f {
  sessions = record (f.sessions) {
    builder_id_timer = none;
    timers = without_timer a.timer f.sessions.timers;
  };
}

-- The callback of a timer, up to its await.
unfoldable pub fire : Armed → Flow → Flow
unfolding is_current
fire a f =
    if not (is_full f.sessions.builder_id_session) || not (is_current a.generation f.sessions)
    then fired a f
    else record (fired a f) { polls = poll_of a f ∷ f.polls }

-- The reply to a poll: the login completed, or is pending with an interval, or the request failed,
-- by the network or otherwise.
pub data PollReply : Type 0 where
  completed : PollReply
  pending : ℕ → PollReply
  lost : PollReply
  rejected : PollReply

-- Every way out of the flow resets the sessions and unmounts it.
unfoldable pub leave : Bool → Flow → Flow
unfolding reset
leave cancel f = record f { sessions = reset cancel f.sessions; code = false; starting = false }

abbrev pub give_up : Flow → Flow
give_up f = record f { sessions = stop_builder_id f.sessions; code = false }

abbrev pub polled : Poll → PollReply → Flow → Flow
polled p completed f = leave false (record f { sessions = stop_builder_id f.sessions })
polled p (pending interval) f = schedule p.generation (or_interval interval p.interval) 0 f
polled p lost f =
    if ltb p.failures max_network_retries
    then schedule p.generation p.interval (suc p.failures) f
    else give_up f
polled p rejected f = give_up f

-- The callback of a timer from its await on.
unfoldable pub end_poll : Poll → PollReply → Flow → Flow
unfolding is_current schedule stop_builder_id leave
end_poll p r f =
    if is_current p.generation f.sessions && text_eq f.sessions.builder_id_session p.session
    then polled p r f
    else f

-- What the server promises of a new session: it has an identifier, which no login before it had.
abbrev pub IsFresh : StartReply → List Poll → Type 0
IsFresh (opened session interval) polls =
    All (λ (p : Poll). text_eq p.session session ≡ false) polls
IsFresh refused polls = Unit

abbrev pub is_set : ℕ → List ℕ → Bool
is_set i ts = any (λ t. i == t) ts

-- What happens to the flow, in any order.
pub data Step : Flow → Flow → Type 0 where
  starts_login : (f : Flow) → Step f (begin_start f)
  replies_start :
      (before after : List ℕ) (generation : ℕ) (r : StartReply) (f : Flow)
      → f.starts ≡ before ++ generation ∷ after
      → IsFresh r f.polls
      → Step f (end_start generation r (record f { starts = before ++ after }))
  fires :
      (before after : List Armed) (a : Armed) (f : Flow)
      → f.armed ≡ before ++ a ∷ after
      → is_set a.timer f.sessions.timers ≡ true
      → Step f (fire a f)
  replies_poll :
      (before after : List Poll) (p : Poll) (r : PollReply) (f : Flow)
      → f.polls ≡ before ++ p ∷ after
      → Step f (end_poll p r (record f { polls = before ++ after }))
  leaves : (f : Flow) → Step f (leave true f)

pub data Reach (s : Flow) : Flow → Type 0 where
  here : Reach s s
  next : {t u : Flow} → Reach s t → Step t u → Reach s u
