-- ===== src/Lib.antt =====
-- The core logic of the Discord bot ido-bata-server-bot. Paths are from the repository's root.
--
-- Prelude: the names that all modules share. Tests (Boolean tests), Lists (arrays), Maps (`Map` and
--   plain objects, as entries in insertion order), Results (an `Outcome` is a value or a throw),
--   Integers.
--
-- Consent (src/consent): who may have which data stored.
--   Types models types.ts and scopes.ts, Repository the interface of repository.ts with the laws
--   that a client relies on (Rows: what the changes of rows mean), RepositoryJson the implementation
--   over one JSON file in repository-json.ts (Laws: the interface's laws; Durability: restarts
--   and damaged files), Service the operations of service.ts over any repository (Laws: what the
--   stored rows decide; Answers: what `authorize` answers; Clear: deletion), Service.Reconcile its `reconcile` (Walk: the order of the targets; Snapshot,
--   Events, Soundness, Coherence, Duplicates: what it stores, emits and reports), Reactions the
--   handler in reaction-handler.ts. The service takes the repository as an argument, and
--   its theorems are about every repository that has the laws.
--
-- Poll (src/features/poll): votes of a guild's members.
--   State models state.ts, Aggregate aggregate.ts (Tally: what is counted; Votes: what a vote
--   changes), Handler the handlers in handler.ts (Laws: the specification of the changes a request
--   may make; Valid: what is stored and the schema of a load; Kept: what a request leaves of the
--   stored polls; Lost: votes on closed polls, and polls outside a guild).
--   The handlers ask the consent service for the scope activity-history; its answer is part of the
--   request.
--
-- RateLimit: StackLimiter models src/features/error-forwarder/rate-limit.ts, WebhookLimiter
--   src/features/github-webhook/rate-limit.ts.
--
-- Events: RingBuffer models src/lib/logger/ring-buffer.ts (Recent: what it keeps), StatusStore
--   src/runtime/status-store.ts (Consistent: what its snapshots show).
--
-- Reminder (src/features/reminder): messages that a user asks for later.
--   Store models store.ts and config.ts, Scheduler scheduler.ts (Overdue: what it picks), Queue the
--   queue in service.ts. An `add` has two parts, `add` up to the call of the consent gate and
--   `settle_add` behind it, and so has a dispatch: what comes between is explicit (Dispatch: what a
--   tick takes away; Limits: the limit of a user, alone and with two calls that overlap; Durable:
--   restarts). Command models command.ts over the queue. Duration models duration.ts (Digits: numbers
--   in decimal; RoundTrip: texts and durations); its parser takes the longest run of digits and a unit
--   at a time, so the length of the text is enough fuel.
--
-- Starboard: Handler models src/features/starboard/handler.ts and config.ts, a run of a message's
--   queue taken apart where it awaits; Once is about how often a message is posted.
--
-- Storage: AtomicJson models src/lib/storage/atomic-json.ts, a file with the plan of its reads,
--   writes and renames (Mutation: what a mutation may do; Erasure: what a deletion of entries leaves),
--   PlainFile the files that are overwritten in place.
--
-- Snapshots: Retention models src/features/state-snapshot/retention.ts (Laws: a plan),
--   Purge the deletions in src/features/state-snapshot/service.ts, on a directory whose listing and
--   removals may fail (Laws; Kept: the snapshot that stays).
--
-- Birthday (src/features/birthday-role): Storage models storage.ts (Laws: round trip), Date date.ts
--   (Laws: midnights and days; RoundTrip: texts), Handler the registrations in handler.ts, Roles the
--   ticks of handler.ts, schedule.ts and service.ts (Laws: one tick; Midnight: both).
--
-- Announcements (src/features/scheduled-announcements): Schedule models schedule.ts (Laws: times in the
--   future), Service service.ts with its timer (Laws: runs of the timer).
--
-- Privacy (src/features/privacy): what a member's request for deletion removes.
--   Consumers models the adapters in consumers, each with the storage of its part (Laws), Clear the
--   request in clear.ts, which goes through the consent service and the adapters (Forgotten: what is
--   gone; Others: what stays).
--
-- Timekeeper (src/features/timekeeper): sessions of work and breaks in a voice channel.
--   Engagement models engagement.ts (SessionLog, CheckIns, History, Deletion), which asks the consent
--   gate, Schedule the times of schedule.ts, config.ts and playback-budget.ts, Timeline timeline.ts
--   and the search of session-clock.ts, Connect the connection in service.ts with its attempts, its
--   time out and its clean-up, over the connections that are open, Session the variables and commands of service.ts (Schedules: the
--   timer of the next session), Session.Loop the loop of its runSession as a step relation (Laws:
--   what is announced; Skips: commands between the events). Consent.Samples holds data that the
--   examples of several parts use.
--
-- The examples of a part stand in its module Examples.
--
-- Conventions. A state is a record, an operation a function that takes and returns it, beside its
-- result; asynchronous operations run one at a time, so interleavings at an `await` are modelled
-- only in Reminder, Starboard and Timekeeper.Session. Times are natural numbers of milliseconds, or
-- the strings that are stored where they are only copied; a reading of the clock is an argument of
-- the operation that makes it. What the environment answers (a file that cannot be written, a fetch
-- that fails, a failed edit of a message) is an argument or a plan in the state: the next outcome of
-- the plan is used up by the next call, and a plan that is used up means success. Every loop goes
-- over a list, except these: the parser of durations and the writing of a number in decimal are on
-- fuel, the length of the text and the number, and the reconnection of the timekeeper and the
-- sending of an announcement recurse on the number of attempts that are left.
--
-- Not modelled: error texts, log lines and reply texts; the Discord client, the HTTP server and the
-- file system themselves; the schema library, of which only the accepted values are modelled, as
-- Boolean tests; rendering of messages and of the terminal interface; deployment of slash commands.
mod Prelude
pub mod Consent
pub mod Starboard
pub mod RateLimit
pub mod Events
pub mod Poll
pub mod Reminder
pub mod Storage
pub mod Snapshots
pub mod Announcements
pub mod Birthday
pub mod Privacy
pub mod Timekeeper
