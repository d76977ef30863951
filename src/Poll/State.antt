-- ===== src/Poll/State.antt =====
-- src/features/poll/state.ts: the stored polls. What JSON.parse and the schema library make of a
-- file's text is the kind of its content; a failed write is planned by the environment.
use ido_bata_server_bot.Prelude.{
  ℕ, Bool, true, not, ◌&&◌, String, Option, none, some, List, [], ◌∷◌, ◌++◌, if◌then◌else◌, ltb,
  leb, str_eq, length, all, find, find_index, set, map, any, Outcome, ok, threw, refused,
  io_failure, Done, next_outcome,
}

abbrev pub max_poll_options : ℕ
max_poll_options = 10

abbrev pub min_poll_options : ℕ
min_poll_options = 2

-- `votes` maps a user to an option, in insertion order.
pub record Poll : Type 0 where
  pub id : String
  pub guild_id : String
  pub channel_id : String
  pub message_id : String
  pub question : String
  pub options : List String
  pub creator_id : String
  pub created_at : String
  pub closed : Bool
  pub closed_at : Option String
  pub votes : List (String × ℕ)

abbrev pub is_empty : String → Bool
is_empty s = str_eq s ""

abbrev pub is_valid_closed_at : Option String → Bool
is_valid_closed_at none = true
is_valid_closed_at (some t) = not (is_empty t)

abbrev all_distinct : List String → Bool
all_distinct [] = true
all_distinct (s ∷ ss) = not (any (λ t. str_eq t s) ss) && all_distinct ss

-- `text_length` and `lower` are `length` and `toLowerCase` of a string; the schema has trimmed it.
module _ (text_length : String → ℕ) (lower : String → String) where
  abbrev is_valid_text : ℕ → String → Bool
  is_valid_text bound s = leb 1 (text_length s) && leb (text_length s) bound

  -- `pollOptionsSchema`
  unfoldable pub is_valid_options : List String → Bool
  is_valid_options options =
      all (is_valid_text 80) options
      && (leb min_poll_options (length options)
          && (leb (length options) max_poll_options && all_distinct (map lower options)))

  -- `pollQuestionSchema`
  unfoldable pub is_valid_question : String → Bool
  is_valid_question question = is_valid_text 200 question

  -- `pollSchema`; a vote is a natural number by its type.
  unfoldable pub is_valid_poll : Poll → Bool
  unfolding is_valid_options is_valid_question
  is_valid_poll poll =
      not (is_empty poll.id)
      && (not (is_empty poll.guild_id)
          && (not (is_empty poll.channel_id)
              && (not (is_empty poll.message_id)
                  && (is_valid_question poll.question
                      && (is_valid_options poll.options
                          && (not (is_empty poll.creator_id)
                              && (not (is_empty poll.created_at)
                                  && (is_valid_closed_at poll.closed_at
                                      && all (λ v. ltb v.1 (length poll.options)) poll.votes))))))))

-- The content of the file: `garbled` is no JSON, `foreign` is JSON that is no list of polls in the
-- current version, `stored` is what the schema can read as such.
pub data PollFile : Type 0 where
  missing blank garbled foreign : PollFile
  stored : List Poll → PollFile

-- What a write meets: it succeeds, the file cannot be opened, or the disk fills while it is written.
pub data WriteOutcome : Type 0 where
  written unopened torn : WriteOutcome

pub record Disk : Type 0 where
  pub file : PollFile
  pub writes : List WriteOutcome

abbrev finish_write : List Poll → WriteOutcome × List WriteOutcome → Disk → Done × Disk
finish_write polls (written, plan) disk = (ok tt, record { file = stored polls; writes = plan })
finish_write polls (unopened, plan) disk = (threw io_failure, record disk { writes = plan })
finish_write polls (torn, plan) disk = (threw io_failure, record { file = garbled; writes = plan })

unfoldable pub save : List Poll → Disk → Done × Disk
save polls disk = finish_write polls (next_outcome written disk.writes) disk

module _ (text_length : String → ℕ) (lower : String → String) where
  -- `JSON.parse` throws on text that is no JSON; content that fails the schema is dropped.
  unfoldable pub load : PollFile → Outcome (List Poll)
  unfolding is_valid_poll
  load missing = ok []
  load blank = ok []
  load garbled = threw refused
  load foreign = ok []
  load (stored polls) = if all (is_valid_poll text_length lower) polls then ok polls else ok []

unfoldable pub find_poll_by_message_id : String → List Poll → Option Poll
find_poll_by_message_id message_id polls = find (λ p. str_eq p.message_id message_id) polls

unfoldable pub find_poll_by_id : String → List Poll → Option Poll
find_poll_by_id poll_id polls = find (λ p. str_eq p.id poll_id) polls

unfoldable pub upsert_poll : Poll → List Poll → List Poll
upsert_poll poll polls = elim (find_index (λ p. str_eq p.id poll.id) polls) [
  | none ↦ polls ++ poll ∷ []
  | some i ↦ set polls i poll
]
