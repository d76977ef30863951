-- ===== src/Starboard/Handler.antt =====
-- src/features/starboard/handler.ts and config.ts: a message with enough stars is posted again. The
-- runs of the queue of a message are taken apart where they wait: a run arrives in its message's
-- chain, starts when no other run of the message is under way, goes on when Discord has told about
-- the message and its stars, and ends when the post was sent or refused. Steps of runs of different
-- messages may come in any order. Texts and the layout of the post are left out.
use ido_bata_server_bot.Prelude.{
  ℕ, Bool, true, false, not, ◌&&◌, String, Option, none, some, List, [], ◌∷◌, ◌++◌, if◌then◌else◌,
  str_eq, leb, any, keep, is_none, get, put, delete, Outcome, ok, threw, Done,
}

abbrev pub star_emoji_name : String
star_emoji_name = "⭐"

abbrev pub threshold : ℕ
threshold = 5

pub record Emoji : Type 0 where
  pub id : Option String
  pub name : Option String

-- An empty id counts as none.
unfoldable pub matches_star_emoji : Emoji → Bool
matches_star_emoji emoji =
    elim emoji.id [ none ↦ true | some id ↦ str_eq id "" ]
    && elim emoji.name [ none ↦ false | some name ↦ str_eq name star_emoji_name ]

pub record MessageInfo : Type 0 where
  pub is_author_bot : Bool
  pub is_nsfw : Bool

-- Where a started run waits: for the message and its stars, or for the post to be sent.
pub data Stage : Type 0 where
  looking sending : Stage

-- `waiting` lists the messages of the runs that have arrived and not started, `active` the started
-- ones, and `reposts` the messages whose post was sent.
pub record Board : Type 0 where
  pub reposted_message_ids : List String
  pub waiting : List String
  pub active : List (String × Stage)
  pub reposts : List String

abbrev pub empty_board : Board
empty_board = record { reposted_message_ids = []; waiting = []; active = []; reposts = [] }

abbrev pub has : String → List String → Bool
has id ids = any (λ i. str_eq i id) ids

abbrev pub remove_first : String → List String → List String
remove_first id [] = []
remove_first id (i ∷ ids) = let rest = remove_first id ids in if str_eq i id then ids else i ∷ rest

-- `handleReaction` up to `enqueue`
unfoldable pub handle_reaction : Emoji → String → Board → Board
unfolding matches_star_emoji
handle_reaction emoji id board =
    if matches_star_emoji emoji then record board { waiting = board.waiting ++ id ∷ [] } else board

-- The next run of the message starts: it ends at once if the message is claimed.
unfoldable pub start_run : String → Board → Board
start_run id board =
    if has id board.waiting && is_none (get id board.active)
    then if has id board.reposted_message_ids
      then record board { waiting = remove_first id board.waiting }
      else record board {
        waiting = remove_first id board.waiting;
        active = put id looking board.active;
      }
    else board

-- The checks of a run up to the claim; a fetch or a count that throws ends the run.
unfoldable pub passes : Outcome (Option MessageInfo) → Outcome ℕ → Bool
passes (threw _) count = false
passes (ok none) count = false
passes (ok (some info)) (threw _) = false
passes (ok (some info)) (ok count) =
    not info.is_author_bot && (not info.is_nsfw && leb threshold count)

abbrev is_looking : Option Stage → Bool
is_looking (some looking) = true
is_looking _ = false

abbrev is_sending : Option Stage → Bool
is_sending (some sending) = true
is_sending _ = false

-- `add` of a set
abbrev claim : String → List String → List String
claim id ids = if has id ids then ids else ids ++ id ∷ []

-- The message is claimed before the post is sent.
unfoldable pub look : String → Outcome (Option MessageInfo) → Outcome ℕ → Board → Board
unfolding passes
look id info count board =
    if is_looking (get id board.active)
    then if passes info count
      then record board {
        reposted_message_ids = claim id board.reposted_message_ids;
        active = put id sending board.active;
      }
      else record board { active = delete id board.active }
    else board

-- A refused post gives the claim up.
unfoldable pub finish_run : String → Done → Board → Board
finish_run id sent board =
    if is_sending (get id board.active)
    then elim sent [
      | ok _ ↦ record board { active = delete id board.active; reposts = board.reposts ++ id ∷ [] }
      | threw _ ↦ record board {
        active = delete id board.active;
        reposted_message_ids = keep (λ i. not (str_eq i id)) board.reposted_message_ids;
      }
    ]
    else board
