-- ===== src/Poll/Handler.antt =====
-- src/features/poll/handler.ts: creating, closing, voting and clearing. What Discord answers and
-- what the consent gate says are arguments of an operation; a reply is its result, a throw its
-- other one. Reply texts are left out, and a reply that Discord refuses changes nothing.
pub mod Laws
pub mod Stored
pub mod Valid
pub mod Kept
pub mod Lost
use ido_bata_server_bot.Prelude.{
  ℕ, Bool, true, false, not, ◌&&◌, String, Option, none, some, List, [], ◌∷◌, if◌then◌else◌, str_eq,
  Outcome, ok, threw, Failure, io_failure, ℤ, Done,
}
use ido_bata_server_bot.Poll.State.{
  Poll, Disk, load, save, is_empty, is_valid_options, is_valid_question, find_poll_by_id,
  find_poll_by_message_id, upsert_poll,
}
use ido_bata_server_bot.Poll.Aggregate.{Vote, apply_vote, clear_vote}

pub data Reply : Type 0 where
  invalid_question invalid_options consent_denied created missing_message_id not_found : Reply
  already_closed not_creator closed_poll closed_without_message invalid_option : Reply
  no_message vote_changed vote_accepted no_vote vote_cleared : Reply

-- The user of an interaction, what the consent gate answers for the user (`none`: there is no
-- gate), and the clock reading.
pub record Request : Type 0 where
  pub user_id : String
  pub gate : Option (Outcome Bool)
  pub now : String

-- What an edit of the poll's message gives; `none`: there is no message.
abbrev pub MessageTarget : Type 0
MessageTarget = Option Done

-- `authorizeOrReply`
unfoldable pub authorize_or_reply : Option (Outcome Bool) → Outcome Bool
authorize_or_reply none = ok false
authorize_or_reply (some decision) = decision

-- `/poll create`; the question and the options are those that the schemas have trimmed.
pub record Creation : Type 0 where
  pub id : String
  pub guild_id : Option String
  pub channel_id : String
  pub question : String
  pub options : List String

abbrev pub guild_or_empty : Option String → String
guild_or_empty none = ""
guild_or_empty (some guild) = guild

unfoldable pub new_poll : Request → Creation → Poll
new_poll request creation = record {
  id = creation.id;
  guild_id = guild_or_empty creation.guild_id;
  channel_id = creation.channel_id;
  message_id = "";
  question = creation.question;
  options = creation.options;
  creator_id = request.user_id;
  created_at = request.now;
  closed = false;
  closed_at = none;
  votes = [];
}

-- `saveState(upsertPoll(state, poll))`; a failed write is thrown on.
unfoldable pub store_poll : Poll → List Poll → Disk → Done × Disk
store_poll poll polls disk = save (upsert_poll poll polls) disk

-- What follows a save: `reply` is given when it returned.
abbrev then_reply : Outcome Reply → Done × Disk → Outcome Reply × Disk
then_reply reply (ok _, disk) = (reply, disk)
then_reply reply (threw e, disk) = (threw e, disk)

abbrev after_edit : Reply → MessageTarget → Reply → Outcome Reply
after_edit without none reply = ok without
after_edit without (some (ok _)) reply = ok reply
after_edit without (some (threw e)) reply = threw e

create_sent : Request → Creation → List Poll → Outcome String → Disk → Outcome Reply × Disk
unfolding store_poll
create_sent request creation polls (threw e) disk = (threw e, disk)
create_sent request creation polls (ok message_id) disk =
    then_reply (ok created)
      (store_poll (record (new_poll request creation) { message_id = message_id }) polls disk)

-- The part of a handler behind the gate; `act` gets the loaded polls.
gated :
    Outcome Bool
    → Outcome (List Poll)
    → (List Poll → Disk → Outcome Reply × Disk)
    → Disk
    → Outcome Reply × Disk
gated (threw e) loaded act disk = (threw e, disk)
gated (ok false) loaded act disk = (ok consent_denied, disk)
gated (ok true) (threw e) act disk = (threw e, disk)
gated (ok true) (ok polls) act disk = act polls disk

close_found : Request → MessageTarget → List Poll → Option Poll → Disk → Outcome Reply × Disk
unfolding store_poll
close_found request target polls none disk = (ok not_found, disk)
close_found request target polls (some poll) disk =
    if poll.closed
    then (ok already_closed, disk)
    else if not (str_eq poll.creator_id request.user_id)
    then (ok not_creator, disk)
    else then_reply (after_edit closed_without_message target closed_poll)
        (store_poll (record poll { closed = true; closed_at = some request.now }) polls disk)

abbrev vote_reply : Vote → Reply
vote_reply vote = if vote.changed then vote_changed else vote_accepted

store_vote : MessageTarget → List Poll → Outcome Vote → Disk → Outcome Reply × Disk
unfolding store_poll
store_vote target polls (threw _) disk = (ok invalid_option, disk)
store_vote target polls (ok vote) disk =
    then_reply (after_edit no_message target (vote_reply vote)) (store_poll vote.next polls disk)

vote_found : Request → MessageTarget → ℤ → List Poll → Option Poll → Disk → Outcome Reply × Disk
unfolding store_vote
vote_found request target option polls none disk = (ok not_found, disk)
vote_found request target option polls (some poll) disk =
    if poll.closed
    then (ok already_closed, disk)
    else store_vote target polls (apply_vote poll request.user_id option) disk

store_cleared : MessageTarget → List Poll → Poll × Bool → Disk → Outcome Reply × Disk
unfolding store_poll
store_cleared target polls (next, false) disk = (ok no_vote, disk)
store_cleared target polls (next, true) disk =
    then_reply (after_edit no_message target vote_cleared) (store_poll next polls disk)

clear_found : Request → MessageTarget → List Poll → Option Poll → Disk → Outcome Reply × Disk
unfolding store_cleared
clear_found request target polls none disk = (ok not_found, disk)
clear_found request target polls (some poll) disk =
    store_cleared target polls (clear_vote poll request.user_id) disk

-- What an interaction asks for. `send` is what sending the poll's message gives.
pub data Command : Type 0 where
  create : Creation → Outcome String → Command
  close : String → MessageTarget → Command
  vote : String → ℤ → MessageTarget → Command
  clear : String → MessageTarget → Command

module _ (text_length : String → ℕ) (lower : String → String) where
  abbrev loaded : Disk → Outcome (List Poll)
  loaded disk = load text_length lower disk.file

  unfoldable pub handle_create : Request → Creation → Outcome String → Disk → Outcome Reply × Disk
  unfolding gated create_sent authorize_or_reply
  handle_create request creation send disk =
      if not (is_valid_question text_length lower creation.question)
      then (ok invalid_question, disk)
      else if not (is_valid_options text_length lower creation.options)
      then (ok invalid_options, disk)
      else gated (authorize_or_reply request.gate) (loaded disk)
          (λ polls. create_sent request creation polls send) disk

  close_loaded :
      Request → String → MessageTarget → Outcome (List Poll) → Disk → Outcome Reply × Disk
  unfolding close_found
  close_loaded request message_id target (threw e) disk = (threw e, disk)
  close_loaded request message_id target (ok polls) disk =
      close_found request target polls (find_poll_by_message_id message_id polls) disk

  unfoldable pub handle_close : Request → String → MessageTarget → Disk → Outcome Reply × Disk
  unfolding close_loaded
  handle_close request message_id target disk =
      if is_empty message_id
      then (ok missing_message_id, disk)
      else close_loaded request message_id target (loaded disk) disk

  unfoldable pub handle_vote_button :
      Request → String → ℤ → MessageTarget → Disk → Outcome Reply × Disk
  unfolding gated vote_found authorize_or_reply
  handle_vote_button request poll_id option target disk =
      gated (authorize_or_reply request.gate) (loaded disk)
        (λ polls. vote_found request target option polls (find_poll_by_id poll_id polls)) disk

  unfoldable pub handle_clear_button :
      Request → String → MessageTarget → Disk → Outcome Reply × Disk
  unfolding gated clear_found authorize_or_reply
  handle_clear_button request poll_id target disk =
      gated (authorize_or_reply request.gate) (loaded disk)
        (λ polls. clear_found request target polls (find_poll_by_id poll_id polls)) disk

  -- `handleInteraction`, once it has told the kind of interaction.
  unfoldable pub handle_interaction : Request → Command → Disk → Outcome Reply × Disk
  unfolding handle_create handle_close handle_vote_button handle_clear_button
  handle_interaction request (create creation send) disk = handle_create request creation send disk
  handle_interaction request (close message_id target) disk =
      handle_close request message_id target disk
  handle_interaction request (vote poll_id option target) disk =
      handle_vote_button request poll_id option target disk
  handle_interaction request (clear poll_id target) disk =
      handle_clear_button request poll_id target disk
