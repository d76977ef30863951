-- ===== src/Poll/Handler/Laws.antt =====
-- The changes that the handlers of src/features/poll/handler.ts may make.
use ido_bata_server_bot.Prelude.{
  ℕ, Bool, true, false, not, String, Option, none, some, List, if◌then◌else◌, str_eq, Outcome, ok,
  threw, ℤ, ◌≡◌, refl, ◌⊎◌, inl, inr, arith,
}
use ido_bata_server_bot.Poll.State.{
  Poll, garbled, stored, Disk, load, save, find_poll_by_id, find_poll_by_message_id, upsert_poll,
  is_empty, is_valid_options, is_valid_question,
}
use ido_bata_server_bot.Poll.Aggregate.{Vote, apply_vote, clear_vote}
use ido_bata_server_bot.Poll.Handler.{
  Reply, Request, MessageTarget, Creation, new_poll, Command, create, close, vote, clear,
  store_poll, then_reply, gated, close_found, vote_found, store_vote, clear_found, store_cleared,
  create_sent, close_loaded, handle_create, handle_close, handle_vote_button, handle_clear_button,
  handle_interaction, authorize_or_reply,
}

module _ (text_length : String → ℕ) (lower : String → String) where
  -- The specification: the poll that one request may store when `polls` are stored. A new one whose
  -- question and options the schemas take, the creator's closing of an open one, the user's own vote
  -- on an open one, the user's own vote taken back. All but closing need the gate's consent.
  pub data Change (request : Request) (polls : List Poll) : Command → Poll → Type 0 where
    opened :
        (creation : Creation) (message_id : String)
        → authorize_or_reply request.gate ≡ ok true
        → is_valid_question text_length lower creation.question ≡ true
        → is_valid_options text_length lower creation.options ≡ true
        → Change request polls
            (create creation (ok message_id))
            (record (new_poll request creation) { message_id = message_id })
    closed :
        (poll : Poll) (message_id : String) (target : MessageTarget)
        → find_poll_by_message_id message_id polls ≡ some poll
        → poll.closed ≡ false
        → str_eq poll.creator_id request.user_id ≡ true
        → Change request polls
            (close message_id target)
            (record poll { closed = true; closed_at = some request.now })
    voted :
        (poll : Poll) (poll_id : String) (option : ℤ) (target : MessageTarget) (cast : Vote)
        → authorize_or_reply request.gate ≡ ok true
        → find_poll_by_id poll_id polls ≡ some poll
        → poll.closed ≡ false
        → apply_vote poll request.user_id option ≡ ok cast
        → Change request polls (vote poll_id option target) cast.next
    unvoted :
        (poll : Poll) (poll_id : String) (target : MessageTarget) (next : Poll)
        → authorize_or_reply request.gate ≡ ok true
        → find_poll_by_id poll_id polls ≡ some poll
        → clear_vote poll request.user_id ≡ (next, true)
        → Change request polls (clear poll_id target) next

  -- What a request may do to the file: nothing, one change of the polls that it loads, or, when the
  -- disk fills during the write, damage.
  pub data Effect (request : Request) (command : Command) (before : Disk)
      (result : Outcome Reply × Disk) : Type 0 where
    unchanged : result.1.file ≡ before.file → Effect request command before result
    damaged : result.1.file ≡ garbled → Effect request command before result
    changed :
        (polls : List Poll) (poll : Poll)
        → load text_length lower before.file ≡ ok polls
        → Change request polls command poll
        → result.1.file ≡ stored (upsert_poll poll polls)
        → Effect request command before result

  then_reply-file :
      (reply : Outcome Reply) (polls : List Poll) (disk : Disk)
      → ((then_reply reply (save polls disk)).1.file ≡ stored polls)
        ⊎ (((then_reply reply (save polls disk)).1.file ≡ disk.file)
            ⊎ ((then_reply reply (save polls disk)).1.file ≡ garbled))
  unfolding save
  then_reply-file reply polls disk = ground arith

  store_poll-Effect :
      (request : Request) (command : Command) (reply : Outcome Reply) (poll : Poll)
      (polls : List Poll) (disk : Disk)
      → load text_length lower disk.file ≡ ok polls
      → Change request polls command poll
      → Effect request command disk (then_reply reply (store_poll poll polls disk))
  unfolding store_poll
  store_poll-Effect request command reply poll polls disk l c =
      elim (then_reply-file reply (upsert_poll poll polls) disk) [
        | inl e ↦ changed polls poll l c e
        | inr (inl e) ↦ unchanged e
        | inr (inr e) ↦ damaged e
      ]

  if-Effect :
      (request : Request) (command : Command) (disk : Disk) (b : Bool) (x y : Outcome Reply × Disk)
      → (b ≡ true → Effect request command disk x)
      → (b ≡ false → Effect request command disk y)
      → Effect request command disk (if b then x else y)
  if-Effect request command disk true x y f g = f refl
  if-Effect request command disk false x y f g = g refl

  gated-Effect :
      (request : Request) (command : Command) (disk : Disk) (d : Outcome Bool)
      (l : Outcome (List Poll)) (act : List Poll → Disk → Outcome Reply × Disk)
      → (d ≡ ok true
          → (polls : List Poll) → l ≡ ok polls
          → Effect request command disk (act polls disk))
      → Effect request command disk (gated d l act disk)
  unfolding gated
  gated-Effect request command disk (threw e) l act f = unchanged refl
  gated-Effect request command disk (ok false) l act f = unchanged refl
  gated-Effect request command disk (ok true) (threw e) act f = unchanged refl
  gated-Effect request command disk (ok true) (ok polls) act f = f refl polls refl

  create_sent-Effect :
      (request : Request) (creation : Creation) (polls : List Poll) (send : Outcome String)
      (disk : Disk)
      → load text_length lower disk.file ≡ ok polls
      → authorize_or_reply request.gate ≡ ok true
      → is_valid_question text_length lower creation.question ≡ true
      → is_valid_options text_length lower creation.options ≡ true
      → Effect request (create creation send) disk (create_sent request creation polls send disk)
  unfolding create_sent
  create_sent-Effect request creation polls (threw e) disk l a q o = unchanged refl
  create_sent-Effect request creation polls (ok message_id) disk l a q o =
      store_poll-Effect request _ _ _ polls disk l (opened creation message_id a q o)

  close_found-Effect :
      (request : Request) (target : MessageTarget) (message_id : String) (polls : List Poll)
      (found : Option Poll) (disk : Disk)
      → load text_length lower disk.file ≡ ok polls
      → find_poll_by_message_id message_id polls ≡ found
      → Effect request (close message_id target) disk (close_found request target polls found disk)
  unfolding close_found
  close_found-Effect request target message_id polls none disk l e = unchanged refl
  close_found-Effect request target message_id polls (some poll) disk l e =
      if-Effect request _ disk poll.closed _ _ (λ _. unchanged refl)
        (λ is_open.
          if-Effect request _ disk (not (str_eq poll.creator_id request.user_id)) _ _
            (λ _. unchanged refl)
            (λ own.
              store_poll-Effect request _ _ _ polls disk l
                (closed poll message_id target e is_open (ground (arith, own)))))

  store_vote-Effect :
      (request : Request) (target : MessageTarget) (poll_id : String) (option : ℤ)
      (polls : List Poll) (poll : Poll) (result : Outcome Vote) (disk : Disk)
      → load text_length lower disk.file ≡ ok polls
      → authorize_or_reply request.gate ≡ ok true
      → find_poll_by_id poll_id polls ≡ some poll
      → poll.closed ≡ false
      → apply_vote poll request.user_id option ≡ result
      → Effect request (vote poll_id option target) disk (store_vote target polls result disk)
  unfolding store_vote
  store_vote-Effect request target poll_id option polls poll (threw e) disk l a f o v =
      unchanged refl
  store_vote-Effect request target poll_id option polls poll (ok cast) disk l a f o v =
      store_poll-Effect request _ _ _ polls disk l (voted poll poll_id option target cast a f o v)

  vote_found-Effect :
      (request : Request) (target : MessageTarget) (poll_id : String) (option : ℤ)
      (polls : List Poll) (found : Option Poll) (disk : Disk)
      → load text_length lower disk.file ≡ ok polls
      → authorize_or_reply request.gate ≡ ok true
      → find_poll_by_id poll_id polls ≡ found
      → Effect request
          (vote poll_id option target)
          disk
          (vote_found request target option polls found disk)
  unfolding vote_found
  vote_found-Effect request target poll_id option polls none disk l a f = unchanged refl
  vote_found-Effect request target poll_id option polls (some poll) disk l a f =
      if-Effect request _ disk poll.closed _ _ (λ _. unchanged refl)
        (λ o. store_vote-Effect request target poll_id option polls poll _ disk l a f o refl)

  store_cleared-Effect :
      (request : Request) (target : MessageTarget) (poll_id : String) (polls : List Poll)
      (poll : Poll) (result : Poll × Bool) (disk : Disk)
      → load text_length lower disk.file ≡ ok polls
      → authorize_or_reply request.gate ≡ ok true
      → find_poll_by_id poll_id polls ≡ some poll
      → clear_vote poll request.user_id ≡ result
      → Effect request (clear poll_id target) disk (store_cleared target polls result disk)
  unfolding store_cleared
  store_cleared-Effect request target poll_id polls poll (next, false) disk l a f c = unchanged refl
  store_cleared-Effect request target poll_id polls poll (next, true) disk l a f c =
      store_poll-Effect request _ _ _ polls disk l (unvoted poll poll_id target next a f c)

  clear_found-Effect :
      (request : Request) (target : MessageTarget) (poll_id : String) (polls : List Poll)
      (found : Option Poll) (disk : Disk)
      → load text_length lower disk.file ≡ ok polls
      → authorize_or_reply request.gate ≡ ok true
      → find_poll_by_id poll_id polls ≡ found
      → Effect request (clear poll_id target) disk (clear_found request target polls found disk)
  unfolding clear_found
  clear_found-Effect request target poll_id polls none disk l a f = unchanged refl
  clear_found-Effect request target poll_id polls (some poll) disk l a f =
      store_cleared-Effect request target poll_id polls poll _ disk l a f refl

  close_loaded-Effect :
      (request : Request) (message_id : String) (target : MessageTarget) (l : Outcome (List Poll))
      (disk : Disk)
      → load text_length lower disk.file ≡ l
      → Effect request
          (close message_id target)
          disk
          (close_loaded text_length lower request message_id target l disk)
  unfolding close_loaded
  close_loaded-Effect request message_id target (threw e) disk h = unchanged refl
  close_loaded-Effect request message_id target (ok polls) disk h =
      close_found-Effect request target message_id polls _ disk h refl

  -- Whatever is asked, whatever Discord answers and however the write ends, the file is left alone,
  -- or changed by one of the changes that the specification allows the request's user, or damaged
  -- by a write that the disk broke off.
  pub handle_interaction-Effect :
      (request : Request) (command : Command) (disk : Disk)
      → Effect request command disk (handle_interaction text_length lower request command disk)
  unfolding handle_interaction handle_create handle_close handle_vote_button handle_clear_button
  handle_interaction-Effect request (create creation send) disk =
      if-Effect request _ disk (not (is_valid_question text_length lower creation.question)) _ _
        (λ _. unchanged refl)
        (λ q.
          if-Effect request _ disk (not (is_valid_options text_length lower creation.options)) _ _
            (λ _. unchanged refl)
            (λ o.
              gated-Effect request _ disk _ _ (λ polls. create_sent request creation polls send)
                (λ a polls l.
                  create_sent-Effect request creation polls send disk l a (ground (arith, q))
                    (ground (arith, o)))))
  handle_interaction-Effect request (close message_id target) disk =
      if-Effect request _ disk (is_empty message_id) _ _ (λ _. unchanged refl)
        (λ _. close_loaded-Effect request message_id target _ disk refl)
  handle_interaction-Effect request (vote poll_id option target) disk =
      gated-Effect request _ disk _ _
        (λ polls. vote_found request target option polls (find_poll_by_id poll_id polls))
        (λ a polls l. vote_found-Effect request target poll_id option polls _ disk l a refl)
  handle_interaction-Effect request (clear poll_id target) disk =
      gated-Effect request _ disk _ _
        (λ polls. clear_found request target polls (find_poll_by_id poll_id polls))
        (λ a polls l. clear_found-Effect request target poll_id polls _ disk l a refl)
