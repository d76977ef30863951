-- ===== src/Poll/Handler/Lost.antt =====
-- src/features/poll/handler.ts: votes on closed polls, and polls outside a guild.
use ido_bata_server_bot.Prelude.{
  ℕ, Bool, true, false, String, Option, none, some, List, [], ◌∷◌, ok, ◌≡◌, sym, subst, arith, get,
  all, delete, is_none, str_eq_refl,
}
use ido_bata_server_bot.Poll.State.{
  Poll, stored, Disk, load, save, find_poll_by_id, upsert_poll, is_empty, is_valid_poll,
  is_valid_options, is_valid_question,
}
use ido_bata_server_bot.Poll.Aggregate.{clear_vote}
use ido_bata_server_bot.Poll.Handler.{
  Request, Creation, new_poll, guild_or_empty, handle_clear_button, handle_create, created, gated,
  clear_found, store_cleared, store_poll, create_sent, authorize_or_reply,
}

all-upsert_poll-false :
    (test : Poll → Bool) (q : Poll) (polls : List Poll)
    → test q ≡ false
    → all test (upsert_poll q polls) ≡ false
unfolding upsert_poll
all-upsert_poll-false test q [] t = ground arith
all-upsert_poll-false test q (p ∷ polls) t = ground (arith, all-upsert_poll-false test q polls t)

no_guild-is_empty : (guild : Option String) → guild ≡ none → is_empty (guild_or_empty guild) ≡ true
no_guild-is_empty guild h = subst (λ g. is_empty (guild_or_empty g) ≡ true) (sym h) (str_eq_refl "")

module _ (text_length : String → ℕ) (lower : String → String) where
  -- A vote can be taken back after the poll was closed: when the gate allows it, no write is to fail
  -- and the user has a vote on a closed poll, the poll is stored without that vote.
  pub clear_after_close :
      (request : Request) (id : String) (disk : Disk) (polls : List Poll) (p : Poll)
      → request.gate ≡ some (ok true)
      → disk.writes ≡ []
      → load text_length lower disk.file ≡ ok polls
      → find_poll_by_id id polls ≡ some p
      → p.closed ≡ true
      → is_none (get request.user_id p.votes) ≡ false
      → (handle_clear_button text_length lower request id none disk).1.file
        ≡ stored (upsert_poll (record p { votes = delete request.user_id p.votes }) polls)
  unfolding handle_clear_button gated clear_found store_cleared store_poll authorize_or_reply
      clear_vote save
  clear_after_close request id disk polls p g w l f c v = ground arith

  no_guild-is_valid :
      (request : Request) (creation : Creation) (message_id : String)
      → creation.guild_id ≡ none
      → is_valid_poll text_length lower
          (record (new_poll request creation) { message_id = message_id })
        ≡ false
  unfolding is_valid_poll new_poll
  no_guild-is_valid request creation message_id h =
      ground (arith, no_guild-is_empty creation.guild_id h)

  -- A poll created outside a guild, where the gate allows it, the schemas take its question and its
  -- options and no write is to fail, is reported as created and stored with an empty guild, which
  -- the schema refuses: the next load gives no polls at all, so every poll stored before is lost.
  pub create_without_guild :
      (request : Request) (creation : Creation) (message_id : String) (disk : Disk)
      (polls : List Poll)
      → request.gate ≡ some (ok true)
      → disk.writes ≡ []
      → load text_length lower disk.file ≡ ok polls
      → is_valid_question text_length lower creation.question ≡ true
      → is_valid_options text_length lower creation.options ≡ true
      → creation.guild_id ≡ none
      → ((handle_create text_length lower request creation (ok message_id) disk).0 ≡ ok created)
        × (load text_length lower
              (handle_create text_length lower request creation (ok message_id) disk).1.file
            ≡ ok [])
  unfolding handle_create gated create_sent store_poll authorize_or_reply save load new_poll
  create_without_guild request creation message_id disk polls g w l q o none_given = ground (
    arith,
    all-upsert_poll-false (is_valid_poll text_length lower)
        (record (new_poll request creation) { message_id = message_id }) polls
        (no_guild-is_valid request creation message_id none_given),
  )
