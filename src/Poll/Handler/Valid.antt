-- ===== src/Poll/Handler/Valid.antt =====
-- What the handlers of src/features/poll/handler.ts store, and the schema that a load applies.
use ido_bata_server_bot.Prelude.{
  ℕ, true, not, String, List, str_eq, Outcome, ok, pos, negsuc, ◌≡◌, sym, subst, arith, all, ltb,
  length, put, delete, all-keep,
}
use ido_bata_server_bot.Poll.State.{
  Poll, PollFile, garbled, stored, missing, blank, foreign, Disk, load, is_valid_poll,
}
use ido_bata_server_bot.Poll.Aggregate.{Vote, apply_vote, clear_vote}
use ido_bata_server_bot.Poll.Handler.{Request, new_poll, Command, handle_interaction, Reply}
use ido_bata_server_bot.Poll.Handler.Laws.{
  Change, opened, closed, voted, unvoted, Effect, unchanged, damaged, changed,
  handle_interaction-Effect,
}
use ido_bata_server_bot.Poll.Handler.Stored.{
  all-upsert_poll, all-find_poll_by_id, all-find_poll_by_message_id, all-put, IsNamed, IsComplete,
}

voted_next :
    (x : Poll) (user : String) (i : ℕ) (cast : Vote)
    → apply_vote x user (pos i) ≡ ok cast
    → (ltb i (length x.options) ≡ true) × (cast.next ≡ record x { votes = put user i x.votes })
unfolding apply_vote
voted_next x user i cast v = ground arith

unvoted_next :
    (x next : Poll) (user : String)
    → clear_vote x user ≡ (next, true)
    → next ≡ record x { votes = delete user x.votes }
unfolding clear_vote
unvoted_next x next user c = ground arith

module _ (text_length : String → ℕ) (lower : String → String) where
  votes-is_valid :
      (x : Poll) (votes : List (String × ℕ))
      → is_valid_poll text_length lower x ≡ true
      → (all (λ v. ltb v.1 (length x.options)) x.votes ≡ true
          → all (λ v. ltb v.1 (length x.options)) votes ≡ true)
      → is_valid_poll text_length lower (record x { votes = votes }) ≡ true
  unfolding is_valid_poll
  votes-is_valid x votes h k = ground (arith, h, k)

  voted-is_valid :
      (x : Poll) (user : String) (i : ℕ) (cast : Vote)
      → apply_vote x user (pos i) ≡ ok cast
      → is_valid_poll text_length lower x ≡ true
      → is_valid_poll text_length lower cast.next ≡ true
  voted-is_valid x user i cast v h =
      subst (λ p. is_valid_poll text_length lower p ≡ true) (sym (voted_next x user i cast v).1)
        (votes-is_valid x (put user i x.votes) h (
          all-put (λ b. ltb b.1 (length x.options)) user i x.votes
            (λ _. (voted_next x user i cast v).0)))

  unvoted-is_valid :
      (x next : Poll) (user : String)
      → clear_vote x user ≡ (next, true)
      → is_valid_poll text_length lower x ≡ true
      → is_valid_poll text_length lower next ≡ true
  unvoted-is_valid x next user c h =
      subst (λ p. is_valid_poll text_length lower p ≡ true) (sym (unvoted_next x next user c))
        (votes-is_valid x (delete user x.votes) h
          (all-keep (λ b. ltb b.1 (length x.options)) (λ e. not (str_eq e.0 user)) x.votes))

  pub Change-is_valid :
      (request : Request) (command : Command) (polls : List Poll) (q : Poll)
      → Change text_length lower request polls command q
      → IsNamed request
      → IsComplete command
      → all (is_valid_poll text_length lower) polls ≡ true
      → is_valid_poll text_length lower q ≡ true
  unfolding new_poll is_valid_poll apply_vote
  Change-is_valid request command polls q (opened creation message_id a v w) n c h =
      ground (arith, v, w, n.user, n.time, c)
  Change-is_valid request command polls q (closed x message_id target f o k) n c h = ground (
    arith,
    n.time,
    all-find_poll_by_message_id (is_valid_poll text_length lower) message_id x polls h f,
  )
  Change-is_valid request command polls q (voted x poll_id (negsuc i) target cast a f o v) n c h =
      cc
  Change-is_valid request command polls q (voted x poll_id (pos i) target cast a f o v) n c h =
      voted-is_valid x request.user_id i cast v
        (all-find_poll_by_id (is_valid_poll text_length lower) poll_id x polls h f)
  Change-is_valid request command polls q (unvoted x poll_id target next a f k) n c h =
      unvoted-is_valid x next request.user_id k
        (all-find_poll_by_id (is_valid_poll text_length lower) poll_id x polls h f)

  -- Every poll in the file passes the schema.
  abbrev pub IsSound : PollFile → Type 0
  IsSound (stored polls) = all (is_valid_poll text_length lower) polls ≡ true
  IsSound _ = Unit

  pub load-IsSound :
      (file : PollFile) (polls : List Poll)
      → load text_length lower file ≡ ok polls
      → all (is_valid_poll text_length lower) polls ≡ true
  unfolding load
  load-IsSound missing polls h = ground (arith, h)
  load-IsSound blank polls h = ground (arith, h)
  load-IsSound garbled polls h = cc
  load-IsSound foreign polls h = ground (arith, h)
  load-IsSound (stored polls') polls h = ground (arith, h)

  pub load_stored :
      (polls : List Poll)
      → all (is_valid_poll text_length lower) polls ≡ true
      → load text_length lower (stored polls) ≡ ok polls
  unfolding load
  load_stored polls h = ground (arith, h)

  Effect-IsSound :
      (request : Request) (command : Command) (disk : Disk) (result : Outcome Reply × Disk)
      → IsNamed request
      → IsComplete command
      → IsSound disk.file
      → Effect text_length lower request command disk result
      → IsSound result.1.file
  Effect-IsSound request command disk result n c s (unchanged e) = subst IsSound (sym e) s
  Effect-IsSound request command disk result n c s (damaged e) = subst IsSound (sym e) tt
  Effect-IsSound request command disk result n c s (changed polls q l k e) = subst IsSound (sym e) (
      all-upsert_poll (is_valid_poll text_length lower) q polls
        (Change-is_valid request command polls q k n c (load-IsSound disk.file polls l))
        (load-IsSound disk.file polls l))

  -- If all polls in the file pass the schema, so do all polls that a request leaves in it: no request
  -- makes the next load drop the polls. The request must name its user and the time, and a new poll
  -- must have a guild, an id and the ids that Discord gives, none of them empty.
  pub handle_interaction-IsSound :
      (request : Request) (command : Command) (disk : Disk)
      → IsNamed request
      → IsComplete command
      → IsSound disk.file
      → IsSound (handle_interaction text_length lower request command disk).1.file
  handle_interaction-IsSound request command disk n c s =
      Effect-IsSound request command disk
        (handle_interaction text_length lower request command disk) n c s
        (handle_interaction-Effect text_length lower request command disk)
