-- ===== src/Poll/Examples.antt =====
-- Runs of the poll feature on concrete polls.
use ido_bata_server_bot.Prelude.{
  ℕ, true, false, ◌&&◌, String, none, some, List, [], ◌∷◌, if◌then◌else◌, ok, pos, ◌≡◌, refl, ◌⊎◌,
  get_elem?, ltb, leb, ◌==◌, count, length, any, all,
}
use ido_bata_server_bot.Poll.State.{
  Poll, garbled, stored, Disk, load, save, find_poll_by_id, upsert_poll, is_valid_poll,
  is_valid_question, is_valid_options,
}
use ido_bata_server_bot.Poll.Aggregate.{Vote, apply_vote, tally_poll}
use ido_bata_server_bot.Poll.Tally.{votes_for, tally_poll-counts, tally_poll-leaders}
use ido_bata_server_bot.Poll.Handler.{
  Request, Creation, created, handle_create, Command, vote, vote_changed, handle_interaction,
}
use ido_bata_server_bot.Poll.Handler.Laws.{Effect, handle_interaction-Effect}
use ido_bata_server_bot.Poll.Handler.Stored.{IsNamed}
use ido_bata_server_bot.Poll.Handler.Valid.{IsSound, handle_interaction-IsSound}
use ido_bata_server_bot.Poll.Handler.Kept.{Leaves, handle_interaction-Leaves}
use ido_bata_server_bot.Poll.Handler.Lost.{create_without_guild}

-- Every text counts as five characters, and letters have no case.
abbrev five : String → ℕ
five _ = 5

abbrev same : String → String
same s = s

abbrev lunch : Poll
lunch = record {
  id = "p1";
  guild_id = "g";
  channel_id = "c";
  message_id = "m1";
  question = "lunch";
  options = "soba" ∷ "udon" ∷ "curry" ∷ [];
  creator_id = "ann";
  created_at = "t0";
  closed = false;
  closed_at = none;
  votes = ("ann", 1) ∷ ("bob", 0) ∷ ("eve", 1) ∷ [];
}

abbrev ended : Poll
ended = record lunch { id = "p2"; message_id = "m2"; closed = true; closed_at = some "t9" }

abbrev polls : List Poll
polls = lunch ∷ ended ∷ []

abbrev disk : Disk
disk = record { file = stored polls; writes = [] }

abbrev request : Request
request = record { user_id = "ann"; gate = some (ok true); now = "t5" }

abbrev recast : Vote
recast = record {
  next = record lunch { votes = ("ann", 2) ∷ ("bob", 0) ∷ ("eve", 1) ∷ [] };
  previous_option = some 1;
  changed = true;
}

abbrev ann_votes : Command
ann_votes = vote "p1" (pos 2) (some (ok tt))

ann_changes_vote :
    handle_interaction five same request ann_votes disk
    ≡ (ok vote_changed, record { file = stored (recast.next ∷ ended ∷ []); writes = [] })
unfolding handle_interaction load find_poll_by_id apply_vote save upsert_poll
ann_changes_vote = refl

tally_poll-counts_example :
    (get_elem? (tally_poll lunch).counts 1
      ≡ (if ltb 1 (length lunch.options) then some (votes_for 1 lunch.votes) else none))
    × ((tally_poll lunch).total_votes ≡ count (λ v. ltb v.1 (length lunch.options)) lunch.votes)
tally_poll-counts_example = tally_poll-counts lunch 1

tally_poll-leaders_example : any (λ l. l == 1) (tally_poll lunch).leaders ≡ (
    ltb 0 (count (λ v. ltb v.1 (length lunch.options)) lunch.votes)
    && (ltb 1 (length lunch.options)
        && all (λ c. leb c (votes_for 1 lunch.votes)) (tally_poll lunch).counts))
tally_poll-leaders_example = tally_poll-leaders lunch 1

handle_interaction-Effect_example :
    Effect five same request ann_votes disk (handle_interaction five same request ann_votes disk)
handle_interaction-Effect_example = handle_interaction-Effect five same request ann_votes disk

abbrev named : IsNamed request
named = record { user = refl; time = refl }

handle_interaction-IsSound_example :
    IsSound five same (handle_interaction five same request ann_votes disk).1.file
unfolding is_valid_poll
handle_interaction-IsSound_example =
    handle_interaction-IsSound five same request ann_votes disk named tt refl

handle_interaction-Leaves_example :
    ((handle_interaction five same request ann_votes disk).1.file ≡ garbled)
    ⊎ ((after : List Poll) × (load five same
            (handle_interaction five same request ann_votes disk).1.file
          ≡ ok after)
        × Leaves request ann_votes "p2" ended after)
unfolding load find_poll_by_id
handle_interaction-Leaves_example =
    handle_interaction-Leaves five same request ann_votes disk polls "p2" ended named tt refl
      (refl, (refl, tt)) tt refl

abbrev outside : Creation
outside = record {
  id = "p3";
  guild_id = none;
  channel_id = "c";
  question = "tea";
  options = "green" ∷ "black" ∷ [];
}

create_without_guild_example :
    let result = handle_create five same request outside (ok "m3") disk in
    (result.0 ≡ ok created) × (load five same result.1.file ≡ ok [])
unfolding load is_valid_question is_valid_options
create_without_guild_example =
    create_without_guild five same request outside "m3" disk polls refl refl refl refl refl refl
