-- ===== src/Poll/Handler/Stored.antt =====
-- What the changes of src/features/poll/handler.ts mean for the polls that are stored.
use ido_bata_server_bot.Prelude.{
  ℕ, Bool, true, false, String, none, some, List, [], ◌∷◌, if◌then◌else◌, str_eq, ok, ℤ, pos,
  negsuc, ◌≡◌, refl, arith, get, eq_iff, str_eq_refl, all, get-put, get-delete, put,
}
use ido_bata_server_bot.Poll.State.{
  Poll, find_poll_by_id, find_poll_by_message_id, upsert_poll, is_empty,
}
use ido_bata_server_bot.Poll.Aggregate.{Vote, apply_vote, clear_vote}
use ido_bata_server_bot.Poll.Handler.{Request, guild_or_empty, Command, create, clear}

-- A stored poll is found under its id, whatever was stored there before.
pub find_poll_by_id-upsert_poll :
    (id : String) (q : Poll) (polls : List Poll)
    → find_poll_by_id id (upsert_poll q polls)
      ≡ (if str_eq q.id id then some q else find_poll_by_id id polls)
unfolding find_poll_by_id upsert_poll
find_poll_by_id-upsert_poll id q [] = ground arith
find_poll_by_id-upsert_poll id q (p ∷ polls) = ground (
  arith,
  find_poll_by_id-upsert_poll id q polls,
  eq_iff p.id q.id,
  eq_iff q.id id,
  eq_iff p.id id,
)

pub all-upsert_poll :
    (test : Poll → Bool) (q : Poll) (polls : List Poll)
    → test q ≡ true
    → all test polls ≡ true
    → all test (upsert_poll q polls) ≡ true
unfolding upsert_poll
all-upsert_poll test q [] t h = ground arith
all-upsert_poll test q (p ∷ polls) t h = ground (arith, all-upsert_poll test q polls t)

pub all-find_poll_by_id :
    (test : Poll → Bool) (id : String) (p : Poll) (polls : List Poll)
    → all test polls ≡ true
    → find_poll_by_id id polls ≡ some p
    → test p ≡ true
unfolding find_poll_by_id
all-find_poll_by_id test id p [] t h = cc
all-find_poll_by_id test id p (x ∷ polls) t h = ground (arith, all-find_poll_by_id test id p polls)

pub all-find_poll_by_message_id :
    (test : Poll → Bool) (id : String) (p : Poll) (polls : List Poll)
    → all test polls ≡ true
    → find_poll_by_message_id id polls ≡ some p
    → test p ≡ true
unfolding find_poll_by_message_id
all-find_poll_by_message_id test id p [] t h = cc
all-find_poll_by_message_id test id p (x ∷ polls) t h =
    ground (arith, all-find_poll_by_message_id test id p polls)

pub all-put :
    (test : String × ℕ → Bool) (user : String) (i : ℕ) (votes : List (String × ℕ))
    → ((u : String) → test (u, i) ≡ true)
    → all test votes ≡ true
    → all test (put user i votes) ≡ true
all-put test user i [] t h = ground (arith, t user)
all-put test user i ((u, k) ∷ votes) t h = ground (arith, all-put test user i votes t, t u)

-- What the schema asks of a new poll and of a request beyond its question and options.
pub record IsNamed (request : Request) : Type 0 where
  pub user : is_empty request.user_id ≡ false
  pub time : is_empty request.now ≡ false

abbrev pub IsComplete : Command → Type 0
IsComplete (create creation (ok message_id)) =
    (is_empty creation.id ≡ false)
    × (is_empty (guild_or_empty creation.guild_id) ≡ false)
    × (is_empty creation.channel_id ≡ false)
    × (is_empty message_id ≡ false)
IsComplete _ = Unit

abbrev is_clear : Command → Bool
is_clear (clear _ _) = true
is_clear _ = false

-- What a request leaves of a poll that was stored: what it asks, the votes of all other users, and
-- everything if it was closed and the request does not take a vote back.
pub record IsKept (request : Request) (command : Command) (before after : Poll) : Type 0 where
  pub question : after.question ≡ before.question
  pub options : after.options ≡ before.options
  pub creator : after.creator_id ≡ before.creator_id
  pub others :
      (user : String)
      → str_eq request.user_id user ≡ false
      → get user after.votes ≡ get user before.votes
  pub frozen : before.closed ≡ true → is_clear command ≡ false → after ≡ before

-- A new poll has an id that no stored poll has, and no two stored polls have the same.
abbrev pub IsFresh : Command → List Poll → Type 0
IsFresh (create creation _) polls = find_poll_by_id creation.id polls ≡ none
IsFresh _ polls = Unit

abbrev pub AreDistinct : List Poll → Type 0
AreDistinct [] = Unit
AreDistinct (p ∷ polls) = (find_poll_by_id p.id polls ≡ none) × AreDistinct polls

pub find_by_id_of_message :
    (message_id : String) (p : Poll) (polls : List Poll)
    → AreDistinct polls
    → find_poll_by_message_id message_id polls ≡ some p
    → find_poll_by_id p.id polls ≡ some p
unfolding find_poll_by_id find_poll_by_message_id
find_by_id_of_message message_id p [] d h = cc
find_by_id_of_message message_id p (x ∷ polls) d h = ground (
  arith,
  find_by_id_of_message message_id p polls d.1,
  d.0,
  eq_iff x.id p.id,
  str_eq_refl p.id,
  h,
)

pub find_poll_by_id-id :
    (id : String) (p : Poll) (polls : List Poll)
    → find_poll_by_id id polls ≡ some p
    → str_eq p.id id ≡ true
unfolding find_poll_by_id
find_poll_by_id-id id p [] h = cc
find_poll_by_id-id id p (x ∷ polls) h = ground (arith, find_poll_by_id-id id p polls)

pub IsKept-refl : (request : Request) (command : Command) (p : Poll) → IsKept request command p p
IsKept-refl request command p = record {
  question = refl;
  options = refl;
  creator = refl;
  others = λ user h. refl;
  frozen = λ c d. refl;
}

pub voted-id :
    (p : Poll) (user : String) (option : ℤ) (cast : Vote)
    → apply_vote p user option ≡ ok cast
    → cast.next.id ≡ p.id
unfolding apply_vote
voted-id p user (pos i) cast h = ground arith
voted-id p user (negsuc i) cast h = ground arith

pub voted-IsKept :
    (request : Request) (command : Command) (p : Poll) (option : ℤ) (cast : Vote)
    → p.closed ≡ false
    → apply_vote p request.user_id option ≡ ok cast
    → IsKept request command p cast.next
unfolding apply_vote
voted-IsKept request command p (negsuc i) cast o h = cc
voted-IsKept request command p (pos i) cast o h = record {
  question = ground arith;
  options = ground arith;
  creator = ground arith;
  others = λ user d. ground (arith, get-put request.user_id user i p.votes);
  frozen = λ c d. cc;
}

pub unvoted-id : (p next : Poll) (user : String) → clear_vote p user ≡ (next, true) → next.id ≡ p.id
unfolding clear_vote
unvoted-id p next user h = ground arith

pub unvoted-IsKept :
    (request : Request) (command : Command) (p next : Poll)
    → is_clear command ≡ true
    → clear_vote p request.user_id ≡ (next, true)
    → IsKept request command p next
unfolding clear_vote
unvoted-IsKept request command p next k h = record {
  question = ground arith;
  options = ground arith;
  creator = ground arith;
  others = λ user d. ground (arith, get-delete request.user_id user p.votes);
  frozen = λ c d. cc;
}
