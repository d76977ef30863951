-- ===== src/Poll/Votes.antt =====
-- What `applyVote` and `clearVote` of src/features/poll/aggregate.ts change.
use ido_bata_server_bot.Prelude.{
  ℕ, ◌+◌, ◌≤◌, true, not, String, Option, none, some, List, [], ◌∷◌, if◌then◌else◌, ltb, ◌==◌,
  length, ◌≡◌, refl, arith, is_none, get, put, delete, get-put, get-delete, ok, threw, refused, pos,
  negsuc, str_eq, eq_iff, str_eq_refl,
}
use ido_bata_server_bot.Poll.State.{Poll}
use ido_bata_server_bot.Poll.Aggregate.{Vote, apply_vote, clear_vote}
use ido_bata_server_bot.Poll.Tally.{votes_for}

-- One if the value is `i`.
abbrev pub one_if : ℕ → Option ℕ → ℕ
one_if i none = 0
one_if i (some j) = if j == i then 1 else 0

-- A key stands once.
abbrev pub AreKeys : List (String × ℕ) → Type 0
AreKeys [] = Unit
AreKeys ((k, _) ∷ m) = (get k m ≡ none) × AreKeys m

votes_for-put :
    (user : String) (i j : ℕ) (votes : List (String × ℕ))
    → votes_for i (put user j votes) + one_if i (get user votes)
      ≡ votes_for i votes + one_if i (some j)
votes_for-put user i j [] = ground arith
votes_for-put user i j ((u, k) ∷ votes) = ground (arith, votes_for-put user i j votes)

delete_absent :
    (user : String) (votes : List (String × ℕ)) → get user votes ≡ none → delete user votes ≡ votes
delete_absent user [] h = refl
delete_absent user ((u, k) ∷ votes) h = ground (arith, delete_absent user votes)

delete-put :
    (user : String) (i : ℕ) (votes : List (String × ℕ))
    → get user votes ≡ none
    → delete user (put user i votes) ≡ votes
delete-put user i [] h = ground (arith, str_eq_refl user)
delete-put user i ((u, k) ∷ votes) h = ground (arith, delete-put user i votes)

votes_for-delete :
    (user : String) (i : ℕ) (votes : List (String × ℕ))
    → AreKeys votes
    → votes_for i (delete user votes) + one_if i (get user votes) ≡ votes_for i votes
votes_for-delete user i [] h = ground arith
votes_for-delete user i ((u, k) ∷ votes) h =
    ground (arith, votes_for-delete user i votes h.1, eq_iff u user, delete_absent u votes h.0, h.0)

put-AreKeys :
    (user : String) (i : ℕ) (votes : List (String × ℕ)) → AreKeys votes → AreKeys (put user i votes)
put-AreKeys user i [] h = (refl, tt)
put-AreKeys user i ((u, k) ∷ votes) h =
    ground
      (arith, put-AreKeys user i votes h.1, get-put user u i votes, eq_iff u user, eq_iff user u, h)

delete-AreKeys :
    (user : String) (votes : List (String × ℕ)) → AreKeys votes → AreKeys (delete user votes)
delete-AreKeys user [] h = tt
delete-AreKeys user ((u, k) ∷ votes) h =
    ground (arith, delete-AreKeys user votes h.1, get-delete user u votes, h)

-- A vote outside the options throws. One inside is the user's only vote: it takes the place of the
-- user's earlier vote, raises the count of its option, lowers that of the earlier one, and leaves
-- every other user's vote as it was.
pub apply_vote-votes :
    (poll : Poll) (user other : String) (i j : ℕ) (vote : Vote)
    → apply_vote poll user (pos i) ≡ ok vote
    → (ltb i (length poll.options) ≡ true)
      × (get other vote.next.votes ≡ (if str_eq user other then some i else get other poll.votes))
      × (votes_for j vote.next.votes + one_if j (get user poll.votes)
          ≡ votes_for j poll.votes + one_if j (some i))
unfolding apply_vote
apply_vote-votes poll user other i j vote h =
    ground (arith, get-put user other i poll.votes, votes_for-put user j i poll.votes)

-- A vote is refused exactly when its option is not one of the poll's.
pub apply_vote_refuses :
    (poll : Poll) (user : String)
    → ((n : ℕ) → apply_vote poll user (negsuc n) ≡ threw refused)
      × ((i : ℕ) → length poll.options ≤ i → apply_vote poll user (pos i) ≡ threw refused)
unfolding apply_vote
apply_vote_refuses poll user = ((λ n. refl), (λ i h. ground arith))

-- A user's first vote, cleared again, leaves the poll as it was.
pub clear_vote-apply_vote :
    (poll : Poll) (user : String) (i : ℕ) (vote : Vote)
    → apply_vote poll user (pos i) ≡ ok vote
    → get user poll.votes ≡ none
    → clear_vote vote.next user ≡ (poll, true)
unfolding apply_vote clear_vote
clear_vote-apply_vote poll user i vote h absent =
    ground
      (arith, get-put user user i poll.votes, str_eq_refl user, delete-put user i poll.votes absent)

-- A cleared vote lowers the count of its option by one and changes no other user's vote; the answer
-- says whether there was a vote.
pub clear_vote-votes :
    (poll : Poll) (user other : String) (j : ℕ)
    → AreKeys poll.votes
    → (get other (clear_vote poll user).0.votes
        ≡ (if str_eq user other then none else get other poll.votes))
      × (votes_for j (clear_vote poll user).0.votes + one_if j (get user poll.votes)
          ≡ votes_for j poll.votes)
      × ((clear_vote poll user).1 ≡ not (is_none (get user poll.votes)))
unfolding clear_vote
clear_vote-votes poll user other j h = ground (
  arith,
  get-delete user other poll.votes,
  eq_iff user other,
  votes_for-delete user j poll.votes h,
)
