-- ===== src/Poll/Aggregate.antt =====
-- src/features/poll/aggregate.ts: counting and changing votes.
use ido_bata_server_bot.Prelude.{
  ℕ, zero, suc, ◌+◌, ◌*◌, ◌/◌, Bool, true, false, not, String, Option, none, some, List, [], ◌∷◌,
  ◌++◌, if◌then◌else◌, ltb, leb, ◌==◌, length, get, put, delete, Outcome, ok, threw, refused, ℤ,
  pos, negsuc, is_none,
}
use ido_bata_server_bot.Poll.State.{Poll}

pub record PollTally : Type 0 where
  pub counts : List ℕ
  pub total_votes : ℕ
  pub leaders : List ℕ

-- `new Array(n).fill(0)`
abbrev pub zeros : List String → List ℕ
zeros [] = []
zeros (_ ∷ options) = 0 ∷ zeros options

-- `counts[optionIndex]` is raised if it is there.
abbrev pub add_one : ℕ → List ℕ → List ℕ
add_one i [] = []
add_one zero (c ∷ counts) = suc c ∷ counts
add_one (suc i) (c ∷ counts) = c ∷ add_one i counts

unfoldable pub count_votes : List (String × ℕ) → List ℕ → List ℕ
count_votes [] counts = counts
count_votes ((_, i) ∷ votes) counts = count_votes votes (add_one i counts)

abbrev pub sum : List ℕ → ℕ
sum [] = 0
sum (c ∷ counts) = c + sum counts

-- The loop for the leaders at position `index`; `highest` starts as `-Infinity`: `none`.
unfoldable pub find_leaders : ℕ → Option ℕ → List ℕ → List ℕ → List ℕ
find_leaders index highest leaders [] = leaders
find_leaders index none leaders (c ∷ counts) = find_leaders (suc index) (some c) (index ∷ []) counts
find_leaders index (some highest) leaders (c ∷ counts) =
    if ltb highest c
    then find_leaders (suc index) (some c) (index ∷ []) counts
    else if c == highest
    then find_leaders (suc index) (some highest) (leaders ++ index ∷ []) counts
    else find_leaders (suc index) (some highest) leaders counts

unfoldable pub tally_poll : Poll → PollTally
unfolding count_votes find_leaders
tally_poll poll =
    let counts = count_votes poll.votes (zeros poll.options) in
    record {
      counts = counts;
      total_votes = sum counts;
      leaders = if ltb 0 (sum counts) then find_leaders 0 none [] counts else [];
    }

-- `percentage`, in tenths of a percent: `Math.round` rounds half up, and the quotient is exact here,
-- a floating-point number in the source.
unfoldable pub tenths_of : ℕ → ℕ → ℕ
tenths_of count total = if total == 0 then 0 else (2 * (count * 1000) + total) / (2 * total)

pub record PollTallyRow : Type 0 where
  pub index : ℕ
  pub label : String
  pub count : ℕ
  pub tenths : ℕ

abbrev rows_from : ℕ → ℕ → List String → List ℕ → List PollTallyRow
rows_from index total [] counts = []
rows_from index total (label ∷ options) [] =
    record { index = index; label = label; count = 0; tenths = 0 }
    ∷ rows_from (suc index) total options []
rows_from index total (label ∷ options) (c ∷ counts) =
    record { index = index; label = label; count = c; tenths = tenths_of c total }
    ∷ rows_from (suc index) total options counts

unfoldable pub build_tally_rows : Poll → List PollTallyRow
unfolding tally_poll
build_tally_rows poll =
    let tally = tally_poll poll in rows_from 0 tally.total_votes poll.options tally.counts

pub record Vote : Type 0 where
  pub next : Poll
  pub previous_option : Option ℕ
  pub changed : Bool

abbrev has_changed : Option ℕ → ℕ → Bool
has_changed none i = false
has_changed (some previous) i = not (previous == i)

abbrev vote_in_range : Poll → String → ℕ → Outcome Vote
vote_in_range poll user i =
    if leb (length poll.options) i
    then threw refused
    else ok (record {
      next = record poll { votes = put user i poll.votes };
      previous_option = get user poll.votes;
      changed = has_changed (get user poll.votes) i;
    })

unfoldable pub apply_vote : Poll → String → ℤ → Outcome Vote
apply_vote poll user (negsuc _) = threw refused
apply_vote poll user (pos i) = vote_in_range poll user i

-- The poll, and whether the user had a vote.
unfoldable pub clear_vote : Poll → String → Poll × Bool
clear_vote poll user =
    if is_none (get user poll.votes)
    then (poll, false)
    else (record poll { votes = delete user poll.votes }, true)
