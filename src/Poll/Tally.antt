-- ===== src/Poll/Tally.antt =====
-- What `tallyPoll` of src/features/poll/aggregate.ts counts.
use ido_bata_server_bot.Prelude.{
  ℕ, zero, suc, ◌+◌, ◌≤◌, ◌<◌, Bool, true, false, ◌&&◌, String, Option, none, some, List, [], ◌∷◌,
  ◌++◌, if◌then◌else◌, ltb, leb, ◌==◌, length, get_elem?, all, any, count, ◌≡◌, refl, arith,
  any-append, all-append,
}
use ido_bata_server_bot.Poll.State.{Poll}
use ido_bata_server_bot.Poll.Aggregate.{zeros, add_one, count_votes, sum, find_leaders, tally_poll}

-- How many users have voted for option `i`.
abbrev pub votes_for : ℕ → List (String × ℕ) → ℕ
votes_for i votes = count (λ v. v.1 == i) votes

abbrev plus : ℕ → Option ℕ → Option ℕ
plus n none = none
plus n (some c) = some (c + n)

get_elem?-add_one :
    (i j : ℕ) (counts : List ℕ)
    → get_elem? (add_one j counts) i
      ≡ (if j == i then plus 1 (get_elem? counts i) else get_elem? counts i)
get_elem?-add_one i j [] = ground arith
get_elem?-add_one zero zero (c ∷ counts) = ground arith
get_elem?-add_one zero (suc j) (c ∷ counts) = ground arith
get_elem?-add_one (suc i) zero (c ∷ counts) = ground arith
get_elem?-add_one (suc i) (suc j) (c ∷ counts) = ground (arith, get_elem?-add_one i j counts)

pub get_elem?-count_votes :
    (i : ℕ) (votes : List (String × ℕ)) (counts : List ℕ)
    → get_elem? (count_votes votes counts) i ≡ plus (votes_for i votes) (get_elem? counts i)
unfolding count_votes
get_elem?-count_votes i [] counts = ground arith
get_elem?-count_votes i ((_, j) ∷ votes) counts =
    ground (arith, get_elem?-count_votes i votes (add_one j counts), get_elem?-add_one i j counts)

get_elem?-zeros :
    (i : ℕ) (options : List String)
    → get_elem? (zeros options) i ≡ (if ltb i (length options) then some 0 else none)
get_elem?-zeros i [] = ground arith
get_elem?-zeros zero (o ∷ options) = ground arith
get_elem?-zeros (suc i) (o ∷ options) = ground (arith, get_elem?-zeros i options)

length-add_one : (j : ℕ) (counts : List ℕ) → length (add_one j counts) ≡ length counts
length-add_one j [] = refl
length-add_one zero (c ∷ counts) = refl
length-add_one (suc j) (c ∷ counts) = omega (arith, length-add_one j counts)

sum-add_one :
    (j : ℕ) (counts : List ℕ)
    → sum (add_one j counts) ≡ sum counts + (if ltb j (length counts) then 1 else 0)
sum-add_one j [] = ground arith
sum-add_one zero (c ∷ counts) = ground arith
sum-add_one (suc j) (c ∷ counts) = ground (arith, sum-add_one j counts)

pub sum-count_votes :
    (votes : List (String × ℕ)) (counts : List ℕ)
    → sum (count_votes votes counts) ≡ sum counts + count (λ v. ltb v.1 (length counts)) votes
unfolding count_votes
sum-count_votes [] counts = ground arith
sum-count_votes ((_, j) ∷ votes) counts =
    ground (
      arith,
      sum-count_votes votes (add_one j counts),
      sum-add_one j counts,
      length-add_one j counts,
    )

length-zeros : (options : List String) → length (zeros options) ≡ length options
length-zeros [] = refl
length-zeros (o ∷ options) = omega (arith, length-zeros options)

sum-zeros : (options : List String) → sum (zeros options) ≡ 0
sum-zeros [] = refl
sum-zeros (o ∷ options) = omega (arith, sum-zeros options)

-- The counts of a tally are one for each option, the number of users whose vote is for it; the total
-- is the number of users whose vote is for an option that the poll has.
pub tally_poll-counts :
    (poll : Poll) (i : ℕ)
    → (get_elem? (tally_poll poll).counts i
        ≡ (if ltb i (length poll.options) then some (votes_for i poll.votes) else none))
      × ((tally_poll poll).total_votes ≡ count (λ v. ltb v.1 (length poll.options)) poll.votes)
unfolding tally_poll
tally_poll-counts poll i = (
  ground (
    arith,
    get_elem?-count_votes i poll.votes (zeros poll.options),
    get_elem?-zeros i poll.options,
  ),
  ground (
    arith,
    sum-count_votes poll.votes (zeros poll.options),
    length-zeros poll.options,
    sum-zeros poll.options,
  ),
)

-- A position before the counts still to come stays a leader if none of them is higher.
leaders_before :
    (i index highest : ℕ) (leaders counts : List ℕ)
    → i < index
    → any (λ l. l == i) (find_leaders index (some highest) leaders counts)
      ≡ (any (λ l. l == i) leaders && all (λ c. leb c highest) counts)
unfolding find_leaders
leaders_before i index highest leaders [] h = ground arith
leaders_before i index highest leaders (c ∷ counts) h = ground (
  arith,
  leaders_before i (suc index) c (index ∷ []) counts (omega (arith, h)),
  leaders_before i (suc index) highest (leaders ++ index ∷ []) counts (omega (arith, h)),
  leaders_before i (suc index) highest leaders counts (omega (arith, h)),
  any-append (λ l. l == i) leaders (index ∷ []),
)

-- The count at `k` is as high as `highest` and as every count.
abbrev leads : Option ℕ → List ℕ → Option ℕ → Bool
leads highest counts none = false
leads none counts (some d) = all (λ c. leb c d) counts
leads (some highest) counts (some d) = leb highest d && all (λ c. leb c d) counts

not_among :
    (i index : ℕ) (leaders : List ℕ)
    → index ≤ i
    → all (λ l. ltb l index) leaders ≡ true
    → any (λ l. l == i) leaders ≡ false
not_among i index [] late h = refl
not_among i index (l ∷ leaders) late h = ground (arith, not_among i index leaders late)

not_among-suc :
    (index : ℕ) (leaders : List ℕ)
    → all (λ l. ltb l index) leaders ≡ true
    → all (λ l. ltb l (suc index)) leaders ≡ true
not_among-suc index [] h = refl
not_among-suc index (l ∷ leaders) h = ground (arith, not_among-suc index leaders)

leaders_among :
    (k i index highest : ℕ) (leaders counts : List ℕ)
    → i ≡ index + k
    → all (λ l. ltb l index) leaders ≡ true
    → any (λ l. l == i) (find_leaders index (some highest) leaders counts)
      ≡ leads (some highest) counts (get_elem? counts k)
unfolding find_leaders
leaders_among k i index highest leaders [] e h =
    ground (arith, not_among i index leaders (omega (arith, e)) h)
leaders_among zero i index highest leaders (c ∷ counts) e h = ground (
  arith,
  leaders_before i (suc index) c (index ∷ []) counts (omega (arith, e)),
  leaders_before i (suc index) highest (leaders ++ index ∷ []) counts (omega (arith, e)),
  leaders_before i (suc index) highest leaders counts (omega (arith, e)),
  any-append (λ l. l == i) leaders (index ∷ []),
  not_among i index leaders (omega (arith, e)) h,
)
leaders_among (suc k) i index highest leaders (c ∷ counts) e h = ground (
  arith,
  leaders_among k i (suc index) c (index ∷ []) counts (omega (arith, e)),
  leaders_among k i (suc index) highest (leaders ++ index ∷ []) counts (omega (arith, e)),
  leaders_among k i (suc index) highest leaders counts (omega (arith, e)),
  all-append (λ l. ltb l (suc index)) leaders (index ∷ []),
  not_among-suc index leaders h,
)

leaders_lem :
    (i : ℕ) (counts : List ℕ)
    → any (λ l. l == i) (find_leaders 0 none [] counts) ≡ leads none counts (get_elem? counts i)
unfolding find_leaders
leaders_lem i [] = ground arith
leaders_lem zero (c ∷ counts) = ground (arith, leaders_before 0 1 c (0 ∷ []) counts (omega arith))
leaders_lem (suc i) (c ∷ counts) =
    ground (arith, leaders_among i (suc i) 1 c (0 ∷ []) counts (omega arith))

-- Once a vote for an option is there, the leaders are exactly the options that no other option
-- exceeds; before that there is none.
pub tally_poll-leaders :
    (poll : Poll) (i : ℕ)
    → any (λ l. l == i) (tally_poll poll).leaders ≡ (
        ltb 0 (count (λ v. ltb v.1 (length poll.options)) poll.votes)
        && (ltb i (length poll.options)
            && all (λ c. leb c (votes_for i poll.votes)) (tally_poll poll).counts))
unfolding tally_poll
tally_poll-leaders poll i =
    ground
      (arith, tally_poll-counts poll i, leaders_lem i (count_votes poll.votes (zeros poll.options)))
