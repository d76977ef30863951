-- ===== src/Starboard/Once.antt =====
-- How often src/features/starboard/handler.ts posts a message.
use ido_bata_server_bot.Prelude.{
  ℕ, ◌≤◌, Bool, true, false, not, ◌&&◌, String, Option, none, some, List, [], ◌∷◌, if◌then◌else◌,
  str_eq, eq_iff, ◌==◌, keep, count, get, get-put, get-delete, any-append, count-append, Outcome,
  ok, threw, Done, ◌≡◌, refl, arith,
}
use ido_bata_server_bot.Starboard.Handler.{
  Emoji, MessageInfo, Stage, looking, sending, Board, empty_board, has, handle_reaction, start_run,
  look, finish_run,
}

pub data Step : Type 0 where
  reacted : Emoji → String → Step
  started : String → Step
  looked : String → Outcome (Option MessageInfo) → Outcome ℕ → Step
  finished : String → Done → Step

unfoldable pub apply : Step → Board → Board
apply (reacted emoji id) board = handle_reaction emoji id board
apply (started id) board = start_run id board
apply (looked id info stars) board = look id info stars board
apply (finished id sent) board = finish_run id sent board

unfoldable pub run : List Step → Board → Board
unfolding apply
run [] board = board
run (s ∷ ss) board = run ss (apply s board)

abbrev pub times_reposted : String → Board → ℕ
times_reposted id board = count (λ i. str_eq i id) board.reposts

-- A run that looks has no claim and no post before it, one that sends has the claim and no post
-- before it; with no run under way the claim is there exactly when the post is, once.
abbrev is_once : Option Stage → Bool → ℕ → Bool
is_once none claimed times = times == (if claimed then 1 else 0)
is_once (some looking) claimed times = not claimed && (times == 0)
is_once (some sending) claimed times = claimed && (times == 0)

abbrev IsOnce : String → Board → Type 0
IsOnce id board =
    is_once (get id board.active) (has id board.reposted_message_ids) (times_reposted id board)
    ≡ true

has-keep :
    (id other : String) (ids : List String)
    → has id (keep (λ i. not (str_eq i other)) ids)
      ≡ (if str_eq other id then false else has id ids)
has-keep id other [] = ground arith
has-keep id other (i ∷ ids) =
    ground (arith, has-keep id other ids, eq_iff i other, eq_iff i id, eq_iff other id)

apply-IsOnce :
    (id : String) (s : Step) (board : Board) → IsOnce id board → IsOnce id (apply s board)
unfolding apply handle_reaction start_run look finish_run
apply-IsOnce id (reacted emoji other) board h = ground (arith, h)
apply-IsOnce id (started other) board h =
    ground (arith, h, get-put other id looking board.active, eq_iff other id)
apply-IsOnce id (looked other info stars) board h = ground (
  arith,
  h,
  get-put other id sending board.active,
  get-delete other id board.active,
  any-append (λ i. str_eq i id) board.reposted_message_ids (other ∷ []),
  eq_iff other id,
)
apply-IsOnce id (finished other (ok _)) board h = ground (
  arith,
  h,
  get-delete other id board.active,
  count-append (λ i. str_eq i id) board.reposts (other ∷ []),
  eq_iff other id,
)
apply-IsOnce id (finished other (threw _)) board h = ground (
  arith,
  h,
  get-delete other id board.active,
  has-keep id other board.reposted_message_ids,
  eq_iff other id,
)

run-IsOnce :
    (id : String) (ss : List Step) (board : Board) → IsOnce id board → IsOnce id (run ss board)
unfolding run
run-IsOnce id [] board h = h
run-IsOnce id (s ∷ ss) board h = run-IsOnce id ss (apply s board) (apply-IsOnce id s board h)

-- However the steps of the runs come after one another and whatever Discord answers, no message is
-- posted twice; and while no run of a message is under way, the message is claimed exactly when it
-- was posted.
pub times_reposted-run :
    (id : String) (ss : List Step)
    → (times_reposted id (run ss empty_board) ≤ 1)
      × (get id (run ss empty_board).active ≡ none
          → times_reposted id (run ss empty_board)
            ≡ (if has id (run ss empty_board).reposted_message_ids then 1 else 0))
times_reposted-run id ss = (
  ground (arith, run-IsOnce id ss empty_board refl),
  λ idle. ground (arith, run-IsOnce id ss empty_board refl, idle),
)
