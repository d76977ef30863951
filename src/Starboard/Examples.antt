-- ===== src/Starboard/Examples.antt =====
-- A run of the starboard on concrete reactions.
use ido_bata_server_bot.Prelude.{
  ◌≤◌, List, [], ◌∷◌, none, some, false, ok, threw, io_failure, if◌then◌else◌, get, ◌≡◌, refl,
}
use ido_bata_server_bot.Starboard.Handler.{
  Emoji, MessageInfo, empty_board, has, star_emoji_name, matches_star_emoji, handle_reaction,
  start_run, look, finish_run, passes,
}
use ido_bata_server_bot.Starboard.Once.{
  Step, reacted, started, looked, finished, apply, run, times_reposted, times_reposted-run,
}

abbrev star : Emoji
star = record { id = none; name = some star_emoji_name }

abbrev info : MessageInfo
info = record { is_author_bot = false; is_nsfw = false }

-- Three reactions to one message, the post of the first one refused.
abbrev steps : List Step
steps =
    reacted star "m"
    ∷ reacted star "m"
    ∷ started "m"
    ∷ reacted star "m"
    ∷ looked "m" (ok (some info)) (ok 5)
    ∷ started "m"
    ∷ finished "m" (threw io_failure)
    ∷ started "m"
    ∷ looked "m" (ok (some info)) (ok 6)
    ∷ finished "m" (ok tt)
    ∷ started "m"
    ∷ []

reposts-steps : (run steps empty_board).reposts ≡ "m" ∷ []
unfolding run apply handle_reaction start_run look finish_run matches_star_emoji passes
reposts-steps = refl

times_reposted-run_example :
    (times_reposted "m" (run steps empty_board) ≤ 1)
    × (get "m" (run steps empty_board).active ≡ none
        → times_reposted "m" (run steps empty_board)
          ≡ (if has "m" (run steps empty_board).reposted_message_ids then 1 else 0))
times_reposted-run_example = times_reposted-run "m" steps
