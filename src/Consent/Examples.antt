-- ===== src/Consent/Examples.antt =====
-- Runs of the consent registry, and its theorems at concrete inputs.
use ido_bata_server_bot.Prelude.{
  String, ◌≡◌, refl, true, not, some, List, [], ◌∷◌, arith, if◌then◌else◌, keep, any, count, ◌+◌,
  ok, threw, io_failure, succeeded, str_eq, All,
}
use ido_bata_server_bot.Consent.Types.{profile, has_key, scope_eq, is_valid_record}
use ido_bata_server_bot.Consent.RepositoryJson.{
  JsonRepository, load, save, upsert, remove, json_repository,
}
use ido_bata_server_bot.Consent.RepositoryJson.Laws.{stored, json_repository-IsRepository}
use ido_bata_server_bot.Consent.RepositoryJson.Durability.{restart, load-restart-save}
use ido_bata_server_bot.Consent.Service.{
  Service, allowed, no_grant, authorize, grant, new_grant, revoke, load_all,
}
use ido_bata_server_bot.Consent.Service.Answers.{
  available, is_allowed, authorize-grant, authorize-revoke, revoke_leaves_second_grant,
}
use ido_bata_server_bot.Consent.Service.Reconcile.{ReactionTarget, Fetcher, reconcile, is_from}
use ido_bata_server_bot.Consent.Service.Reconcile.Snapshot.{
  is_granted, snapshot_after, snapshot_after-grants,
}
use ido_bata_server_bot.Consent.Service.Reconcile.Soundness.{justifies, reconcile_grants_justified}
use ido_bata_server_bot.Consent.Service.Reconcile.Coherence.{reconcile_fail_closed}
use ido_bata_server_bot.Consent.Samples.{
  message, new_message, loaded, options, service, one_row, two_rows, one_row-IsReady,
  one_row-IsCoherent, two_rows-IsCoherent,
}

allowed_run :
    (authorize json_repository options "ann" profile (service one_row)).0
    ≡ allowed "v0.2.0" "t0" message
unfolding authorize load_all load json_repository has_key is_valid_record scope_eq
allowed_run = refl

load-restart-save_example :
    (load (restart (save two_rows (loaded one_row)).1)).0
    ≡ ok (if succeeded (save two_rows (loaded one_row)).0 then two_rows else one_row)
unfolding is_valid_record
load-restart-save_example = load-restart-save two_rows (loaded one_row) one_row-IsReady refl

authorize-grant_example :
    (authorize json_repository options "ann" profile
      (grant json_repository options "ann" profile new_message "t1" (service one_row)).1).0
    ≡ allowed "v0.2.0" "t1" new_message
unfolding grant upsert load json_repository has_key new_grant is_valid_record scope_eq
authorize-grant_example =
    authorize-grant json_repository-IsRepository options "ann" "ann" profile profile new_message
      "t1" (service one_row) refl one_row-IsCoherent

authorize-revoke_example :
    (authorize json_repository options "ann" profile
      (revoke json_repository "ann" profile "t1" (service one_row)).1).0
    ≡ no_grant
unfolding revoke remove load json_repository has_key scope_eq
authorize-revoke_example =
    authorize-revoke json_repository-IsRepository options "ann" "ann" profile profile "t1"
      (service one_row) one_row-IsCoherent (omega arith)

abbrev after_revoke : Service JsonRepository
after_revoke = (revoke json_repository "ann" profile "t1" (service two_rows)).1

revoke_leaves_second_grant_example :
    (count (has_key "ann" profile) (stored after_revoke.storage) + 1
      ≡ count (has_key "ann" profile) two_rows)
    × (is_allowed (authorize json_repository options "ann" profile after_revoke).0
        ≡ available json_repository after_revoke)
unfolding has_key scope_eq revoke remove json_repository
revoke_leaves_second_grant_example =
    revoke_leaves_second_grant json_repository-IsRepository options "ann" profile "t1"
      (service two_rows) two_rows-IsCoherent (omega arith) refl refl

snapshot_after-grants_example :
    (any
        (is_granted new_message "ann")
        (snapshot_after options profile new_message "t1" ("ann" ∷ []) one_row)
      ≡ true)
    × (keep
          (λ r. not (is_from new_message r))
          (snapshot_after options profile new_message "t1" ("ann" ∷ []) one_row)
        ≡ one_row)
unfolding is_from
snapshot_after-grants_example =
    snapshot_after-grants options profile new_message "t1" ("ann" ∷ []) one_row "ann"

-- Two users and the bot reacted on the new message; the old one cannot be fetched.
abbrev fetch : Fetcher
fetch t = if str_eq t.message_id "m2" then ok ("ann" ∷ "bot" ∷ "bob" ∷ []) else threw io_failure

abbrev now : ReactionTarget → String
now t = "t1"

abbrev targets : List ReactionTarget
targets = message ∷ new_message ∷ []

reconcile_grants_justified_example :
    All
      (λ g. any (justifies options fetch g) targets ≡ true)
      (reconcile json_repository options (some fetch) now targets (service [])).0.applied_grants
reconcile_grants_justified_example =
    reconcile_grants_justified json_repository options fetch now targets (service [])

reconcile_fail_closed_example :
    (reconcile json_repository options
      (some (λ t. threw io_failure))
      now
      targets
      (service one_row)).1
    ≡ (load_all json_repository (service one_row)).1
reconcile_fail_closed_example =
    (reconcile_fail_closed json_repository options (λ t. threw io_failure) now targets
      (service one_row) (λ t. refl)).2
