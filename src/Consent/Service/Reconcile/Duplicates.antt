-- ===== src/Consent/Service/Reconcile/Duplicates.antt =====
-- `reconcile` and rows with one subject and scope that came from different messages.
use ido_bata_server_bot.Prelude.{
  ◌≤◌, String, ◌≡◌, refl, ◌∙◌, Bool, true, false, not, ◌&&◌, List, [], ◌∷◌, ◌++◌, arith, eq_iff,
  keep, any, count, count-append,
}
use ido_bata_server_bot.Consent.Types.{ConsentScope, ConsentRecord, has_key_iff}
use ido_bata_server_bot.Consent.Repository.Rows.{grants}
use ido_bata_server_bot.Consent.Service.{Options}
use ido_bata_server_bot.Consent.Service.Reconcile.{
  ReactionTarget, is_from, fresh_record, visit_reactors, active_from, revoked_records,
  next_snapshot,
}
use ido_bata_server_bot.Consent.Service.Reconcile.Snapshot.{
  not_from, snapshot_after, is_granted, reacted, pass_of,
}
use ido_bata_server_bot.Consent.Service.Reconcile.Events.{is_of, existing_iff, active_iff}

-- The user has an active grant for the scope that came from another message.
abbrev pub granted_elsewhere : ReactionTarget → String → ConsentScope → ConsentRecord → Bool
granted_elsewhere t user scope r = grants user scope r && not (is_from t r)

count_elsewhere :
    (t : ReactionTarget) (user : String) (scope : ConsentScope) (rs : List ConsentRecord)
    → count (grants user scope) (keep (not_from t) rs) ≡ count (granted_elsewhere t user scope) rs
count_elsewhere t user scope [] = refl
count_elsewhere t user scope (x ∷ xs) = ground (arith, count_elsewhere t user scope xs)

module _ (options : Options) (scope : ConsentScope) (t : ReactionTarget) (at : String) where
  fresh_grants : (user : String) → grants user scope (fresh_record options scope t at user) ≡ true
  unfolding fresh_record
  fresh_grants user = ground (arith, has_key_iff user scope (fresh_record options scope t at user))

  count_fresh :
      (user : String) (active : List ConsentRecord) (reactors : List String)
      → reacted options user reactors ≡ true
      → any (is_of user) active ≡ false
      → 1 ≤ count (grants user scope) (pass_of options scope t at active reactors).new_records
  unfolding visit_reactors
  count_fresh user active [] h new = cc
  count_fresh user active (u ∷ us) h new = ground (
    arith,
    fresh_grants u,
    existing_iff user active,
    eq_iff u user,
    eq_iff u options.bot_user_id,
    eq_iff user options.bot_user_id,
    count_fresh user active us,
  )

-- A user who granted a scope on another message and reacts on this one, from which no active grant
-- came yet, has two active rows with the scope in the snapshot that the pass saves.
pub snapshot_after_duplicates :
    (options : Options) (scope : ConsentScope) (t : ReactionTarget) (at : String)
    (reactors : List String) (snapshot : List ConsentRecord) (user : String)
    → reacted options user reactors ≡ true
    → any (is_granted t user) snapshot ≡ false
    → 1 ≤ count (granted_elsewhere t user scope) snapshot
    → 2 ≤ count (grants user scope) (snapshot_after options scope t at reactors snapshot)
unfolding next_snapshot
snapshot_after_duplicates options scope t at reactors snapshot user h new elsewhere =
    let active = keep (active_from t) snapshot in
    let pass = pass_of options scope t at active reactors in
    omega (
      arith,
      count-append (grants user scope) (keep (not_from t) snapshot)
          (pass.new_records ++ revoked_records at pass.granted_now active),
      count-append (grants user scope) pass.new_records
          (revoked_records at pass.granted_now active),
      count_elsewhere t user scope snapshot,
      count_fresh options scope t at user active reactors h (active_iff t user snapshot ∙ new),
    )
