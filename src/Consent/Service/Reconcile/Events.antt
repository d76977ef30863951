-- ===== src/Consent/Service/Reconcile/Events.antt =====
-- What a pass of `reconcile` reports, and what it does to the history of revoked rows.
use ido_bata_server_bot.Prelude.{
  String, ◌≡◌, refl, ap, Bool, false, not, ◌&&◌, none, some, List, [], ◌∷◌, ◌++◌, arith, str_eq,
  eq_iff, keep, any, any-append, All, is_none,
}
use ido_bata_server_bot.Consent.Types.{ConsentScope, ConsentRecord}
use ido_bata_server_bot.Consent.Service.{Options}
use ido_bata_server_bot.Consent.Service.Reconcile.{
  ReactionTarget, is_from, active_from, existing_record, visit_reactors, revoked_records,
  new_revokes, next_snapshot, Pass,
}
use ido_bata_server_bot.Consent.Service.Reconcile.Snapshot.{
  is_granted, reacted, IsFromTarget, active_rows, granted_now_lem, new_records-IsFromTarget,
  pass_of, snapshot_after, active_now, not_from,
}

abbrev names : String → String × ConsentScope → Bool
names user entry = str_eq entry.0 user

abbrev pub is_of : String → ConsentRecord → Bool
is_of user r = str_eq r.subject_id user

pub existing_iff :
    (user : String) (active : List ConsentRecord)
    → is_none (existing_record user active) ≡ not (any (is_of user) active)
unfolding existing_record
existing_iff user [] = refl
existing_iff user (x ∷ xs) = ground (arith, existing_iff user xs)

pub active_iff :
    (t : ReactionTarget) (user : String) (rs : List ConsentRecord)
    → any (is_of user) (keep (active_from t) rs) ≡ any (is_granted t user) rs
active_iff t user [] = refl
active_iff t user (x ∷ xs) = ground (arith, active_iff t user xs)

new_grants_lem :
    (options : Options) (scope : ConsentScope) (t : ReactionTarget) (at user : String)
    (active : List ConsentRecord) (reactors : List String)
    → any (names user) (visit_reactors options scope t at active reactors).new_grants
      ≡ (reacted options user reactors && is_none (existing_record user active))
unfolding visit_reactors
new_grants_lem options scope t at user active [] = refl
new_grants_lem options scope t at user active (u ∷ us) = ground (
  arith,
  new_grants_lem options scope t at user active us,
  eq_iff u user,
  eq_iff u options.bot_user_id,
  eq_iff user options.bot_user_id,
)

was_granted_eq :
    (granted_now : List String) (subject user : String)
    → subject ≡ user
    → any (λ u. str_eq u subject) granted_now ≡ any (λ u. str_eq u user) granted_now
was_granted_eq granted_now subject user e = ap (λ s. any (λ u. str_eq u s) granted_now) e

new_revokes_lem :
    (granted_now : List String) (user : String) (active : List ConsentRecord)
    → any (names user) (new_revokes granted_now active)
      ≡ (any (is_of user) active && not (any (λ u. str_eq u user) granted_now))
unfolding new_revokes
new_revokes_lem granted_now user [] = refl
new_revokes_lem granted_now user (x ∷ xs) = ground (
  arith,
  new_revokes_lem granted_now user xs,
  eq_iff x.subject_id user,
  was_granted_eq granted_now x.subject_id user,
)

-- A revocation of another time than this pass's.
abbrev revoked_other : String → ConsentRecord → Bool
revoked_other at r = elim r.revoked_at [ none ↦ false | some when ↦ not (str_eq when at) ]

-- An earlier revocation that came from the target.
abbrev pub earlier_revocation : ReactionTarget → String → ConsentRecord → Bool
earlier_revocation t at r = is_from t r && revoked_other at r

module _ (t : ReactionTarget) (at : String) where
  kept_history :
      (rs : List ConsentRecord) → any (earlier_revocation t at) (keep (not_from t) rs) ≡ false
  kept_history [] = refl
  kept_history (x ∷ xs) = ground (arith, kept_history xs)

  active_history :
      (rs : List ConsentRecord) → All (IsFromTarget t) rs → any (earlier_revocation t at) rs ≡ false
  active_history [] h = refl
  active_history (x ∷ xs) h = ground (arith, active_history xs h.1)

  revoked_history :
      (granted_now : List String) (rs : List ConsentRecord)
      → any (earlier_revocation t at) (revoked_records at granted_now rs) ≡ false
  unfolding revoked_records
  revoked_history granted_now [] = refl
  revoked_history granted_now (x ∷ xs) =
      ground (arith, revoked_history granted_now xs, eq_iff at at)

module _ (options : Options) (scope : ConsentScope) (t : ReactionTarget) (at : String)
    (reactors : List String) (snapshot : List ConsentRecord) where
  abbrev pass : Pass
  pass = pass_of options scope t at (active_now options scope t at reactors snapshot) reactors

  -- The pass reports a grant for a user exactly when the user reacted, is not the bot and had no
  -- active grant from the target before; it reports a revocation exactly when the user had one and
  -- did not react.
  pub reported_changes :
      (user : String)
      → (any (λ g. str_eq g.0 user) pass.new_grants
          ≡ (reacted options user reactors && not (any (is_granted t user) snapshot)))
        × (any (λ g. str_eq g.0 user) (new_revokes pass.granted_now (keep (active_from t) snapshot))
            ≡ (any (is_granted t user) snapshot && not (reacted options user reactors)))
  reported_changes user =
      let active = keep (active_from t) snapshot in
      (
        ground (
          arith,
          new_grants_lem options scope t at user active reactors,
          existing_iff user active,
          active_iff t user snapshot,
        ),
        ground (
          arith,
          new_revokes_lem pass.granted_now user active,
          granted_now_lem options scope t at active reactors user,
          active_iff t user snapshot,
        ),
      )

  -- No revocation of an earlier time that came from the target is left in the snapshot that the
  -- pass saves, whatever the snapshot held before.
  pub snapshot_after_forgets :
      any (earlier_revocation t at) (snapshot_after options scope t at reactors snapshot) ≡ false
  unfolding next_snapshot
  snapshot_after_forgets =
      let active = keep (active_from t) snapshot in
      ground (
        arith,
        any-append (earlier_revocation t at) (keep (not_from t) snapshot)
            (pass.new_records ++ revoked_records at pass.granted_now active),
        any-append (earlier_revocation t at) pass.new_records
            (revoked_records at pass.granted_now active),
        kept_history t at snapshot,
        active_history t at pass.new_records
            (new_records-IsFromTarget options scope t at active reactors (active_rows t snapshot)),
        revoked_history t at pass.granted_now active,
      )
