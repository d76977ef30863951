-- ===== src/Consent/Service/Reconcile/Snapshot.antt =====
-- What one target's pass of `reconcile` makes of the snapshot.
use ido_bata_server_bot.Prelude.{
  append-nil, String, ◌≡◌, refl, inl, inr, Bool, true, false, not, ◌&&◌, some, List, [], ◌∷◌, ◌++◌,
  arith, str_eq, eq_iff, keep, any, any-append, keep-append, keep-keep, All, Option-cases,
}
use ido_bata_server_bot.Consent.Types.{ConsentScope, ConsentRecord}
use ido_bata_server_bot.Consent.Service.{Options}
use ido_bata_server_bot.Consent.Service.Reconcile.{
  ReactionTarget, is_from, active_from, existing_record, fresh_record, visit_reactors,
  revoked_records, next_snapshot, Pass,
}

-- The user has an active row that came from the target.
abbrev pub is_granted : ReactionTarget → String → ConsentRecord → Bool
is_granted t user r = active_from t r && str_eq r.subject_id user

-- The user reacted, and is not the bot.
abbrev pub reacted : Options → String → List String → Bool
reacted options user reactors =
    any (λ u. str_eq u user) reactors && not (str_eq user options.bot_user_id)

abbrev pub IsFromTarget : ReactionTarget → ConsentRecord → Type 0
IsFromTarget t r = active_from t r ≡ true

is_from_self : (t : ReactionTarget) (r : ConsentRecord) → r.source ≡ t → is_from t r ≡ true
unfolding is_from
is_from_self t r e = rw e (
    ground (
      arith,
      eq_iff t.guild_id t.guild_id,
      eq_iff t.channel_id t.channel_id,
      eq_iff t.message_id t.message_id,
      eq_iff t.emoji t.emoji,
    ))

pub existing_record_lem :
    (t : ReactionTarget) (user : String) (active : List ConsentRecord) (r : ConsentRecord)
    → All (IsFromTarget t) active
    → existing_record user active ≡ some r
    → (active_from t r ≡ true) × (r.subject_id ≡ user)
unfolding existing_record
existing_record_lem t user [] r h e = cc
existing_record_lem t user (x ∷ xs) r h e =
    ground (arith, existing_record_lem t user xs r h.1, eq_iff x.subject_id user)

pub active_rows :
    (t : ReactionTarget) (rs : List ConsentRecord) → All (IsFromTarget t) (keep (active_from t) rs)
active_rows t [] = tt
active_rows t (x ∷ xs) = ground (arith, active_rows t xs)

module _ (options : Options) (scope : ConsentScope) (t : ReactionTarget) (at : String) where
  abbrev pub pass_of : List ConsentRecord → List String → Pass
  pass_of = visit_reactors options scope t at

  pub fresh_from :
      (user : String)
      → (active_from t (fresh_record options scope t at user) ≡ true)
        × ((fresh_record options scope t at user).subject_id ≡ user)
  unfolding fresh_record
  fresh_from user =
      (ground (arith, is_from_self t (fresh_record options scope t at user) refl), refl)

  pub new_records-IsFromTarget :
      (active : List ConsentRecord) (reactors : List String)
      → All (IsFromTarget t) active
      → All (IsFromTarget t) (pass_of active reactors).new_records
  unfolding visit_reactors
  new_records-IsFromTarget active [] h = tt
  new_records-IsFromTarget active (u ∷ us) h = elim (Option-cases (existing_record u active)) [
    | inl e ↦ ground (arith, e, fresh_from u, new_records-IsFromTarget active us h)
    | inr (r, e) ↦
        ground
          (arith, e, existing_record_lem t u active r h e, new_records-IsFromTarget active us h)
  ]

  pub granted_now_lem :
      (active : List ConsentRecord) (reactors : List String) (user : String)
      → any (λ u. str_eq u user) (pass_of active reactors).granted_now
        ≡ reacted options user reactors
  unfolding visit_reactors
  granted_now_lem active [] user = refl
  granted_now_lem active (u ∷ us) user = ground (
    arith,
    granted_now_lem active us user,
    eq_iff u user,
    eq_iff u options.bot_user_id,
    eq_iff user options.bot_user_id,
  )

  new_records_lem :
      (active : List ConsentRecord) (reactors : List String) (user : String)
      → All (IsFromTarget t) active
      → any (is_granted t user) (pass_of active reactors).new_records
        ≡ reacted options user reactors
  unfolding visit_reactors
  new_records_lem active [] user h = refl
  new_records_lem active (u ∷ us) user h = elim (Option-cases (existing_record u active)) [
    | inl e ↦ ground (
      arith,
      e,
      fresh_from u,
      new_records_lem active us user h,
      eq_iff u user,
      eq_iff u options.bot_user_id,
      eq_iff user options.bot_user_id,
    )
    | inr (r, e) ↦ ground (
      arith,
      e,
      existing_record_lem t u active r h e,
      new_records_lem active us user h,
      eq_iff u user,
      eq_iff u options.bot_user_id,
      eq_iff user options.bot_user_id,
    )
  ]

abbrev pub not_from : ReactionTarget → ConsentRecord → Bool
not_from t r = not (is_from t r)

kept_rows_lem :
    (t : ReactionTarget) (user : String) (rs : List ConsentRecord)
    → any (is_granted t user) (keep (not_from t) rs) ≡ false
kept_rows_lem t user [] = refl
kept_rows_lem t user (x ∷ xs) = ground (arith, kept_rows_lem t user xs)

module _ (t : ReactionTarget) (at : String) (granted_now : List String) where
  revoked_records_lem :
      (user : String) (rs : List ConsentRecord)
      → any (is_granted t user) (revoked_records at granted_now rs) ≡ false
  unfolding revoked_records
  revoked_records_lem user [] = refl
  revoked_records_lem user (x ∷ xs) = ground (arith, revoked_records_lem user xs)

  keep-revoked_records :
      (rs : List ConsentRecord)
      → All (IsFromTarget t) rs
      → keep (not_from t) (revoked_records at granted_now rs) ≡ []
  unfolding revoked_records is_from
  keep-revoked_records [] h = refl
  keep-revoked_records (x ∷ xs) h = ground (arith, keep-revoked_records xs h.1)

keep-not_from :
    (t : ReactionTarget) (rs : List ConsentRecord)
    → All (IsFromTarget t) rs
    → keep (not_from t) rs ≡ []
keep-not_from t [] h = refl
keep-not_from t (x ∷ xs) h = ground (arith, keep-not_from t xs h.1)

module _ (options : Options) (scope : ConsentScope) (t : ReactionTarget) (at : String)
    (reactors : List String) (snapshot : List ConsentRecord) where
  abbrev pub active_now : List ConsentRecord
  active_now = keep (active_from t) snapshot

  -- The snapshot that the pass over one target saves.
  abbrev pub snapshot_after : List ConsentRecord
  snapshot_after =
      next_snapshot t at (visit_reactors options scope t at active_now reactors) active_now snapshot

  -- After a pass over a target, a user has an active grant that came from the target exactly when
  -- the user's reaction was fetched and the user is not the bot. Every row that came from elsewhere
  -- is as before.
  pub snapshot_after-grants :
      (user : String)
      → (any (is_granted t user) snapshot_after ≡ reacted options user reactors)
        × (keep (λ r. not (is_from t r)) snapshot_after ≡ keep (λ r. not (is_from t r)) snapshot)
  unfolding next_snapshot
  snapshot_after-grants user =
      let active = active_rows t snapshot in
      let pass = visit_reactors options scope t at active_now reactors in
      (
        ground (
          arith,
          any-append (is_granted t user) (keep (not_from t) snapshot)
              (pass.new_records ++ revoked_records at pass.granted_now active_now),
          any-append (is_granted t user) pass.new_records
              (revoked_records at pass.granted_now active_now),
          kept_rows_lem t user snapshot,
          new_records_lem options scope t at active_now reactors user active,
          revoked_records_lem t at pass.granted_now user active_now,
        ),
        ground (
          arith,
          keep-append (not_from t) (keep (not_from t) snapshot)
              (pass.new_records ++ revoked_records at pass.granted_now active_now),
          keep-append (not_from t) pass.new_records
              (revoked_records at pass.granted_now active_now),
          keep-keep (not_from t) snapshot,
          keep-not_from t pass.new_records
              (new_records-IsFromTarget options scope t at active_now reactors active),
          keep-revoked_records t at pass.granted_now active_now active,
          append-nil (keep (not_from t) snapshot),
        ),
      )
