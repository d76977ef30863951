-- ===== src/Consent/Service/Reconcile.antt =====
-- `reconcile` of src/consent/service.ts: the stored grants are brought in step with the reactions
-- on the consent messages. `fetch` is what Discord answers for a target, as the set's elements in
-- insertion order; `now` is the clock reading made for a target.
pub mod Snapshot
pub mod Events
pub mod Soundness
pub mod Walk
pub mod Coherence
pub mod Duplicates
use Prim.Native.String.{◌++◌ as concat}
use ido_bata_server_bot.Prelude.{
  String, Bool, true, false, not, ◌&&◌, Option, none, some, List, [], ◌∷◌, ◌++◌, map, if◌then◌else◌,
  str_eq, keep, find, any, is_none, Outcome, Done, ok, threw,
}
use ido_bata_server_bot.Consent.Types.{
  ConsentScope, ConsentSource, ConsentRecord, ConsentEvent, granted, revoked, is_active,
}
use ido_bata_server_bot.Consent.Repository.{ConsentRepository}
use ido_bata_server_bot.Consent.Service.{Options, Service, emit, invalidated, load_all}

abbrev pub ReactionTarget : Type 0
ReactionTarget = ConsentSource

-- `ReactionFetcher`
abbrev pub Fetcher : Type 0
Fetcher = ReactionTarget → Outcome (List String)

pub record ReconcileReport : Type 0 where
  pub applied_grants : List (String × ConsentScope)
  pub applied_revokes : List (String × ConsentScope)
  pub failures : List String

abbrev pub empty_report : ReconcileReport
empty_report = record { applied_grants = []; applied_revokes = []; failures = [] }

abbrev fail : String → ReconcileReport → ReconcileReport
fail guild report = record report { failures = report.failures ++ guild ∷ [] }

-- The loop that reports every guild once.
unfoldable pub report_guilds : List ReactionTarget → ReconcileReport → ReconcileReport
report_guilds [] report = report
report_guilds (t ∷ ts) report =
    report_guilds ts
      (if any (λ g. str_eq g t.guild_id) report.failures then report else fail t.guild_id report)

unfoldable pub target_key : ReactionTarget → String
target_key t = concat t.guild_id (concat ":" (concat t.channel_id (concat ":" t.message_id)))

-- `grouped.get(key) ?? []`, `push` and `set` on a map in insertion order
add_to_group :
    String
    → ReactionTarget
    → List (String × List ReactionTarget)
    → List (String × List ReactionTarget)
add_to_group key t [] = (key, t ∷ []) ∷ []
add_to_group key t ((k, bucket) ∷ groups) =
    if str_eq k key then (k, bucket ++ t ∷ []) ∷ groups else (k, bucket) ∷ add_to_group key t groups

group_targets :
    List ReactionTarget → List (String × List ReactionTarget) → List (String × List ReactionTarget)
unfolding add_to_group target_key
group_targets [] groups = groups
group_targets (t ∷ ts) groups = group_targets ts (add_to_group (target_key t) t groups)

abbrev buckets : List (String × List ReactionTarget) → List ReactionTarget
buckets [] = []
buckets ((_, bucket) ∷ groups) = bucket ++ buckets groups

-- The targets in the order in which they are processed.
unfoldable pub walk_order : List ReactionTarget → List ReactionTarget
unfolding group_targets
walk_order targets = buckets (group_targets targets [])

-- `emojiToScope.get(emoji) ?? null`
unfoldable pub resolve_scope : String → List (String × ConsentScope) → Option ConsentScope
resolve_scope emoji [] = none
resolve_scope emoji ((e, scope) ∷ rest) =
    if str_eq e emoji then some scope else resolve_scope emoji rest

-- The four comparisons of a record's source with a target.
unfoldable pub is_from : ReactionTarget → ConsentRecord → Bool
is_from t r =
    str_eq r.source.guild_id t.guild_id
    && (str_eq r.source.channel_id t.channel_id
        && (str_eq r.source.message_id t.message_id && str_eq r.source.emoji t.emoji))

abbrev pub active_from : ReactionTarget → ConsentRecord → Bool
active_from t r = is_from t r && is_active r

-- `subjectToRecord.get(userId)`: a later record of a subject overwrites an earlier one.
unfoldable pub existing_record : String → List ConsentRecord → Option ConsentRecord
existing_record user [] = none
existing_record user (r ∷ rs) = elim (existing_record user rs) [
  | some later ↦ some later
  | none ↦ if str_eq r.subject_id user then some r else none
]

-- What the two loops over reactors and active records collect.
pub record Pass : Type 0 where
  pub new_records : List ConsentRecord
  pub granted_now : List String
  pub new_grants : List (String × ConsentScope)

module _ (options : Options) (scope : ConsentScope) (t : ReactionTarget) (at : String) where
  unfoldable pub fresh_record : String → ConsentRecord
  fresh_record user = record {
    subject_id = user;
    scope = scope;
    policy_version = options.policy_version;
    granted_at = at;
    revoked_at = none;
    source = t;
  }

  visit_found : String → Option ConsentRecord → Pass → Pass
  unfolding fresh_record
  visit_found user (some existing) pass = record pass {
    new_records = existing ∷ pass.new_records;
    granted_now = user ∷ pass.granted_now;
  }
  visit_found user none pass = record {
    new_records = fresh_record user ∷ pass.new_records;
    granted_now = user ∷ pass.granted_now;
    new_grants = (user, scope) ∷ pass.new_grants;
  }

  -- The loop over the reactors, its pushes in order.
  unfoldable pub visit_reactors : List ConsentRecord → List String → Pass
  unfolding visit_found
  visit_reactors active [] = record { new_records = []; granted_now = []; new_grants = [] }
  visit_reactors active (user ∷ users) =
      let rest = visit_reactors active users in
      if str_eq user options.bot_user_id
      then rest
      else visit_found user (existing_record user active) rest

abbrev was_granted : List String → ConsentRecord → Bool
was_granted granted_now r = any (λ u. str_eq u r.subject_id) granted_now

abbrev pub revoke_at : String → ConsentRecord → ConsentRecord
revoke_at at r = record r { revoked_at = some at }

-- The loop over the active records whose subject no longer reacts.
unfoldable pub revoked_records : String → List String → List ConsentRecord → List ConsentRecord
revoked_records at granted_now active =
    map (revoke_at at) (keep (λ r. not (was_granted granted_now r)) active)

unfoldable pub new_revokes : List String → List ConsentRecord → List (String × ConsentScope)
new_revokes granted_now active =
    map (λ r. (r.subject_id, r.scope)) (keep (λ r. not (was_granted granted_now r)) active)

-- `nextSnapshot`
unfoldable pub next_snapshot :
    ReactionTarget → String → Pass → List ConsentRecord → List ConsentRecord → List ConsentRecord
unfolding revoked_records
next_snapshot t at pass active snapshot =
    keep (λ r. not (is_from t r)) snapshot
    ++ (pass.new_records ++ revoked_records at pass.granted_now active)

pub record Progress (S : Type 0) : Type 0 where
  pub snapshot : List ConsentRecord
  pub report : ReconcileReport
  pub service : Service S

-- The events of a pass, in the order in which they are emitted.
unfoldable pub publish_events :
    ReactionTarget → String → Pass → List (String × ConsentScope) → List ConsentEvent
publish_events t at pass revokes =
    map (λ g. granted g.0 g.1 at t) pass.new_grants ++ map (λ g. revoked g.0 g.1 at) revokes

module _ {S : Type 0} where
  unfoldable pub emit_all : List ConsentEvent → Service S → Service S
  unfolding emit
  emit_all [] s = s
  emit_all (e ∷ es) s = emit_all es (emit e s)

  abbrev skip : ReactionTarget → Progress S → Progress S
  skip t p = record p { report = fail t.guild_id p.report }

  -- Behind `repository.save`: publish what was stored, or report the guild.
  publish :
      ReactionTarget
      → String
      → Pass
      → List (String × ConsentScope)
      → List ConsentRecord
      → Progress S
      → Done × S
      → Progress S
  unfolding emit_all
  publish t at pass revokes next p (threw e, storage) =
      skip t (record p { service = record p.service { storage = storage } })
  publish t at pass revokes next p (ok _, storage) = record {
    snapshot = next;
    report = record p.report {
      applied_grants = p.report.applied_grants ++ pass.new_grants;
      applied_revokes = p.report.applied_revokes ++ revokes;
    };
    service = emit_all (publish_events t at pass revokes) (invalidated storage p.service);
  }

module _ {S : Type 0} (repository : ConsentRepository S) (options : Options) (fetch : Fetcher)
    (now : ReactionTarget → String) where
  unfoldable pub apply_reactors :
      ReactionTarget → ConsentScope → List String → Progress S → Progress S
  unfolding publish visit_reactors next_snapshot new_revokes
  apply_reactors t scope reactors p =
      let active = keep (active_from t) p.snapshot in
      let pass = visit_reactors options scope t (now t) active reactors in
      let next = next_snapshot t (now t) pass active p.snapshot in
      publish t (now t) pass (new_revokes pass.granted_now active) next p
        (repository.save next p.service.storage)

  -- The body of the loop over a bucket.
  unfoldable pub reconcile_target : ReactionTarget → Progress S → Progress S
  unfolding apply_reactors resolve_scope
  reconcile_target t p = elim (resolve_scope t.emoji options.emoji_to_scope) [
    | none ↦ skip t p
    | some scope ↦ elim (fetch t) [
      | threw _ ↦ skip t p
      | ok reactors ↦ apply_reactors t scope reactors p
    ]
  ]

  unfoldable pub reconcile_targets : List ReactionTarget → Progress S → Progress S
  unfolding reconcile_target
  reconcile_targets [] p = p
  reconcile_targets (t ∷ ts) p = reconcile_targets ts (reconcile_target t p)

-- `reconcile`; without a fetcher every guild fails.
unfoldable pub reconcile :
    {S : Type 0}
    → ConsentRepository S
    → Options
    → Option Fetcher
    → (ReactionTarget → String)
    → List ReactionTarget
    → Service S
    → ReconcileReport × Service S
unfolding report_guilds walk_order reconcile_targets
reconcile repository options none now targets s = (report_guilds targets empty_report, s)
reconcile repository options (some fetch) now targets s =
    let (loaded, t) = load_all repository s in
    elim loaded [
      | threw _ ↦ (report_guilds targets empty_report, t)
      | ok snapshot ↦
          let p =
            reconcile_targets repository options fetch now (walk_order targets)
              (record { snapshot = snapshot; report = empty_report; service = t }) in
          (p.report, p.service)
    ]
