-- ===== src/Consent/Service/Reconcile/Coherence.antt =====
-- `reconcile`: the service beside its storage, and what comes of failing fetches.
use ido_bata_server_bot.Prelude.{
  String, ◌≡◌, refl, ◌∙◌, ◌⊎◌, inl, inr, true, false, none, some, List, [], ◌∷◌, ◌++◌, arith, keep,
  all, all-append, all-keep, All, Option-cases, ok, succeeded, Outcome-cases,
}
use ido_bata_server_bot.Consent.Types.{ConsentScope, ConsentRecord, is_valid_record}
use ido_bata_server_bot.Consent.Repository.{ConsentRepository, IsRepository}
use ido_bata_server_bot.Consent.Service.{Options, Service, load_all}
use ido_bata_server_bot.Consent.Service.Laws.{IsCoherent, load_all_lem, load_all-IsCoherent}
use ido_bata_server_bot.Consent.Service.Reconcile.{
  ReactionTarget, Fetcher, Progress, empty_report, resolve_scope, walk_order, fresh_record,
  visit_reactors, active_from, existing_record, revoke_at, revoked_records, next_snapshot,
  apply_reactors, reconcile_target, reconcile_targets, reconcile,
}
use ido_bata_server_bot.Consent.Service.Reconcile.Snapshot.{not_from, snapshot_after}
use ido_bata_server_bot.Consent.Service.Reconcile.Walk.{report_guilds-applied}
use ido_bata_server_bot.Consent.Service.Reconcile.Soundness.{start, next_at, apply_reactors_lem}

existing-valid :
    (user : String) (active : List ConsentRecord) (r : ConsentRecord)
    → all is_valid_record active ≡ true
    → existing_record user active ≡ some r
    → is_valid_record r ≡ true
unfolding existing_record
existing-valid user [] r h e = cc
existing-valid user (x ∷ xs) r h e = ground (arith, existing-valid user xs r)

revoke_at-valid :
    (at : String) (r : ConsentRecord) → is_valid_record (revoke_at at r) ≡ is_valid_record r
unfolding is_valid_record
revoke_at-valid at r = refl

revoked-valid :
    (at : String) (granted_now : List String) (rs : List ConsentRecord)
    → all is_valid_record rs ≡ true
    → all is_valid_record (revoked_records at granted_now rs) ≡ true
unfolding revoked_records
revoked-valid at granted_now [] h = refl
revoked-valid at granted_now (x ∷ xs) h =
    ground (arith, revoke_at-valid at x, revoked-valid at granted_now xs)

module _ (options : Options) (scope : ConsentScope) (t : ReactionTarget) (at : String) where
  abbrev pub FreshValid : List String → Type 0
  FreshValid reactors =
      All (λ u. is_valid_record (fresh_record options scope t at u) ≡ true) reactors

  new_records-valid :
      (active : List ConsentRecord) (reactors : List String)
      → all is_valid_record active ≡ true
      → FreshValid reactors
      → all is_valid_record (visit_reactors options scope t at active reactors).new_records ≡ true
  unfolding visit_reactors
  new_records-valid active [] h v = refl
  new_records-valid active (u ∷ us) h v = elim (Option-cases (existing_record u active)) [
    | inl e ↦ ground (arith, e, v.0, new_records-valid active us h v.1)
    | inr (r, e) ↦
        ground (arith, e, existing-valid u active r h e, new_records-valid active us h v.1)
  ]

  snapshot_after-valid :
      (reactors : List String) (snapshot : List ConsentRecord)
      → all is_valid_record snapshot ≡ true
      → FreshValid reactors
      → all is_valid_record (snapshot_after options scope t at reactors snapshot) ≡ true
  unfolding next_snapshot
  snapshot_after-valid reactors snapshot h v =
      let active = keep (active_from t) snapshot in
      let pass = visit_reactors options scope t at active reactors in
      ground (
        arith,
        all-append is_valid_record (keep (not_from t) snapshot)
            (pass.new_records ++ revoked_records at pass.granted_now active),
        all-append is_valid_record pass.new_records (revoked_records at pass.granted_now active),
        all-keep is_valid_record (not_from t) snapshot h,
        new_records-valid active reactors (all-keep is_valid_record (active_from t) snapshot h) v,
        revoked-valid at pass.granted_now active
            (all-keep is_valid_record (active_from t) snapshot h),
      )

-- Discord's ids and the configured texts are not empty, so each new record passes the schema.
abbrev pub FetchesValid : Options → Fetcher → (ReactionTarget → String) → Type 0
FetchesValid options fetch now =
    (scope : ConsentScope) (t : ReactionTarget) (reactors : List String)
    → fetch t ≡ ok reactors
    → FreshValid options scope t (now t) reactors

module _ {S : Type 0} {repository : ConsentRepository S} {stored : S → List ConsentRecord}
    {Ready : S → Type 0} (laws : IsRepository repository stored Ready) (options : Options)
    (fetch : Fetcher) (now : ReactionTarget → String) where
  -- Between two targets the snapshot is what is stored.
  record InStep (p : Progress S) : Type 0 where
    ready : Ready p.service.storage
    fresh : (p.service.cache ≡ none) ⊎ (p.service.cache ≡ some p.snapshot)
    same : stored p.service.storage ≡ p.snapshot
    valid : all is_valid_record p.snapshot ≡ true

  apply-InStep :
      (t : ReactionTarget) (scope : ConsentScope) (reactors : List String) (p : Progress S)
      → FreshValid options scope t (now t) reactors
      → InStep p
      → InStep (apply_reactors repository options fetch now t scope reactors p)
  apply-InStep t scope reactors p v h =
      let next = next_at repository options fetch now t scope reactors p in
      let valid_next : all is_valid_record next ≡ true =
        snapshot_after-valid options scope t (now t) reactors p.snapshot h.valid v in
      ground (
        arith,
        apply_reactors_lem repository options fetch now t scope reactors p,
        valid_next,
        laws.save_ready next p.service.storage valid_next h.ready,
        laws.save_stored next p.service.storage h.ready,
      )

  target-InStep :
      (t : ReactionTarget) (p : Progress S)
      → FetchesValid options fetch now
      → InStep p
      → InStep (reconcile_target repository options fetch now t p)
  unfolding reconcile_target
  target-InStep t p v h = elim (Option-cases (resolve_scope t.emoji options.emoji_to_scope)) [
    | inl e ↦ rw (e, reconcile_target) (skipped h)
    | inr (scope, e) ↦ elim (Outcome-cases (fetch t)) [
      | inr (_, f) ↦ rw (e, reconcile_target) (rw (f, reconcile_target) (skipped h))
      | inl (reactors, f) ↦
          rw (e, reconcile_target)
            (rw (f, reconcile_target) (apply-InStep t scope reactors p (v scope t reactors f) h))
    ]
  ]
    where
      skipped :
          InStep p
          → InStep (record p {
            report = record p.report { failures = p.report.failures ++ t.guild_id ∷ [] };
          })
      skipped k = record { ready = k.ready; fresh = k.fresh; same = k.same; valid = k.valid }

  targets-InStep :
      (ts : List ReactionTarget) (p : Progress S)
      → FetchesValid options fetch now
      → InStep p
      → InStep (reconcile_targets repository options fetch now ts p)
  unfolding reconcile_targets
  targets-InStep [] p v h = h
  targets-InStep (t ∷ ts) p v h =
      targets-InStep ts (reconcile_target repository options fetch now t p) v
        (target-InStep t p v h)

  start-InStep :
      (snapshot : List ConsentRecord) (s : Service S)
      → IsCoherent stored Ready s
      → (load_all repository s).0 ≡ ok snapshot
      → InStep (start snapshot (load_all repository s).1)
  start-InStep snapshot s h e = ground (
    arith,
    load_all_lem laws s h,
    load_all-IsCoherent laws s h,
    laws.stored_valid s.storage h.ready,
  )

  InStep-IsCoherent : (p : Progress S) → InStep p → IsCoherent stored Ready p.service
  InStep-IsCoherent p h = ground (arith, h)

  -- Whatever Discord and the storage answer on the way, `reconcile` leaves the storage in order and
  -- the cache in step with it, when the new records pass the schema.
  pub reconcile-IsCoherent :
      (targets : List ReactionTarget) (s : Service S)
      → FetchesValid options fetch now
      → IsCoherent stored Ready s
      → IsCoherent stored Ready (reconcile repository options (some fetch) now targets s).1
  unfolding reconcile
  reconcile-IsCoherent targets s v h = elim (Outcome-cases (load_all repository s).0) [
    | inr (_, e) ↦ rw (e, reconcile) (load_all-IsCoherent laws s h)
    | inl (snapshot, e) ↦
        let p = start snapshot (load_all repository s).1 in
        let q = targets-InStep (walk_order targets) p v (start-InStep snapshot s h e) in
        rw (e, reconcile) (InStep-IsCoherent _ q)
  ]

-- A walk without a successful fetch reports no change and leaves the service alone.
abbrev Unchanged : {S : Type 0} → Progress S → Progress S → Type 0
Unchanged p q =
    (q.report.applied_grants ≡ p.report.applied_grants)
    × (q.report.applied_revokes ≡ p.report.applied_revokes)
    × (q.service ≡ p.service)

module _ {S : Type 0} (repository : ConsentRepository S) (options : Options) (fetch : Fetcher)
    (now : ReactionTarget → String) where
  target_unfetched :
      (t : ReactionTarget) (p : Progress S)
      → succeeded (fetch t) ≡ false
      → Unchanged p (reconcile_target repository options fetch now t p)
  unfolding reconcile_target
  target_unfetched t p h = elim (Option-cases (resolve_scope t.emoji options.emoji_to_scope)) [
    | inl e ↦ rw (e, reconcile_target) (refl, refl, refl)
    | inr (scope, e) ↦ elim (Outcome-cases (fetch t)) [
      | inr (_, f) ↦ rw (e, reconcile_target) (rw (f, reconcile_target) (refl, refl, refl))
      | inl (reactors, f) ↦ cc (h, f)
    ]
  ]

  targets_unfetched :
      (ts : List ReactionTarget) (p : Progress S)
      → ((t : ReactionTarget) → succeeded (fetch t) ≡ false)
      → Unchanged p (reconcile_targets repository options fetch now ts p)
  unfolding reconcile_targets
  targets_unfetched [] p h = (refl, refl, refl)
  targets_unfetched (t ∷ ts) p h =
      let (g, r, s) = target_unfetched t p (h t) in
      let (g', r', s') =
        targets_unfetched ts (reconcile_target repository options fetch now t p) h in
      (g' ∙ g, r' ∙ r, s' ∙ s)

-- When no fetch succeeds `reconcile` grants nothing and revokes nothing: it reports no change, and
-- the service is the one that loading the rows left, with no event delivered and nothing saved.
-- So it is too without a fetcher, where not even the rows are loaded.
pub reconcile_fail_closed :
    {S : Type 0} (repository : ConsentRepository S) (options : Options) (fetch : Fetcher)
    (now : ReactionTarget → String) (targets : List ReactionTarget) (s : Service S)
    → ((t : ReactionTarget) → succeeded (fetch t) ≡ false)
    → let (report, after) = reconcile repository options (some fetch) now targets s in
      (report.applied_grants ≡ [])
      × (report.applied_revokes ≡ [])
      × (after ≡ (load_all repository s).1)
      × ((reconcile repository options none now targets s).1 ≡ s)
unfolding reconcile
reconcile_fail_closed repository options fetch now targets s no_fetch =
    elim (Outcome-cases (load_all repository s).0) [
      | inr (_, e) ↦
          let (g, r) = report_guilds-applied targets empty_report in
          rw (e, reconcile) (g, r, refl, refl)
      | inl (snapshot, e) ↦
          let (g, r, same) =
            targets_unfetched repository options fetch now (walk_order targets)
              (start snapshot (load_all repository s).1) no_fetch in
          rw (e, reconcile) (g, r, same, refl)
    ]
