-- ===== src/Consent/Service/Reconcile/Soundness.antt =====
-- The whole walk of `reconcile`: which grants it reports, what it stores, and what stays when
-- Discord or the storage fails.
use ido_bata_server_bot.Prelude.{
  append-nil, append_assoc, String, ◌≡◌, refl, sym, ◌∙◌, ◌⊎◌, inl, inr, Bool, true, false, ◌&&◌,
  Option, none, some, List, [], ◌∷◌, ◌++◌, arith, str_eq, eq_iff, keep, any, any-append, All,
  All-append, All-mono, Option-cases, Bool-cases, Outcome, Done, ok, threw, succeeded,
  Outcome-cases,
}
use ido_bata_server_bot.Consent.Types.{ConsentScope, ConsentRecord, scope_eq, scope_eq_iff}
use ido_bata_server_bot.Consent.Repository.{ConsentRepository}
use ido_bata_server_bot.Consent.Service.{Options, Service, invalidated, load_all}
use ido_bata_server_bot.Consent.Service.Reconcile.{
  ReactionTarget, Fetcher, Progress, Pass, empty_report, resolve_scope, walk_order, visit_reactors,
  reconcile_target, reconcile_targets, reconcile, publish, publish_events, apply_reactors,
  active_from, existing_record,
}
use ido_bata_server_bot.Consent.Service.Reconcile.Walk.{
  any-walk_order, emit_all_fields, report_guilds-applied,
}
use ido_bata_server_bot.Consent.Service.Reconcile.Snapshot.{reacted, snapshot_after}

-- A reported grant is justified by a target if the target's emoji stands for the scope, and the
-- user is among the reactors that were fetched for it and is not the bot.
abbrev fetched : Outcome (List String) → List String
fetched (ok reactors) = reactors
fetched (threw _) = []

abbrev stands_for : Option ConsentScope → ConsentScope → Bool
stands_for none scope = false
stands_for (some found) scope = scope_eq found scope

abbrev pub justifies : Options → Fetcher → String × ConsentScope → ReactionTarget → Bool
justifies options fetch g t =
    stands_for (resolve_scope t.emoji options.emoji_to_scope) g.1
    && reacted options g.0 (fetched (fetch t))

new_grants_reacted :
    (options : Options) (scope : ConsentScope) (t : ReactionTarget) (at : String)
    (active : List ConsentRecord) (reactors : List String)
    → All
        (λ g. (g.1 ≡ scope) × (reacted options g.0 reactors ≡ true))
        (visit_reactors options scope t at active reactors).new_grants
unfolding visit_reactors
new_grants_reacted options scope t at active [] = tt
new_grants_reacted options scope t at active (u ∷ us) =
    let rest =
      All-mono {Q = λ g. (g.1 ≡ scope) × (reacted options g.0 (u ∷ us) ≡ true)}
        (λ g h. ground (arith, h)) _ (new_grants_reacted options scope t at active us) in
    elim (Bool-cases (str_eq u options.bot_user_id)) [
      | inl bot ↦ rw bot rest
      | inr other ↦ elim (Option-cases (existing_record u active)) [
        | inl fresh ↦
            rw other (rw (fresh, visit_reactors) ((refl, ground (arith, eq_iff u u)), rest))
        | inr (r, found) ↦ rw other (rw (found, visit_reactors) rest)
      ]
    ]

-- What `publish` makes of the outcome `r` of the save.
abbrev pub Published :
    {S : Type 0} → Pass → List ConsentRecord → Progress S → Done × S → Progress S → Type 0
Published pass next p r q =
    ((r.0 ≡ ok tt)
      × (q.report.applied_grants ≡ p.report.applied_grants ++ pass.new_grants)
      × (q.snapshot ≡ next)
      × (q.service.cache ≡ none)
      × (q.service.storage ≡ r.1))
    ⊎ ((succeeded r.0 ≡ false)
        × (q.report.applied_grants ≡ p.report.applied_grants)
        × (q.snapshot ≡ p.snapshot)
        × (q.service.cache ≡ p.service.cache)
        × (q.service.storage ≡ r.1))

publish_lem :
    {S : Type 0} (t : ReactionTarget) (at : String) (pass : Pass)
    (revokes : List (String × ConsentScope)) (next : List ConsentRecord) (p : Progress S)
    (r : Done × S)
    → Published pass next p r (publish t at pass revokes next p r)
unfolding publish
publish_lem t at pass revokes next p r =
    ground (arith, emit_all_fields (publish_events t at pass revokes) (invalidated r.1 p.service))

-- Where the walk begins.
abbrev pub start : {S : Type 0} → List ConsentRecord → Service S → Progress S
start snapshot s = record { snapshot = snapshot; report = empty_report; service = s }

module _ {S : Type 0} (repository : ConsentRepository S) (options : Options) (fetch : Fetcher)
    (now : ReactionTarget → String) where
  abbrev Justified : List ReactionTarget → String × ConsentScope → Type 0
  Justified ts g = any (justifies options fetch g) ts ≡ true

  abbrev pub pass_at : ReactionTarget → ConsentScope → List String → Progress S → Pass
  pass_at t scope reactors p =
      visit_reactors options scope t (now t) (keep (active_from t) p.snapshot) reactors

  abbrev pub next_at : ReactionTarget → ConsentScope → List String → Progress S → List ConsentRecord
  next_at t scope reactors p = snapshot_after options scope t (now t) reactors p.snapshot

  pub apply_reactors_lem :
      (t : ReactionTarget) (scope : ConsentScope) (reactors : List String) (p : Progress S)
      → Published
          (pass_at t scope reactors p)
          (next_at t scope reactors p)
          p
          (repository.save (next_at t scope reactors p) p.service.storage)
          (apply_reactors repository options fetch now t scope reactors p)
  unfolding apply_reactors
  apply_reactors_lem t scope reactors p = publish_lem t (now t) _ _ _ p _

  earlier-Justified :
      (ts us : List ReactionTarget) (gs : List (String × ConsentScope))
      → All (Justified ts) gs
      → All (Justified (ts ++ us)) gs
  earlier-Justified ts us gs =
      All-mono (λ g j. ground (arith, any-append (justifies options fetch g) ts us, j)) gs

  apply-Justified :
      (t : ReactionTarget) (scope : ConsentScope) (reactors : List String) (p : Progress S)
      (ts : List ReactionTarget)
      → resolve_scope t.emoji options.emoji_to_scope ≡ some scope
      → fetch t ≡ ok reactors
      → All (Justified ts) p.report.applied_grants
      → All
          (Justified (ts ++ t ∷ []))
          (apply_reactors repository options fetch now t scope reactors p).report.applied_grants
  apply-Justified t scope reactors p ts e f h =
      let new : All (Justified (ts ++ t ∷ [])) (pass_at t scope reactors p).new_grants =
        All-mono
          (λ g j. ground (
            arith,
            j,
            e,
            f,
            any-append (justifies options fetch g) ts (t ∷ []),
            scope_eq_iff scope scope,
          ))
          _ (new_grants_reacted options scope t (now t) _ reactors) in
      elim (apply_reactors_lem t scope reactors p) [
        | inl (_, grants, _, _, _) ↦
            rw grants (All-append _ p.report.applied_grants _ (earlier-Justified ts _ _ h) new)
        | inr (_, grants, _, _, _) ↦ rw grants (earlier-Justified ts _ _ h)
      ]

  target-Justified :
      (t : ReactionTarget) (p : Progress S) (ts : List ReactionTarget)
      → All (Justified ts) p.report.applied_grants
      → All
          (Justified (ts ++ t ∷ []))
          (reconcile_target repository options fetch now t p).report.applied_grants
  unfolding reconcile_target
  target-Justified t p ts h = elim (Option-cases (resolve_scope t.emoji options.emoji_to_scope)) [
    | inl e ↦ rw (e, reconcile_target) (earlier-Justified ts _ _ h)
    | inr (scope, e) ↦ elim (Outcome-cases (fetch t)) [
      | inr (_, f) ↦
          rw (e, reconcile_target) (rw (f, reconcile_target) (earlier-Justified ts _ _ h))
      | inl (reactors, f) ↦
          rw (e, reconcile_target)
            (rw (f, reconcile_target) (apply-Justified t scope reactors p ts e f h))
    ]
  ]

  targets-Justified :
      (ts : List ReactionTarget) (p : Progress S) (before : List ReactionTarget)
      → All (Justified before) p.report.applied_grants
      → All
          (Justified (before ++ ts))
          (reconcile_targets repository options fetch now ts p).report.applied_grants
  unfolding reconcile_targets
  targets-Justified [] p before h = rw append-nil h
  targets-Justified (t ∷ ts) p before h = rw (← append_assoc before (t ∷ []) ts) (
      targets-Justified ts (reconcile_target repository options fetch now t p) (before ++ t ∷ [])
        (target-Justified t p before h))

  -- `reconcile` reports a grant only for a user whose reaction was fetched for one of the targets,
  -- on the emoji that stands for the granted scope, and never for the bot.
  pub reconcile_grants_justified :
      (targets : List ReactionTarget) (s : Service S)
      → All
          (λ g. any (justifies options fetch g) targets ≡ true)
          (reconcile repository options (some fetch) now targets s).0.applied_grants
  unfolding reconcile
  reconcile_grants_justified targets s = elim (Outcome-cases (load_all repository s).0) [
    | inr (_, e) ↦ rw (e, reconcile) (rw ((report_guilds-applied targets empty_report).0) tt)
    | inl (snapshot, e) ↦
        rw (e, reconcile)
          (All-mono (λ g j. sym (any-walk_order (justifies options fetch g) targets) ∙ j) _
            (targets-Justified (walk_order targets) (start snapshot (load_all repository s).1) []
              tt))
  ]
