-- ===== src/Consent/Service/Reconcile/Walk.antt =====
-- The parts of `reconcile` that go over lists: the order of the targets, the events, the failures.
use ido_bata_server_bot.Prelude.{
  String, ◌≡◌, refl, Bool, ◌||◌, List, [], ◌∷◌, ◌++◌, arith, any, any-append,
}
use ido_bata_server_bot.Consent.Types.{ConsentEvent}
use ido_bata_server_bot.Consent.Service.{Service, emit}
use ido_bata_server_bot.Consent.Service.Reconcile.{
  ReactionTarget, ReconcileReport, walk_order, group_targets, add_to_group, buckets, emit_all,
  report_guilds, target_key,
}

-- Grouping loses no target and makes none up.
any-add_to_group :
    (p : ReactionTarget → Bool) (key : String) (t : ReactionTarget)
    (groups : List (String × List ReactionTarget))
    → any p (buckets (add_to_group key t groups)) ≡ (p t || any p (buckets groups))
unfolding add_to_group
any-add_to_group p key t [] = ground arith
any-add_to_group p key t ((k, bucket) ∷ groups) = ground (
  arith,
  any-add_to_group p key t groups,
  any-append p (bucket ++ t ∷ []) (buckets groups),
  any-append p bucket (t ∷ []),
  any-append p bucket (buckets groups),
  any-append p bucket (buckets (add_to_group key t groups)),
)

any-group_targets :
    (p : ReactionTarget → Bool) (ts : List ReactionTarget)
    (groups : List (String × List ReactionTarget))
    → any p (buckets (group_targets ts groups)) ≡ (any p ts || any p (buckets groups))
unfolding group_targets
any-group_targets p [] groups = refl
any-group_targets p (t ∷ ts) groups = ground (
  arith,
  any-group_targets p ts (add_to_group (target_key t) t groups),
  any-add_to_group p (target_key t) t groups,
)

pub any-walk_order :
    (p : ReactionTarget → Bool) (ts : List ReactionTarget) → any p (walk_order ts) ≡ any p ts
unfolding walk_order
any-walk_order p ts = ground (arith, any-group_targets p ts [])

pub emit_all_fields :
    {S : Type 0} (es : List ConsentEvent) (s : Service S)
    → ((emit_all es s).storage ≡ s.storage) × ((emit_all es s).cache ≡ s.cache)
unfolding emit_all
emit_all_fields [] s = (refl, refl)
emit_all_fields (e ∷ es) s = unfold emit in ground (arith, emit_all_fields es (emit e s))

pub report_guilds-applied :
    (ts : List ReactionTarget) (report : ReconcileReport)
    → ((report_guilds ts report).applied_grants ≡ report.applied_grants)
      × ((report_guilds ts report).applied_revokes ≡ report.applied_revokes)
unfolding report_guilds
report_guilds-applied [] report = (refl, refl)
report_guilds-applied (t ∷ ts) report = ground (
  arith,
  report_guilds-applied ts report,
  report_guilds-applied ts (record report { failures = report.failures ++ t.guild_id ∷ [] }),
)
