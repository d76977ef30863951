-- ===== src/Snapshots/RetentionExamples.antt =====
-- A plan for four snapshots: two of the last day, one two weeks old and one two months old.
use ido_bata_server_bot.Prelude.{
  ◌≡◌, refl, ◌+◌, ◌≤◌, ℕ, ◌*◌, false, List, [], ◌∷◌, ◌&&◌, ◌||◌, length,
}
use ido_bata_server_bot.Snapshots.Retention.{
  SnapshotMetadata, RetentionPolicy, has_entry, plan_retention, pick_tier_keep, representatives,
  add_representative, unique, is_daily_candidate, is_weekly_candidate, is_monthly_candidate, age_of,
  day_key_of, iso_week_key_of, month_key_of, classify_snapshot, monthly,
}
use ido_bata_server_bot.Snapshots.Retention.Laws.{plan_retention_lem}

abbrev days : ℕ → ℕ
days n = n * 86400000

abbrev now : ℕ
now = days 20602

abbrev early : SnapshotMetadata
early = record { path = "early"; created_at = days 20600 }

abbrev late : SnapshotMetadata
late = record { path = "late"; created_at = days 20600 + 5 }

abbrev weeks_old : SnapshotMetadata
weeks_old = record { path = "weeks"; created_at = days 20588 }

abbrev months_old : SnapshotMetadata
months_old = record { path = "months"; created_at = days 20540 }

abbrev snapshots : List SnapshotMetadata
snapshots = months_old ∷ early ∷ late ∷ weeks_old ∷ []

abbrev policy : RetentionPolicy
policy = record { daily_retention = 7; weekly_retention = 4; monthly_retention = 12 }

plan_run :
    plan_retention snapshots policy now
    ≡ record { kept = late ∷ weeks_old ∷ months_old ∷ []; deleted = early ∷ [] }
unfolding plan_retention pick_tier_keep representatives add_representative unique is_daily_candidate
    is_weekly_candidate is_monthly_candidate age_of day_key_of iso_week_key_of month_key_of
plan_run = refl

-- 2026-05-27, as a month since the year 0
month_run : month_key_of early ≡ 2026 * 12 + 4
unfolding month_key_of
month_run = refl

monthly_run : classify_snapshot now months_old ≡ monthly
unfolding classify_snapshot age_of
monthly_run = refl

plan_retention_lem_example :
    let plan = plan_retention snapshots policy now in
    ((has_entry "early" plan.kept || has_entry "early" plan.deleted) ≡ has_entry "early" snapshots)
    × ((has_entry "early" plan.kept && has_entry "early" plan.deleted) ≡ false)
    × (length plan.kept
        ≤ policy.daily_retention + policy.weekly_retention + policy.monthly_retention)
plan_retention_lem_example = plan_retention_lem snapshots policy now "early"
