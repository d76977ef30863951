-- ===== src/Snapshots/Retention.antt =====
-- src/features/state-snapshot/retention.ts: which snapshots stay. A time is a number of milliseconds
-- since 1970, in place of its text; the keys of a day, an ISO week and a month are numbers in the
-- order of their texts. `month_of_day` is the calendar of the language.
pub mod Laws
use ido_bata_server_bot.Prelude.{
  ℕ, ◌+◌, ◌-◌, ◌*◌, ◌/◌, Bool, true, false, not, ◌&&◌, String, List, [], ◌∷◌, ◌++◌, map,
  if◌then◌else◌, ◌==◌, ltb, leb, str_eq, keep, any, take,
}

pub record SnapshotMetadata : Type 0 where
  pub path : String
  pub created_at : ℕ

pub record RetentionPolicy : Type 0 where
  pub daily_retention : ℕ
  pub weekly_retention : ℕ
  pub monthly_retention : ℕ

pub record RetentionPlan : Type 0 where
  pub kept : List SnapshotMetadata
  pub deleted : List SnapshotMetadata

pub data Bucket : Type 0 where
  daily weekly monthly : Bucket

abbrev day_ms : ℕ
day_ms = 86400000

abbrev pub week_ms : ℕ
week_ms = 7 * day_ms

abbrev pub month_ms : ℕ
month_ms = 30 * day_ms

-- `ageOf`, which is below zero in the source for a snapshot of the future; its tests are the same.
unfoldable pub age_of : ℕ → SnapshotMetadata → ℕ
age_of reference s = reference - s.created_at

unfoldable pub classify_snapshot : ℕ → SnapshotMetadata → Bucket
classify_snapshot reference s =
    if leb month_ms (age_of reference s)
    then monthly
    else if leb week_ms (age_of reference s)
    then weekly
    else daily

unfoldable pub is_daily_candidate : ℕ → SnapshotMetadata → Bool
is_daily_candidate reference s = ltb (age_of reference s) week_ms

unfoldable pub is_weekly_candidate : ℕ → SnapshotMetadata → Bool
is_weekly_candidate reference s =
    leb week_ms (age_of reference s) && ltb (age_of reference s) month_ms

unfoldable pub is_monthly_candidate : ℕ → SnapshotMetadata → Bool
is_monthly_candidate reference s = leb month_ms (age_of reference s)

unfoldable pub day_key_of : SnapshotMetadata → ℕ
day_key_of s = s.created_at / day_ms

-- The weeks begin on Mondays, and 1970 began on a Thursday.
unfoldable pub iso_week_key_of : SnapshotMetadata → ℕ
iso_week_key_of s = (s.created_at / day_ms + 3) / 7

-- The months since the year 0 of a day since 1970; years are counted from March here.
abbrev month_of_day : ℕ → ℕ
month_of_day day =
    let shifted = day + 719468 in
    let era = shifted / 146097 in
    let of_era = shifted - era * 146097 in
    let year = (of_era - of_era / 1460 + of_era / 36524 - of_era / 146096) / 365 in
    let of_year = of_era - (365 * year + year / 4 - year / 100) in
    (era * 400 + year) * 12 + (5 * of_year + 2) / 153 + 2

unfoldable pub month_key_of : SnapshotMetadata → ℕ
month_key_of s = month_of_day (s.created_at / day_ms)

-- `sort` with the largest key first; it keeps the order of equal keys.
abbrev insert {ℓ} : {A : Type ℓ} → (A → ℕ) → A → List A → List A
insert key x [] = x ∷ []
insert key x (y ∷ ys) =
    let rest = insert key x ys in if ltb (key x) (key y) then y ∷ rest else x ∷ y ∷ ys

abbrev sort_down {ℓ} : {A : Type ℓ} → (A → ℕ) → List A → List A
sort_down key [] = []
sort_down key (x ∷ xs) = insert key x (sort_down key xs)

-- One turn of the loop of `pickTierKeep`, on its map.
unfoldable pub add_representative :
    ℕ → SnapshotMetadata → List (ℕ × SnapshotMetadata) → List (ℕ × SnapshotMetadata)
add_representative key s [] = (key, s) ∷ []
add_representative key s ((k, existing) ∷ groups) =
    let rest = add_representative key s groups in
    if k == key
    then (if ltb existing.created_at s.created_at then (k, s) ∷ groups else (k, existing) ∷ groups)
    else (k, existing) ∷ rest

unfoldable pub representatives :
    (SnapshotMetadata → ℕ)
    → List (ℕ × SnapshotMetadata)
    → List SnapshotMetadata
    → List (ℕ × SnapshotMetadata)
representatives key_of groups [] = groups
representatives key_of groups (s ∷ eligible) =
    representatives key_of (add_representative (key_of s) s groups) eligible

unfoldable pub pick_tier_keep :
    List SnapshotMetadata
    → (SnapshotMetadata → Bool)
    → (SnapshotMetadata → ℕ)
    → ℕ
    → List SnapshotMetadata
pick_tier_keep candidates is_eligible key_of limit =
    map (λ g. g.1)
      (take limit (sort_down (λ g. g.0) (representatives key_of [] (keep is_eligible candidates))))

abbrev pub has_entry : String → List SnapshotMetadata → Bool
has_entry path entries = any (λ e. str_eq e.path path) entries

abbrev pub without : List SnapshotMetadata → List SnapshotMetadata → List SnapshotMetadata
without tier entries = keep (λ e. not (has_entry e.path tier)) entries

-- The loop that fills `keepList`; `seen` is `keepSet`.
unfoldable pub unique : List String → List SnapshotMetadata → List SnapshotMetadata
unique seen [] = []
unique seen (e ∷ entries) =
    let rest = unique (e.path ∷ seen) entries in
    let same = unique seen entries in if any (λ p. str_eq p e.path) seen then same else e ∷ rest

unfoldable pub plan_retention : List SnapshotMetadata → RetentionPolicy → ℕ → RetentionPlan
plan_retention snapshots policy reference =
    let sorted = sort_down (λ s. s.created_at) snapshots in
    let daily_keep =
      pick_tier_keep sorted (is_daily_candidate reference) day_key_of policy.daily_retention in
    let weekly_keep =
      pick_tier_keep (without daily_keep sorted) (is_weekly_candidate reference) iso_week_key_of
        policy.weekly_retention in
    let monthly_keep =
      pick_tier_keep (without weekly_keep (without daily_keep sorted))
        (is_monthly_candidate reference) month_key_of policy.monthly_retention in
    let keep_list = unique [] (daily_keep ++ weekly_keep ++ monthly_keep) in
    record { kept = keep_list; deleted = without keep_list sorted }
