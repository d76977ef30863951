-- ===== src/Snapshots/Retention/Laws.antt =====
-- What a plan keeps and deletes.
use ido_bata_server_bot.Prelude.{
  ◌≡◌, refl, sym, ◌∙◌, ap, ℕ, ◌+◌, ◌≤◌, zero, suc, Bool, true, false, not, ◌&&◌, ◌||◌, String, List,
  [], ◌∷◌, ◌++◌, map, str_eq, eq_iff, keep, any, take, length, length-append, arith,
}
use ido_bata_server_bot.Snapshots.Retention.{
  SnapshotMetadata, RetentionPolicy, insert, sort_down, add_representative, representatives,
  pick_tier_keep, has_entry, without, unique, plan_retention, is_daily_candidate,
  is_weekly_candidate, is_monthly_candidate, day_key_of, iso_week_key_of, month_key_of,
}

any-insert :
    {A : Type 0} (p : A → Bool) (key : A → ℕ) (x : A) (xs : List A)
    → any p (insert key x xs) ≡ (p x || any p xs)
any-insert p key x [] = refl
any-insert p key x (y ∷ ys) = ground (arith, any-insert p key x ys)

any-sort_down :
    {A : Type 0} (p : A → Bool) (key : A → ℕ) (xs : List A) → any p (sort_down key xs) ≡ any p xs
any-sort_down p key [] = refl
any-sort_down p key (x ∷ xs) =
    ground (arith, any-insert p key x (sort_down key xs), any-sort_down p key xs)

abbrev has_group : String → List (ℕ × SnapshotMetadata) → Bool
has_group path groups = any (λ g. str_eq g.1.path path) groups

has_group-add_representative :
    (path : String) (key : ℕ) (s : SnapshotMetadata) (groups : List (ℕ × SnapshotMetadata))
    → any (λ g. str_eq g.1.path path) (add_representative key s groups) ≡ true
    → (str_eq s.path path || any (λ g. str_eq g.1.path path) groups) ≡ true
unfolding add_representative
has_group-add_representative path key s [] h = h
has_group-add_representative path key s ((k, e) ∷ groups) h =
    ground (arith, has_group-add_representative path key s groups)

any-keep :
    (path : String) (q : SnapshotMetadata → Bool) (xs : List SnapshotMetadata)
    → has_entry path (keep q xs) ≡ true
    → has_entry path xs ≡ true
any-keep path q [] h = h
any-keep path q (x ∷ xs) h = ground (arith, any-keep path q xs)

any-take :
    {A : Type 0} (p : A → Bool) (n : ℕ) (xs : List A) → any p (take n xs) ≡ true → any p xs ≡ true
any-take p zero xs h = cc
any-take p (suc n) [] h = cc
any-take p (suc n) (x ∷ xs) h = ground (arith, any-take p n xs)

has_entry-without :
    (path : String) (tier xs : List SnapshotMetadata)
    → has_entry path (without tier xs) ≡ (has_entry path xs && not (has_entry path tier))
has_entry-without path tier [] = refl
has_entry-without path tier (x ∷ xs) =
    ground (arith, has_entry-without path tier xs, eq_iff x.path path)

has_entry-unique :
    (path : String) (seen : List String) (xs : List SnapshotMetadata)
    → has_entry path (unique seen xs) ≡ (has_entry path xs && not (any (λ p. str_eq p path) seen))
unfolding unique
has_entry-unique path seen [] = refl
has_entry-unique path seen (x ∷ xs) = ground (
  arith,
  has_entry-unique path (x.path ∷ seen) xs,
  has_entry-unique path seen xs,
  eq_iff x.path path,
)

has_group-representatives :
    (path : String) (key_of : SnapshotMetadata → ℕ) (groups : List (ℕ × SnapshotMetadata))
    (xs : List SnapshotMetadata)
    → has_group path (representatives key_of groups xs) ≡ true
    → (has_entry path xs || has_group path groups) ≡ true
unfolding representatives
has_group-representatives path key_of groups [] h = h
has_group-representatives path key_of groups (x ∷ xs) h = ground (
  arith,
  has_group-representatives path key_of (add_representative (key_of x) x groups) xs h,
  has_group-add_representative path (key_of x) x groups,
)

has_entry-map :
    (path : String) (groups : List (ℕ × SnapshotMetadata))
    → has_entry path (map (λ g. g.1) groups) ≡ has_group path groups
has_entry-map path [] = refl
has_entry-map path (g ∷ groups) =
    ap (λ (b : Bool). str_eq g.1.path path || b) (has_entry-map path groups)

or_false : (b : Bool) → (b || false) ≡ true → b ≡ true
or_false b h = ground arith

-- A tier keeps candidates only.
has_entry-pick_tier_keep :
    (path : String) (candidates : List SnapshotMetadata) (is_eligible : SnapshotMetadata → Bool)
    (key_of : SnapshotMetadata → ℕ) (limit : ℕ)
    → has_entry path (pick_tier_keep candidates is_eligible key_of limit) ≡ true
    → has_entry path candidates ≡ true
unfolding pick_tier_keep
has_entry-pick_tier_keep path candidates is_eligible key_of limit h =
    let groups = representatives key_of [] (keep is_eligible candidates) in
    let sorted = sort_down (λ g. g.0) groups in
    let a =
      any-take (λ g. str_eq g.1.path path) limit sorted
        (sym (has_entry-map path (take limit sorted)) ∙ h) in
    let b = sym (any-sort_down (λ g. str_eq g.1.path path) (λ g. g.0) groups) ∙ a in
    let c = has_group-representatives path key_of [] (keep is_eligible candidates) b in
    any-keep path is_eligible candidates (or_false (has_entry path (keep is_eligible candidates)) c)

length-take : {A : Type 0} (n : ℕ) (xs : List A) → length (take n xs) ≤ n
length-take zero xs = omega arith
length-take (suc n) [] = omega arith
length-take (suc n) (x ∷ xs) = omega (arith, length-take n xs)

length-map : (groups : List (ℕ × SnapshotMetadata)) → length (map (λ g. g.1) groups) ≡ length groups
length-map [] = refl
length-map (g ∷ groups) = ap suc (length-map groups)

length-pick_tier_keep :
    (candidates : List SnapshotMetadata) (is_eligible : SnapshotMetadata → Bool)
    (key_of : SnapshotMetadata → ℕ) (limit : ℕ)
    → length (pick_tier_keep candidates is_eligible key_of limit) ≤ limit
unfolding pick_tier_keep
length-pick_tier_keep candidates is_eligible key_of limit =
    let sorted = sort_down (λ g. g.0) (representatives key_of [] (keep is_eligible candidates)) in
    omega (arith, length-map (take limit sorted), length-take limit sorted)

length-unique :
    (seen : List String) (xs : List SnapshotMetadata) → length (unique seen xs) ≤ length xs
unfolding unique
length-unique seen [] = omega arith
length-unique seen (x ∷ xs) =
    ground (arith, length-unique (x.path ∷ seen) xs, length-unique seen xs)

has_entry-append :
    (path : String) (xs ys : List SnapshotMetadata)
    → has_entry path (xs ++ ys) ≡ (has_entry path xs || has_entry path ys)
has_entry-append path [] ys = refl
has_entry-append path (x ∷ xs) ys = ground (arith, has_entry-append path xs ys)

-- A tier that picks from the candidates that are left picks from all.
pick-left :
    (path : String) (all_entries left : List SnapshotMetadata)
    (is_eligible : SnapshotMetadata → Bool) (key_of : SnapshotMetadata → ℕ) (limit : ℕ)
    → (has_entry path left ≡ true → has_entry path all_entries ≡ true)
    → (has_entry path (pick_tier_keep left is_eligible key_of limit)
        && not (has_entry path all_entries))
      ≡ false
pick-left path all_entries left is_eligible key_of limit h =
    ground (arith, has_entry-pick_tier_keep path left is_eligible key_of limit)

-- The rest of the plan, for any three tiers.
three_tiers :
    (path : String) (snapshots sorted d w m : List SnapshotMetadata)
    → has_entry path sorted ≡ has_entry path snapshots
    → (has_entry path d && not (has_entry path sorted)) ≡ false
    → (has_entry path w && not (has_entry path sorted)) ≡ false
    → (has_entry path m && not (has_entry path sorted)) ≡ false
    → let kept = unique [] (d ++ w ++ m) in
      ((has_entry path kept || has_entry path (without kept sorted)) ≡ has_entry path snapshots)
      × ((has_entry path kept && has_entry path (without kept sorted)) ≡ false)
three_tiers path snapshots sorted d w m h i j k =
    let kept = unique [] (d ++ w ++ m) in
    ground (
      arith,
      has_entry-without path kept sorted,
      has_entry-unique path [] (d ++ w ++ m),
      has_entry-append path (d ++ w) m,
      has_entry-append path d w,
    )

-- Every snapshot of a plan is kept or deleted and none is both, nothing else is in the plan, and as
-- many are kept at most as the policy allows for days, weeks and months together.
pub plan_retention_lem :
    (snapshots : List SnapshotMetadata) (policy : RetentionPolicy) (reference : ℕ) (path : String)
    → let plan = plan_retention snapshots policy reference in
      ((has_entry path plan.kept || has_entry path plan.deleted) ≡ has_entry path snapshots)
      × ((has_entry path plan.kept && has_entry path plan.deleted) ≡ false)
      × (length plan.kept
          ≤ policy.daily_retention + policy.weekly_retention + policy.monthly_retention)
unfolding plan_retention
plan_retention_lem snapshots policy reference path =
    let sorted = sort_down (λ s. s.created_at) snapshots in
    let d =
      pick_tier_keep sorted (is_daily_candidate reference) day_key_of policy.daily_retention in
    let left = without d sorted in
    let w =
      pick_tier_keep left (is_weekly_candidate reference) iso_week_key_of policy.weekly_retention in
    let m =
      pick_tier_keep (without w left) (is_monthly_candidate reference) month_key_of
        policy.monthly_retention in
    let tiers =
      three_tiers path snapshots sorted d w m
        (any-sort_down (λ e. str_eq e.path path) (λ s. s.created_at) snapshots)
        (pick-left path sorted sorted (is_daily_candidate reference) day_key_of
          policy.daily_retention (λ h. h))
        (pick-left path sorted left (is_weekly_candidate reference) iso_week_key_of
          policy.weekly_retention (any-keep path _ sorted))
        (pick-left path sorted (without w left) (is_monthly_candidate reference) month_key_of
          policy.monthly_retention (λ h. any-keep path _ sorted (any-keep path _ left h))) in
    (
      tiers.0,
      tiers.1,
      omega (
        arith,
        length-unique [] (d ++ w ++ m),
        length-append (d ++ w) m,
        length-append d w,
        length-pick_tier_keep sorted (is_daily_candidate reference) day_key_of
            policy.daily_retention,
        length-pick_tier_keep left (is_weekly_candidate reference) iso_week_key_of
            policy.weekly_retention,
        length-pick_tier_keep (without w left) (is_monthly_candidate reference) month_key_of
            policy.monthly_retention,
      ),
    )
