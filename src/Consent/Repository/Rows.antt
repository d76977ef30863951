-- ===== src/Consent/Repository/Rows.antt =====
-- What `upsert` and `remove` do to the list of rows, in the form that proofs by induction use.
use ido_bata_server_bot.Prelude.{
  ◌-◌, ◌≤◌, String, ◌≡◌, refl, Bool, true, false, ◌&&◌, none, some, List, [], ◌∷◌, if◌then◌else◌,
  arith, find, any, all, count, max, Bool-cases, ◌≢◌, inl, inr, eq_iff,
}
use ido_bata_server_bot.Consent.Types.{
  ConsentScope, ConsentRecord, has_key, is_active, is_valid_record, has_key_iff,
}
use ido_bata_server_bot.Consent.Repository.{upsert_row, remove_row, clear_rows}

module _ (r x : ConsentRecord) (xs : List ConsentRecord) where
  upsert_row-cons :
      upsert_row r (x ∷ xs)
      ≡ (if has_key r.subject_id r.scope x then r ∷ xs else x ∷ upsert_row r xs)
  unfolding upsert_row
  upsert_row-cons = ground arith

module _ (subject : String) (scope : ConsentScope) (x : ConsentRecord)
    (xs : List ConsentRecord) where
  pub remove_row-cons :
      remove_row subject scope (x ∷ xs)
      ≡ (if has_key subject scope x then xs else x ∷ remove_row subject scope xs)
  unfolding remove_row
  remove_row-cons = ground arith

pub upsert_row-valid :
    (r : ConsentRecord) (rs : List ConsentRecord)
    → is_valid_record r ≡ true
    → all is_valid_record rs ≡ true
    → all is_valid_record (upsert_row r rs) ≡ true
upsert_row-valid r [] v h = unfold upsert_row in ground arith
upsert_row-valid r (x ∷ xs) v h = ground (arith, upsert_row-cons r x xs, upsert_row-valid r xs)

pub remove_row-valid :
    (subject : String) (scope : ConsentScope) (rs : List ConsentRecord)
    → all is_valid_record rs ≡ true
    → all is_valid_record (remove_row subject scope rs) ≡ true
remove_row-valid subject scope [] h = unfold remove_row in refl
remove_row-valid subject scope (x ∷ xs) h =
    ground (arith, remove_row-cons subject scope x xs, remove_row-valid subject scope xs)

-- The active rows with a key: the ones that `authorize` looks for.
abbrev pub grants : String → ConsentScope → ConsentRecord → Bool
grants subject scope r = has_key subject scope r && is_active r

-- `remove` takes one row with the key away, if there is one, and no other.
pub count-remove_row_self :
    (subject : String) (scope : ConsentScope) (rs : List ConsentRecord)
    → count (has_key subject scope) (remove_row subject scope rs)
      ≡ count (has_key subject scope) rs - 1
count-remove_row_self subject scope [] = unfold remove_row in refl
count-remove_row_self subject scope (x ∷ xs) =
    ground (arith, remove_row-cons subject scope x xs, count-remove_row_self subject scope xs)

-- A fresh grant is the one that a search for its key finds.
pub find-upsert_row_self :
    (r : ConsentRecord) (rs : List ConsentRecord)
    → is_active r ≡ true
    → find (grants r.subject_id r.scope) (upsert_row r rs) ≡ some r
find-upsert_row_self r [] h =
    unfold upsert_row in ground (arith, has_key_iff r.subject_id r.scope r)
find-upsert_row_self r (x ∷ xs) h =
    ground
      (arith, upsert_row-cons r x xs, has_key_iff r.subject_id r.scope r, find-upsert_row_self r xs)

-- Two keys that one row has are the same key.
other_key :
    (r x : ConsentRecord) (subject : String) (scope : ConsentScope)
    → has_key subject scope r ≡ false
    → has_key r.subject_id r.scope x ≡ true
    → has_key subject scope x ≡ false
other_key r x subject scope p q = ground (
  arith,
  has_key_iff subject scope r,
  has_key_iff r.subject_id r.scope x,
  has_key_iff subject scope x,
)

-- An upsert leaves the search for any other key alone.
pub find-upsert_row_ne :
    (r : ConsentRecord) (subject : String) (scope : ConsentScope) (rs : List ConsentRecord)
    → has_key subject scope r ≡ false
    → find (grants subject scope) (upsert_row r rs) ≡ find (grants subject scope) rs
find-upsert_row_ne r subject scope [] h = unfold upsert_row in ground arith
find-upsert_row_ne r subject scope (x ∷ xs) h = ground (
  arith,
  upsert_row-cons r x xs,
  other_key r x subject scope h,
  find-upsert_row_ne r subject scope xs,
)

same_key :
    (r x : ConsentRecord) (subject : String) (scope : ConsentScope)
    → has_key subject scope r ≡ true
    → has_key subject scope x ≡ has_key r.subject_id r.scope x
same_key r x subject scope p = let (e, f) = (has_key_iff subject scope r).0 p in rw (e, f) refl

count-upsert_row_self :
    (r : ConsentRecord) (subject : String) (scope : ConsentScope) (rs : List ConsentRecord)
    → has_key subject scope r ≡ true
    → count (has_key subject scope) (upsert_row r rs) ≡ max 1 (count (has_key subject scope) rs)
count-upsert_row_self r subject scope [] h = unfold upsert_row in ground arith
count-upsert_row_self r subject scope (x ∷ xs) h = ground (
  arith,
  upsert_row-cons r x xs,
  same_key r x subject scope h,
  count-upsert_row_self r subject scope xs,
)

count-upsert_row_ne :
    (r : ConsentRecord) (subject : String) (scope : ConsentScope) (rs : List ConsentRecord)
    → has_key subject scope r ≡ false
    → count (has_key subject scope) (upsert_row r rs) ≡ count (has_key subject scope) rs
count-upsert_row_ne r subject scope [] h = unfold upsert_row in ground arith
count-upsert_row_ne r subject scope (x ∷ xs) h = ground (
  arith,
  upsert_row-cons r x xs,
  other_key r x subject scope h,
  count-upsert_row_ne r subject scope xs,
)

-- An upsert never makes a second row with a key.
pub count-upsert_row_le :
    (r : ConsentRecord) (subject : String) (scope : ConsentScope) (rs : List ConsentRecord)
    → count (has_key subject scope) (upsert_row r rs) ≤ max 1 (count (has_key subject scope) rs)
count-upsert_row_le r subject scope rs = elim (Bool-cases (has_key subject scope r)) [
  | inl e ↦ omega (arith, count-upsert_row_self r subject scope rs e)
  | inr e ↦ omega (arith, count-upsert_row_ne r subject scope rs e)
]

-- Without a row with the key there is no grant to find.
pub find-none_of_no_row :
    (subject : String) (scope : ConsentScope) (rs : List ConsentRecord)
    → count (has_key subject scope) rs ≡ 0
    → find (grants subject scope) rs ≡ none
find-none_of_no_row subject scope [] h = refl
find-none_of_no_row subject scope (x ∷ xs) h = ground (arith, find-none_of_no_row subject scope xs)

-- Removing one key leaves the search for any other alone.
pub find-remove_row_ne :
    (subject other : String) (scope scope' : ConsentScope) (rs : List ConsentRecord)
    → ((r : ConsentRecord) → has_key subject scope r ≡ true → has_key other scope' r ≡ false)
    → find (grants other scope') (remove_row subject scope rs) ≡ find (grants other scope') rs
find-remove_row_ne subject other scope scope' [] h = unfold remove_row in refl
find-remove_row_ne subject other scope scope' (x ∷ xs) h = ground (
  arith,
  remove_row-cons subject scope x xs,
  h x,
  find-remove_row_ne subject other scope scope' xs h,
)

-- A second active row outlives the removal of the first row with its key.
pub grant_outlives_remove_row :
    (subject : String) (scope : ConsentScope) (rs : List ConsentRecord)
    → 2 ≤ count (grants subject scope) rs
    → 1 ≤ count (grants subject scope) (remove_row subject scope rs)
grant_outlives_remove_row subject scope [] h = absurd (omega arith)
grant_outlives_remove_row subject scope (x ∷ xs) h =
    ground (arith, remove_row-cons subject scope x xs, grant_outlives_remove_row subject scope xs)

pub remove_row_absent :
    (subject : String) (scope : ConsentScope) (rs : List ConsentRecord)
    → any (has_key subject scope) rs ≡ false
    → remove_row subject scope rs ≡ rs
remove_row_absent subject scope [] h = unfold remove_row in refl
remove_row_absent subject scope (x ∷ xs) h =
    ground (arith, remove_row-cons subject scope x xs, remove_row_absent subject scope xs)

-- With at most one row for a key, its removal leaves no grant.
pub no_row_left :
    (subject : String) (scope : ConsentScope) (rs : List ConsentRecord)
    → count (has_key subject scope) rs ≤ 1
    → find (grants subject scope) (remove_row subject scope rs) ≡ none
no_row_left subject scope rs one =
    find-none_of_no_row subject scope (remove_row subject scope rs)
      (omega (arith, count-remove_row_self subject scope rs))

pub found_of_count :
    (p : ConsentRecord → Bool) (rs : List ConsentRecord) → 1 ≤ count p rs → find p rs ≢ none
found_of_count p [] h = absurd (omega arith)
found_of_count p (x ∷ xs) h = ground (arith, found_of_count p xs)

pub count-remove_row_le :
    (p : ConsentRecord → Bool) (subject : String) (scope : ConsentScope) (rs : List ConsentRecord)
    → count p (remove_row subject scope rs) ≤ count p rs
count-remove_row_le p subject scope [] = unfold remove_row in omega arith
count-remove_row_le p subject scope (x ∷ xs) =
    ground (arith, remove_row-cons subject scope x xs, count-remove_row_le p subject scope xs)

-- What no row satisfied, no row satisfies after a removal.
pub find-remove_row-none :
    (subject : String) (scope : ConsentScope) (p : ConsentRecord → Bool) (rs : List ConsentRecord)
    → find p rs ≡ none
    → find p (remove_row subject scope rs) ≡ none
find-remove_row-none subject scope p [] h = unfold remove_row in refl
find-remove_row-none subject scope p (x ∷ xs) h =
    ground (arith, remove_row-cons subject scope x xs, find-remove_row-none subject scope p xs)

pub clear_rows-remove_row :
    (subject : String) (scope : ConsentScope) (rs : List ConsentRecord)
    → clear_rows subject (remove_row subject scope rs) ≡ clear_rows subject rs
unfolding clear_rows
clear_rows-remove_row subject scope [] = unfold remove_row in refl
clear_rows-remove_row subject scope (x ∷ xs) = ground (
  arith,
  remove_row-cons subject scope x xs,
  clear_rows-remove_row subject scope xs,
  has_key_iff subject scope x,
  eq_iff x.subject_id subject,
)
