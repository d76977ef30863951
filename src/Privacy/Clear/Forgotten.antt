-- ===== src/Privacy/Clear/Forgotten.antt =====
-- What a clear that reports success has removed.
use ido_bata_server_bot.Prelude.{
  ◌≤◌, ◌≡◌, refl, ap, Bool, true, ◌&&◌, String, Option, none, some, List, [], ◌∷◌, ◌++◌, arith, inl,
  inr, all, all-append, and-true, get, find, count, Outcome, ok, threw, is_none, if-intro,
}
use mathlib.Core.Option
use ido_bata_server_bot.Consent.Types.{ConsentScope, ConsentRecord, has_key}
use ido_bata_server_bot.Consent.Repository.{ConsentRepository, IsRepository}
use ido_bata_server_bot.Consent.Repository.Rows.{grants}
use ido_bata_server_bot.Consent.Service.{Service, clear}
use ido_bata_server_bot.Consent.Service.Laws.{IsCoherent}
use ido_bata_server_bot.Consent.Service.Clear.{clear_removes_grants}
use ido_bata_server_bot.Storage.Erasure.{Satisfies}
use ido_bata_server_bot.Snapshots.Purge.{SnapshotDir, FreshHook}
use ido_bata_server_bot.Snapshots.Purge.Laws.Kept.{OnlyFresh, purge_all_snapshots-OnlyFresh}
use ido_bata_server_bot.Privacy.Consumers.{
  DeleteResult, deleted, failed, delete_attendance, delete_birthday, delete_snapshots,
  has_snapshots,
}
use ido_bata_server_bot.Privacy.Consumers.Laws.{
  no_reminder, no_part, delete_entry-gone, delete_reminders-gone, delete_votes-gone,
}
use ido_bata_server_bot.Privacy.Clear.{
  World, Consumer, is_deleted, registry_result, clear_consent, clear_user_data,
}

-- Nothing of the user is in the files; the snapshots were those of `before`.
pub record IsForgotten {S : Type 0} (user : String) (hook : Option FreshHook) (before : SnapshotDir)
    (w : World S) : Type 0 where
  pub no_attendance : Satisfies (λ m. get user m ≡ none) w.history.file
  pub no_birthday : Satisfies (λ m. get user m ≡ none) w.birthdays.file
  pub no_votes : Satisfies (λ ps. no_part user ps ≡ true) w.polls.file
  pub no_reminders : Satisfies (λ rs. no_reminder user rs ≡ true) w.reminders.file
  pub no_old_snapshot : OnlyFresh hook before w.snapshots

is_deleted-true : (r : DeleteResult) → is_deleted r ≡ true → r ≡ deleted
is_deleted-true deleted h = refl
is_deleted-true (failed e) h = cc

delete_snapshots-OnlyFresh :
    (locked : String → Bool) (hook : Option FreshHook) (dir : SnapshotDir)
    → (delete_snapshots locked hook dir).0 ≡ deleted
    → OnlyFresh hook dir (delete_snapshots locked hook dir).1
unfolding delete_snapshots
delete_snapshots-OnlyFresh locked hook dir =
    if-intro (λ (r : DeleteResult × SnapshotDir). r.0 ≡ deleted → OnlyFresh hook dir r.1)
      (is_none hook && has_snapshots dir) (λ _ h. cc)
      (λ _ h. elim (purge_all_snapshots-OnlyFresh locked hook dir) [
        | inl (e, d) ↦ absurd (cc)
        | inr only ↦ only
      ])

registry_result-deleted :
    (report : Outcome (List (ConsentScope × Bool)))
    → registry_result report ≡ deleted
    → (results : List (ConsentScope × Bool)) × ((report ≡ ok results)
        × (all (λ r. r.1) results ≡ true))
unfolding registry_result
registry_result-deleted (ok results) h = (results, (refl, ground arith))
registry_result-deleted (threw e) h = cc

-- The five results behind that of the registry, when all are good.
five_deleted :
    (registry : List (Consumer × DeleteResult)) (c1 c2 c3 c4 c5 : Consumer)
    (r1 r2 r3 r4 r5 : DeleteResult)
    → all
        (λ (r : Consumer × DeleteResult). is_deleted r.1)
        (registry ++ (c1, r1) ∷ (c2, r2) ∷ (c3, r3) ∷ (c4, r4) ∷ (c5, r5) ∷ [])
      ≡ true
    → (all (λ (r : Consumer × DeleteResult). is_deleted r.1) registry ≡ true)
      × ((r1 ≡ deleted) × ((r2 ≡ deleted) × ((r3 ≡ deleted) × ((r4 ≡ deleted) × (r5 ≡ deleted)))))
five_deleted registry c1 c2 c3 c4 c5 r1 r2 r3 r4 r5 h = ground (
  arith,
  all-append (λ (r : Consumer × DeleteResult). is_deleted r.1) registry
      ((c1, r1) ∷ (c2, r2) ∷ (c3, r3) ∷ (c4, r4) ∷ (c5, r5) ∷ []),
  is_deleted-true r1,
  is_deleted-true r2,
  is_deleted-true r3,
  is_deleted-true r4,
  is_deleted-true r5,
)

module _ {S : Type 0} (repository : ConsentRepository S) (locked : String → Bool)
    (hook : Option FreshHook) (subject at : String) where
  -- A clear that reports success has left nothing of the subject in the files of the five adapters: no
  -- attendance, no birthday, no poll that the subject made and no vote, no reminder, and no snapshot
  -- but the one that the hook has just taken. The rows of the consent registry are not among them.
  pub clear_user_data-IsForgotten :
      (w : World S)
      → (clear_user_data repository locked hook subject at w).0.ok ≡ true
      → IsForgotten subject hook w.snapshots (clear_user_data repository locked hook subject at w).1
  unfolding clear_user_data delete_attendance delete_birthday
  clear_user_data-IsForgotten w h =
      let (_, (h1, (h2, (h3, (h4, h5))))) =
        five_deleted (clear_consent repository subject at w.consent).0 _ _ _ _ _ _ _ _ _ _ h in
      record {
        no_attendance = delete_entry-gone subject w.history h1;
        no_birthday = delete_entry-gone subject w.birthdays h2;
        no_votes = delete_votes-gone subject w.polls h3;
        no_reminders = delete_reminders-gone subject w.reminders h4;
        no_old_snapshot = delete_snapshots-OnlyFresh locked hook w.snapshots h5;
      }

  registry_cleared :
      {stored : S → List ConsentRecord} {Ready : S → Type 0}
      (laws : IsRepository repository stored Ready) (service : Service S) (scope : ConsentScope)
      → IsCoherent stored Ready service
      → count (has_key subject scope) (stored service.storage) ≤ 1
      → all (λ r. is_deleted r.1) (clear_consent repository subject at (some service)).0 ≡ true
      → find (grants subject scope) (stored (clear repository subject none at service).1.storage)
        ≡ none
  unfolding clear_consent
  registry_cleared laws service scope coherent one h =
      let (results, (done, good)) =
        registry_result-deleted (clear repository subject none at service).0
          (is_deleted-true _ (and-true _ _ h).0) in
      clear_removes_grants laws subject none scope at service results coherent done good one

  -- A clear that reports success over a consent service in order has left the subject without a
  -- grant in any scope of which the storage had at most one row.
  pub clear_user_data_revokes :
      {stored : S → List ConsentRecord} {Ready : S → Type 0}
      (laws : IsRepository repository stored Ready) (w : World S) (service : Service S)
      (scope : ConsentScope)
      → w.consent ≡ some service
      → IsCoherent stored Ready service
      → count (has_key subject scope) (stored service.storage) ≤ 1
      → (clear_user_data repository locked hook subject at w).0.ok ≡ true
      → Option.map
          (λ s. find (grants subject scope) (stored s.storage))
          (clear_user_data repository locked hook subject at w).1.consent
        ≡ some none
  unfolding clear_user_data clear_consent
  clear_user_data_revokes laws w service scope given coherent one h =
      let good =
        (five_deleted (clear_consent repository subject at w.consent).0 _ _ _ _ _ _ _ _ _ _ h).0 in
      rw given (ap some (registry_cleared laws service scope coherent one (rw given at good)))
