-- ===== src/Consent/RepositoryJson/Laws.antt =====
-- The JSON repository and the interface's laws, while memory and file agree.
use ido_bata_server_bot.Prelude.{
  String, ◌≡◌, ◌⊎◌, inl, Bool, true, false, List, [], ◌∷◌, refl, sym, arith, not, length,
  length-keep-le, str_eq, ◌==◌, if-intro, all-keep, all, any, any-find_index, if◌then◌else◌, Done,
  ok,
}
use ido_bata_server_bot.Consent.Types.{ConsentScope, ConsentRecord, has_key, is_valid_record}
use ido_bata_server_bot.Consent.Repository.{
  IsRepository, Writes, upsert_row, remove_row, clear_rows,
}
use ido_bata_server_bot.Consent.Repository.Rows.{
  upsert_row-valid, remove_row-valid, remove_row_absent,
}
use ido_bata_server_bot.Consent.RepositoryJson.{
  store_json, missing, present, JsonRepository, load, persist, save, upsert, remove, clear_subject,
  json_repository, then_true,
}

-- Memory and file agree, and reads succeed. Writes may still fail.
pub record IsReady (s : JsonRepository) : Type 0 where
  pub readable : s.disk.reads ≡ []
  pub in_step :
      ((s.disk.file ≡ missing) × (s.records ≡ []) × (s.last_load_existed ≡ false))
      ⊎ ((s.disk.file ≡ present (store_json 1 s.records))
          × (all is_valid_record s.records ≡ true)
          × (s.last_load_existed ≡ true)
          × (s.last_load_recognised ≡ true))

abbrev pub stored : JsonRepository → List ConsentRecord
stored s = s.records

load_ready : (s : JsonRepository) → IsReady s → IsReady (load s).1
unfolding load
load_ready s h = ground arith

load_stored :
    (s : JsonRepository)
    → IsReady s
    → ((load s).0 ≡ ok s.records) × ((load s).1.records ≡ s.records)
unfolding load
load_stored s h = ground arith

pub persist_ready :
    (rs : List ConsentRecord) (s : JsonRepository)
    → all is_valid_record rs ≡ true
    → IsReady s
    → IsReady (persist rs s).1
unfolding persist
persist_ready rs s v h = ground arith

persist-stored :
    (rs : List ConsentRecord) (s : JsonRepository)
    → IsReady s
    → Writes stored s.records tt rs (persist rs s)
unfolding persist
persist-stored rs s h = ground arith

valid_memory : (s : JsonRepository) → IsReady s → all is_valid_record s.records ≡ true
valid_memory s h = ground arith

if_then_true_ready :
    (b : Bool) (r : Done × JsonRepository) (s : JsonRepository)
    → IsReady r.1
    → IsReady s
    → IsReady (if b then then_true r else (ok false, s)).1
if_then_true_ready b r s h k = ground arith

then_true-stored :
    (b : Bool) (r : Done × JsonRepository) (s : JsonRepository) (after : List ConsentRecord)
    → (b ≡ false → after ≡ s.records)
    → Writes stored s.records tt after r
    → Writes stored s.records b after (if b then then_true r else (ok false, s))
then_true-stored b r s after e h = ground arith

-- `upsert` is a `save` of the rows with the record in them.
upsert-persist :
    (r : ConsentRecord) (s : JsonRepository) → upsert r s ≡ persist (upsert_row r s.records) s
unfolding upsert upsert_row
upsert-persist r s = ground arith

remove-persist :
    (subject : String) (scope : ConsentScope) (s : JsonRepository)
    → remove subject scope s ≡ (
        if any (has_key subject scope) s.records
        then then_true (persist (remove_row subject scope s.records) s)
        else (ok false, s))
unfolding remove remove_row
remove-persist subject scope s = ground (arith, any-find_index (has_key subject scope) s.records)

upsert_ready :
    (r : ConsentRecord) (s : JsonRepository)
    → is_valid_record r ≡ true
    → IsReady s
    → IsReady (upsert r s).1
upsert_ready r s v h =
    rw (upsert-persist r s)
      (persist_ready _ s (upsert_row-valid r s.records v (valid_memory s h)) h)

remove_ready :
    (subject : String) (scope : ConsentScope) (s : JsonRepository)
    → IsReady s
    → IsReady (remove subject scope s).1
remove_ready subject scope s h = rw (remove-persist subject scope s) (
    if_then_true_ready (any (has_key subject scope) s.records) _ s
      (persist_ready _ s (remove_row-valid subject scope s.records (valid_memory s h)) h) h)

remove_stored :
    (subject : String) (scope : ConsentScope) (s : JsonRepository)
    → IsReady s
    → Writes stored s.records
        (any (has_key subject scope) s.records)
        (remove_row subject scope s.records)
        (remove subject scope s)
remove_stored subject scope s h = rw (remove-persist subject scope s) (
    then_true-stored _ _ s (remove_row subject scope s.records)
      (remove_row_absent subject scope s.records) (persist-stored _ s h))

keep_same_length :
    (subject : String) (rs : List ConsentRecord)
    → length (clear_rows subject rs) ≡ length rs
    → clear_rows subject rs ≡ rs
unfolding clear_rows
keep_same_length subject [] h = refl
keep_same_length subject (r ∷ rs) h = ground (
  arith,
  keep_same_length subject rs,
  length-keep-le (λ (x : ConsentRecord). not (str_eq x.subject_id subject)) rs,
)

-- `clear_subject` is a `save` of the rows of the other subjects, left out when nothing would change.
clear_subject-persist :
    (subject : String) (s : JsonRepository)
    → clear_subject subject s ≡ (
        if length (clear_rows subject s.records) == length s.records
        then (ok tt, s)
        else persist (clear_rows subject s.records) s)
unfolding clear_subject clear_rows
clear_subject-persist subject s = refl

clear_rows-valid :
    (subject : String) (rs : List ConsentRecord)
    → all is_valid_record rs ≡ true
    → all is_valid_record (clear_rows subject rs) ≡ true
unfolding clear_rows
clear_rows-valid subject rs h =
    all-keep is_valid_record (λ r. not (str_eq r.subject_id subject)) rs h

clear_subject_ready :
    (subject : String) (s : JsonRepository) → IsReady s → IsReady (clear_subject subject s).1
clear_subject_ready subject s h = rw (clear_subject-persist subject s) (
    if-intro (λ (r : Done × JsonRepository). IsReady r.1)
      (length (clear_rows subject s.records) == length s.records) (λ _. h)
      (λ _. persist_ready _ s (clear_rows-valid subject s.records (valid_memory s h)) h))

clear_subject_stored :
    (subject : String) (s : JsonRepository)
    → IsReady s
    → Writes stored s.records tt (clear_rows subject s.records) (clear_subject subject s)
clear_subject_stored subject s h = rw (clear_subject-persist subject s) (
    if-intro (Writes stored s.records tt (clear_rows subject s.records))
      (length (clear_rows subject s.records) == length s.records)
      (λ e. inl (refl, sym (keep_same_length subject s.records (ground arith))))
      (λ _. persist-stored _ s h))

-- While memory and file agree and no read fails, the JSON file implements the storage interface, all
-- five operations of it: a call that throws leaves the stored rows as they were, any other has
-- exactly the effect that the interface names, and the agreement is kept.
pub json_repository-IsRepository : IsRepository json_repository stored IsReady
unfolding json_repository save
json_repository-IsRepository = record {
  stored_valid = valid_memory;
  load_ready = load_ready;
  load_stored = λ s h. inl (load_stored s h);
  save_ready = persist_ready;
  save_stored = persist-stored;
  upsert_ready = upsert_ready;
  upsert_stored = λ r s h. rw (upsert-persist r s) (persist-stored _ s h);
  remove_ready = remove_ready;
  remove_stored = remove_stored;
  clear_subject_ready = clear_subject_ready;
  clear_subject_stored = clear_subject_stored;
}
