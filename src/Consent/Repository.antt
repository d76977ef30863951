-- ===== src/Consent/Repository.antt =====
-- src/consent/repository.ts: the storage interface that the service works with, and the laws that
-- an implementation has while its storage is in order.
pub mod Rows
use ido_bata_server_bot.Prelude.{
  String, ◌≡◌, ◌⊎◌, Bool, true, false, none, some, List, [], ◌∷◌, ◌++◌, set, remove_at, find_index,
  any, all, keep, not, str_eq, Outcome, Done, ok, succeeded,
}
use ido_bata_server_bot.Consent.Types.{ConsentScope, ConsentRecord, has_key, is_valid_record}

pub record ConsentRepository (S : Type 0) : Type 0 where
  pub load : S → Outcome (List ConsentRecord) × S
  pub save : List ConsentRecord → S → Done × S
  pub upsert : ConsentRecord → S → Done × S
  pub remove : String → ConsentScope → S → Outcome Bool × S
  pub clear_subject : String → S → Done × S

-- The list that `upsert` writes: the first row with the record's key is replaced.
unfoldable pub upsert_row : ConsentRecord → List ConsentRecord → List ConsentRecord
upsert_row r records = elim (find_index (has_key r.subject_id r.scope) records) [
  | none ↦ records ++ r ∷ []
  | some index ↦ set records index r
]

-- The list that `remove` writes: without the first row with the key.
unfoldable pub remove_row : String → ConsentScope → List ConsentRecord → List ConsentRecord
remove_row subject scope records = elim (find_index (has_key subject scope) records) [
  | none ↦ records
  | some index ↦ remove_at index records
]

-- The list that `clearSubject` writes: without the subject's rows.
unfoldable pub clear_rows : String → List ConsentRecord → List ConsentRecord
clear_rows subject records = keep (λ r. not (str_eq r.subject_id subject)) records

-- A call either returns `a` and leaves `after` in the storage, or throws and leaves `before`.
abbrev pub Writes :
    {S A : Type 0}
    → (S → List ConsentRecord)
    → List ConsentRecord
    → A
    → List ConsentRecord
    → Outcome A × S
    → Type 0
Writes stored before a after result =
    ((result.0 ≡ ok a) × (stored result.1 ≡ after))
    ⊎ ((succeeded result.0 ≡ false) × (stored result.1 ≡ before))

-- What a client may rely on: `stored` is what the storage holds, and `Ready` says that it is in
-- order.
pub record IsRepository {S : Type 0} (repository : ConsentRepository S)
    (stored : S → List ConsentRecord) (Ready : S → Type 0) : Type 0 where
  pub stored_valid : (s : S) → Ready s → all is_valid_record (stored s) ≡ true
  pub load_ready : (s : S) → Ready s → Ready (repository.load s).1
  pub load_stored :
      (s : S) → Ready s → Writes stored (stored s) (stored s) (stored s) (repository.load s)
  pub save_ready :
      (rs : List ConsentRecord) (s : S)
      → all is_valid_record rs ≡ true
      → Ready s
      → Ready (repository.save rs s).1
  pub save_stored :
      (rs : List ConsentRecord) (s : S)
      → Ready s
      → Writes stored (stored s) tt rs (repository.save rs s)
  pub upsert_ready :
      (r : ConsentRecord) (s : S)
      → is_valid_record r ≡ true
      → Ready s
      → Ready (repository.upsert r s).1
  pub upsert_stored :
      (r : ConsentRecord) (s : S)
      → Ready s
      → Writes stored (stored s) tt (upsert_row r (stored s)) (repository.upsert r s)
  pub remove_ready :
      (subject : String) (scope : ConsentScope) (s : S)
      → Ready s
      → Ready (repository.remove subject scope s).1
  pub remove_stored :
      (subject : String) (scope : ConsentScope) (s : S)
      → Ready s
      → Writes stored
          (stored s)
          (any (has_key subject scope) (stored s))
          (remove_row subject scope (stored s))
          (repository.remove subject scope s)
  pub clear_subject_ready :
      (subject : String) (s : S) → Ready s → Ready (repository.clear_subject subject s).1
  pub clear_subject_stored :
      (subject : String) (s : S)
      → Ready s
      → Writes stored
          (stored s)
          tt
          (clear_rows subject (stored s))
          (repository.clear_subject subject s)
