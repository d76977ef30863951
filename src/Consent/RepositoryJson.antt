-- ===== src/Consent/RepositoryJson.antt =====
-- src/consent/repository-json.ts: the registry in one JSON file. What the file system answers is
-- planned ahead, one entry for each coming call.
pub mod Laws
pub mod Durability
use ido_bata_server_bot.Prelude.{
  ℕ, ◌+◌, String, ◌≡◌, Bool, true, false, not, ◌&&◌, Option, none, some, List, [], ◌∷◌, ◌++◌, ◌==◌,
  if◌then◌else◌, set, remove_at, keep, find_index, all, length, str_eq, Failure, io_failure,
  refused, Outcome, Done, ok, threw, next_outcome,
}
use ido_bata_server_bot.Consent.Types.{ConsentScope, ConsentRecord, has_key, is_valid_record}
use ido_bata_server_bot.Consent.Repository.{ConsentRepository}

-- The bytes of a file: no JSON, JSON of another shape, or a `schemaVersion` with records.
pub data Content : Type 0 where
  not_json : Content
  other_json : Content
  store_json : ℕ → List ConsentRecord → Content

pub data File : Type 0 where
  missing : File
  present : Content → File

-- Where an atomic write stops: making the directory or opening the temporary file fails, writing
-- it fails (disk full), renaming it fails, or nothing does.
pub data WriteOutcome : Type 0 where
  open_fails write_fails rename_fails written : WriteOutcome

pub record Disk : Type 0 where
  pub file : File
  -- the `.unrecognised-<ts>.bak` files
  pub backups : List Content
  -- temporary files left behind
  pub temps : ℕ
  -- does each coming read, backup rename and write succeed?
  pub reads : List Bool
  pub moves : List Bool
  pub writes : List WriteOutcome

pub record LoadedFile : Type 0 where
  pub records : List ConsentRecord
  pub recognised : Bool
  pub existed : Bool

abbrev pub current_schema_version : ℕ
current_schema_version = 1

-- `storeSchema.safeParse`
unfoldable pub safe_parse : Content → Option (List ConsentRecord)
safe_parse not_json = none
safe_parse other_json = none
safe_parse (store_json version records) =
    if version == current_schema_version && all is_valid_record records then some records else none

abbrev unrecognised : LoadedFile
unrecognised = record { records = []; recognised = false; existed = true }

-- The rename of a file that failed the schema; a failing rename is swallowed.
back_up : Content → Disk → Disk
back_up content d =
    let (moved, rest) = next_outcome true d.moves in
    if moved
    then record d { file = missing; backups = content ∷ d.backups; moves = rest }
    else record d { moves = rest }

-- The part of `loadFromDisk` behind a successful read.
parse_content : Content → Disk → LoadedFile × Disk
unfolding safe_parse back_up
parse_content not_json d = (unrecognised, d)
parse_content content d = elim (safe_parse content) [
  | none ↦ (unrecognised, back_up content d)
  | some records ↦ (record { records = records; recognised = true; existed = true }, d)
]

load_file : File → Disk → LoadedFile × Disk
unfolding parse_content
load_file missing d = (record { records = []; recognised = false; existed = false }, d)
load_file (present content) d =
    let (readable, rest) = next_outcome true d.reads in
    if readable
    then parse_content content (record d { reads = rest })
    else (unrecognised, record d { reads = rest })

unfoldable pub load_from_disk : Disk → LoadedFile × Disk
unfolding load_file
load_from_disk d = load_file d.file d

finish_write : WriteOutcome → Content → Disk → Done × Disk
finish_write open_fails content d = (threw io_failure, d)
finish_write write_fails content d = (threw io_failure, record d { temps = d.temps + 1 })
finish_write rename_fails content d = (threw io_failure, d)
finish_write written content d = (ok tt, record d { file = present content })

-- `ensureDir` and `atomicWriteJson`
unfoldable pub atomic_write_json : Content → Disk → Done × Disk
unfolding finish_write
atomic_write_json content d =
    let (outcome, rest) = next_outcome written d.writes in
    finish_write outcome content (record d { writes = rest })

pub record JsonRepository : Type 0 where
  pub disk : Disk
  pub records : List ConsentRecord
  pub last_load_recognised : Bool
  pub last_load_existed : Bool

-- `createJsonConsentRepository`
unfoldable pub create_json_consent_repository : Disk → JsonRepository
create_json_consent_repository d = record {
  disk = d;
  records = [];
  last_load_recognised = true;
  last_load_existed = false;
}

unfoldable pub load : JsonRepository → Outcome (List ConsentRecord) × JsonRepository
unfolding load_from_disk
load s =
    let (result, d) = load_from_disk s.disk in
    (
      ok result.records,
      record {
        disk = d;
        records = result.records;
        last_load_recognised = result.recognised;
        last_load_existed = result.existed;
      },
    )

abbrev after_write : List ConsentRecord → JsonRepository → Done × Disk → Done × JsonRepository
after_write next s (ok _, d) = (
  ok tt,
  record { disk = d; records = next; last_load_recognised = true; last_load_existed = true },
)
after_write next s (threw e, d) = (threw e, record s { disk = d })

unfoldable pub persist : List ConsentRecord → JsonRepository → Done × JsonRepository
unfolding atomic_write_json
persist next s =
    if s.last_load_existed && not s.last_load_recognised
    then (threw refused, s)
    else after_write next s (atomic_write_json (store_json current_schema_version next) s.disk)

unfoldable pub save : List ConsentRecord → JsonRepository → Done × JsonRepository
unfolding persist
save next s = persist next s

unfoldable pub upsert : ConsentRecord → JsonRepository → Done × JsonRepository
unfolding persist
upsert r s = elim (find_index (has_key r.subject_id r.scope) s.records) [
  | none ↦ persist (s.records ++ r ∷ []) s
  | some index ↦ persist (set s.records index r) s
]

abbrev then_true : Done × JsonRepository → Outcome Bool × JsonRepository
then_true (ok _, s) = (ok true, s)
then_true (threw e, s) = (threw e, s)

unfoldable pub remove : String → ConsentScope → JsonRepository → Outcome Bool × JsonRepository
unfolding persist
remove subject scope s = elim (find_index (has_key subject scope) s.records) [
  | none ↦ (ok false, s)
  | some index ↦ then_true (persist (remove_at index s.records) s)
]

unfoldable pub clear_subject : String → JsonRepository → Done × JsonRepository
unfolding persist
clear_subject subject s =
    let next = keep (λ r. not (str_eq r.subject_id subject)) s.records in
    if length next == length s.records then (ok tt, s) else persist next s

unfoldable pub json_repository : ConsentRepository JsonRepository
json_repository = record {
  load = load;
  save = save;
  upsert = upsert;
  remove = remove;
  clear_subject = clear_subject;
}
