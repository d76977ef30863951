-- ===== src/Storage/AtomicJson.antt =====
-- src/lib/storage/atomic-json.ts. What the file system answers is planned ahead, one entry for each
-- coming read and write; the test of the schema library is a parameter. A value that `mutate`
-- returns unchanged (the same reference) is `none`.
use ido_bata_server_bot.Prelude.{
  ℕ, ◌+◌, ◌-◌, Bool, true, false, Option, none, some, List, if◌then◌else◌, next_outcome,
}

-- The texts of errors, by what made them.
pub data JsonError : Type 0 where
  enoent read_failed parse_failed schema_mismatch initial_required : JsonError
  mkdir_failed open_failed temp_write_failed close_failed rename_failed : JsonError

-- `ReadJsonFileResult` and `MutateJsonFileResult`, whose value is `mutated`
pub data Result {ℓ} (A : Type ℓ) : Type ℓ where
  value : A → Result A
  error : JsonError → Result A

-- `garbled` is no JSON, `foreign` is JSON of another shape.
pub data JsonFile {ℓ} (T : Type ℓ) : Type ℓ where
  missing garbled foreign : JsonFile T
  stored : T → JsonFile T

-- Where an atomic write stops.
pub data WriteOutcome : Type 0 where
  written no_directory no_temp_file torn unclosed unrenamed : WriteOutcome

pub record Disk {ℓ} (T : Type ℓ) : Type ℓ where
  pub file : JsonFile T
  -- temporary files beside it
  pub temps : ℕ
  -- does each coming read succeed?
  pub reads : List Bool
  pub writes : List WriteOutcome

module _ {ℓ} {T : Type ℓ} where
  -- `JSON.parse` and `safeParse`
  unfoldable pub parse_content : (T → Bool) → JsonFile T → Result T
  parse_content valid missing = error enoent
  parse_content valid garbled = error parse_failed
  parse_content valid foreign = error schema_mismatch
  parse_content valid (stored t) = if valid t then value t else error schema_mismatch

  -- Opening a file that is missing fails before it is read.
  unfoldable pub read_existing : (T → Bool) → JsonFile T → List Bool → Result T × List Bool
  unfolding parse_content
  read_existing valid missing reads = (error enoent, reads)
  read_existing valid file reads =
      let (readable, rest) = next_outcome true reads in
      (if readable then parse_content valid file else error read_failed, rest)

  -- `readJsonFile`
  unfoldable pub read_json_file : (T → Bool) → Disk T → Result T × Disk T
  unfolding read_existing
  read_json_file valid d =
      let (result, reads) = read_existing valid d.file d.reads in
      (result, record d { reads = reads })

  unfoldable pub create_temp : Disk T → Disk T
  create_temp d = record d { temps = d.temps + 1 }

  -- `rmSync` of the temporary file, or its rename
  unfoldable pub remove_temp : Disk T → Disk T
  remove_temp d = record d { temps = d.temps - 1 }

  unfoldable pub finish_write : WriteOutcome → T → Disk T → Result (Unit {0}) × Disk T
  unfolding create_temp remove_temp
  finish_write no_directory next d = (error mkdir_failed, d)
  finish_write no_temp_file next d = (error open_failed, d)
  finish_write torn next d = (error temp_write_failed, remove_temp (create_temp d))
  finish_write unclosed next d = (error close_failed, remove_temp (create_temp d))
  finish_write unrenamed next d = (error rename_failed, remove_temp (create_temp d))
  finish_write written next d =
      (value tt, record (remove_temp (create_temp d)) { file = stored next })

  unfoldable pub atomic_write_json : T → Disk T → Result (Unit {0}) × Disk T
  unfolding finish_write
  atomic_write_json next d =
      let (outcome, rest) = next_outcome written d.writes in
      finish_write outcome next (record d { writes = rest })

-- `MutateJsonFileOptions`
pub record Options {ℓ} (T : Type ℓ) : Type ℓ where
  pub valid : T → Bool
  pub mutate : T → Option T
  pub create_if_missing : Bool
  pub initial : Option T

-- The value that `mutate` returns, changed or not.
abbrev pub result_of {ℓ} : {T : Type ℓ} → T → Option T → T
result_of t none = t
result_of t (some next) = next

module _ {ℓ} {T : Type ℓ} where
  unfoldable pub after_write : Result (Unit {0}) × Disk T → Result Bool × Disk T
  after_write (value _, d) = (value true, d)
  after_write (error e, d) = (error e, d)

  -- The first write of a missing file.
  unfoldable pub create_file : (T → Option T) → Option T → Disk T → Result Bool × Disk T
  unfolding atomic_write_json after_write
  create_file mutate none d = (error initial_required, d)
  create_file mutate (some t) d = after_write (atomic_write_json (result_of t (mutate t)) d)

  -- The write of what `mutate` returned for the current value.
  unfoldable pub write_changed : Option T → Disk T → Result Bool × Disk T
  unfolding atomic_write_json after_write
  write_changed none d = (value false, d)
  write_changed (some next) d = after_write (atomic_write_json next d)

  unfoldable pub mutate_read : Options T → Result T × Disk T → Result Bool × Disk T
  unfolding create_file write_changed
  mutate_read options (value current, d) = write_changed (options.mutate current) d
  mutate_read options (error enoent, d) =
      if options.create_if_missing
      then create_file options.mutate options.initial d
      else (value false, d)
  mutate_read options (error e, d) = (error e, d)

  unfoldable pub mutate_json_file : Options T → Disk T → Result Bool × Disk T
  unfolding read_json_file mutate_read
  mutate_json_file options d = mutate_read options (read_json_file options.valid d)
