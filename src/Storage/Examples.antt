-- ===== src/Storage/Examples.antt =====
-- A mutation whose rename fails.
use ido_bata_server_bot.Prelude.{ℕ, ◌≡◌, refl, true, false, none, some, [], ◌∷◌}
use ido_bata_server_bot.Storage.AtomicJson.{
  Disk, Options, stored, error, rename_failed, unrenamed, mutate_json_file, read_json_file,
  read_existing, atomic_write_json, parse_content, mutate_read, write_changed, finish_write,
  after_write, create_temp, remove_temp,
}
use ido_bata_server_bot.Storage.Mutation.{IsMutation, mutate_json_file-IsMutation}

abbrev counting : Options ℕ
counting = record {
  valid = λ _. true;
  mutate = λ _. some 4;
  create_if_missing = false;
  initial = none;
}

abbrev disk : Disk ℕ
disk = record { file = stored 3; temps = 0; reads = []; writes = unrenamed ∷ [] }

failed_run :
    mutate_json_file counting disk
    ≡ (error rename_failed, record { file = stored 3; temps = 0; reads = []; writes = [] })
unfolding mutate_json_file read_json_file read_existing atomic_write_json parse_content mutate_read
    write_changed finish_write after_write create_temp remove_temp
failed_run = refl

written_run : (mutate_json_file counting (record disk { writes = [] })).1.file ≡ stored 4
unfolding mutate_json_file read_json_file read_existing atomic_write_json parse_content mutate_read
    write_changed finish_write after_write create_temp remove_temp
written_run = refl

mutate_json_file-IsMutation_example :
    IsMutation counting disk.file
      (mutate_json_file counting disk).0
      (mutate_json_file counting disk).1.file
    × ((mutate_json_file counting disk).1.temps ≡ 0)
mutate_json_file-IsMutation_example = mutate_json_file-IsMutation counting disk
