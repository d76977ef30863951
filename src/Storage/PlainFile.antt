-- ===== src/Storage/PlainFile.antt =====
-- `writeFileSync` over a JSON file: it opens the file for writing, which empties it, and writes.
use ido_bata_server_bot.Prelude.{Done, ok, threw, io_failure}
use ido_bata_server_bot.Storage.AtomicJson.{JsonFile, garbled, stored}

-- What a write meets: it succeeds, the file cannot be opened, or the disk fills while it is written.
pub data PlainWrite : Type 0 where
  written unopened torn : PlainWrite

abbrev pub write_file {ℓ} : {T : Type ℓ} → PlainWrite → T → JsonFile T → Done × JsonFile T
write_file written value file = (ok tt, stored value)
write_file unopened value file = (threw io_failure, file)
write_file torn value file = (threw io_failure, garbled)
