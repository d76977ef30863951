-- ===== src/Birthday/Storage.antt =====
-- src/features/birthday-role/storage.ts over the shared JSON file. `is_date` is the pattern of the
-- schema; the time of a write is given.
pub mod Laws
use ido_bata_server_bot.Prelude.{
  Bool, true, not, ◌&&◌, String, Option, none, some, List, [], if◌then◌else◌, str_eq, is_none, all,
  map, get, put, delete, Outcome, ok, threw, refused,
}
use ido_bata_server_bot.Storage.AtomicJson.{
  Result, value, error, enoent, Disk, Options, read_json_file, mutate_json_file,
}

pub record BirthdayEntry : Type 0 where
  pub user_id : String
  pub date : String
  pub updated_at : String

-- `birthdays`, by user
abbrev pub BirthdayStore : Type 0
BirthdayStore = List (String × BirthdayEntry)

module _ (is_date : String → Bool) where
  -- `birthdayEntrySchema` and `birthdayStoreSchema`
  abbrev is_valid_entry : BirthdayEntry → Bool
  is_valid_entry e = not (str_eq e.user_id "") && (is_date e.date && not (str_eq e.updated_at ""))

  unfoldable pub is_valid_store : BirthdayStore → Bool
  is_valid_store store = all (λ e. is_valid_entry e.1) store

  unfoldable pub after_load : Result BirthdayStore → Outcome BirthdayStore
  after_load (value store) = ok store
  after_load (error enoent) = ok []
  after_load (error e) = threw refused

  unfoldable pub load_birthdays : Disk BirthdayStore → Outcome BirthdayStore × Disk BirthdayStore
  unfolding after_load
  load_birthdays d =
      let (result, next) = read_json_file is_valid_store d in (after_load result, next)

  abbrev pub save_options : BirthdayStore → Options BirthdayStore
  save_options store = record {
    valid = is_valid_store;
    mutate = λ _. some store;
    create_if_missing = true;
    initial = some [];
  }

  unfoldable pub save_birthdays :
      BirthdayStore → Disk BirthdayStore → Result Bool × Disk BirthdayStore
  save_birthdays store d = mutate_json_file (save_options store) d

unfoldable pub set_birthday : BirthdayStore → String → String → String → BirthdayStore
set_birthday store user date now =
    put user (record { user_id = user; date = date; updated_at = now }) store

unfoldable pub remove_birthday : BirthdayStore → String → BirthdayStore
remove_birthday store user = if is_none (get user store) then store else delete user store

unfoldable pub list_birthdays : BirthdayStore → List BirthdayEntry
list_birthdays store = map (λ e. e.1) store
