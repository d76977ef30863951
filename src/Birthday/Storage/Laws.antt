-- ===== src/Birthday/Storage/Laws.antt =====
-- A registry that was saved is the one that a later load reads.
use ido_bata_server_bot.Prelude.{◌≡◌, refl, Bool, true, String, [], ok}
use ido_bata_server_bot.Storage.AtomicJson.{
  Result, value, JsonFile, stored, Disk, read_json_file, read_existing, parse_content,
}
use ido_bata_server_bot.Storage.Mutation.{
  IsMutation, absent, created, untouched, replaced, failed, mutate_json_file-IsMutation,
}
use ido_bata_server_bot.Birthday.Storage.{
  BirthdayStore, is_valid_store, after_load, load_birthdays, save_options, save_birthdays,
}

module _ (is_date : String → Bool) where
  -- A save that is answered with success has written.
  save-stored :
      (store : BirthdayStore) (before after : JsonFile BirthdayStore) (r : Result Bool) (b : Bool)
      → IsMutation (save_options is_date store) before r after
      → r ≡ value b
      → after ≡ stored store
  save-stored store _ _ _ b (absent c) h = cc
  save-stored store _ _ _ b (created t c i) h = refl
  save-stored store _ _ _ b (untouched t v m) h = cc
  save-stored store _ _ _ b (replaced t next v m) h = cc
  save-stored store _ _ _ b (failed file e) h = cc

  load-stored :
      (store : BirthdayStore) (d : Disk BirthdayStore)
      → is_valid_store is_date store ≡ true
      → d.file ≡ stored store
      → d.reads ≡ []
      → (load_birthdays is_date d).0 ≡ ok store
  unfolding load_birthdays after_load read_json_file read_existing parse_content
  load-stored store d v h r = rw h (rw r (rw v refl))

  -- A save answered with success is durable.
  pub load_birthdays-save_birthdays :
      (store : BirthdayStore) (d : Disk BirthdayStore) (changed : Bool)
      → is_valid_store is_date store ≡ true
      → (save_birthdays is_date store d).0 ≡ value changed
      → (save_birthdays is_date store d).1.reads ≡ []
      → (load_birthdays is_date (save_birthdays is_date store d).1).0 ≡ ok store
  unfolding save_birthdays
  load_birthdays-save_birthdays store d changed v h r =
      load-stored store (save_birthdays is_date store d).1 v
        (save-stored store d.file _ _ changed
          (mutate_json_file-IsMutation (save_options is_date store) d).0 h)
        r
