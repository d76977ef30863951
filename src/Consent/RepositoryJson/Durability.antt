-- ===== src/Consent/RepositoryJson/Durability.antt =====
-- What the JSON file holds across crashes, restarts and files that fail the schema.
use ido_bata_server_bot.Prelude.{
  ℕ, ◌≡◌, ap, ◌∙◌, true, false, ◌&&◌, List, [], ◌∷◌, arith, all, ◌==◌, if◌then◌else◌, ok, threw,
  refused, succeeded,
}
use ido_bata_server_bot.Consent.Types.{ConsentRecord, is_valid_record}
use ido_bata_server_bot.Consent.RepositoryJson.{
  store_json, missing, present, JsonRepository, load, persist, save, create_json_consent_repository,
}
use ido_bata_server_bot.Consent.RepositoryJson.Laws.{IsReady, persist_ready}

-- A new process on the same disk.
abbrev pub restart : JsonRepository → JsonRepository
restart s = create_json_consent_repository s.disk

restart_load : (s : JsonRepository) → IsReady s → (load (restart s)).0 ≡ ok s.records
unfolding load create_json_consent_repository
restart_load s h = ground arith

saved_records :
    (rs : List ConsentRecord) (s : JsonRepository)
    → (persist rs s).1.records ≡ (if succeeded (persist rs s).0 then rs else s.records)
unfolding persist
saved_records rs s = ground arith

-- Saving valid records and then starting a new process on the same disk loads those records if the
-- save returned, and the records from before if the save threw, at whichever point the atomic
-- write stopped.
pub load-restart-save :
    (rs : List ConsentRecord) (s : JsonRepository)
    → IsReady s
    → all is_valid_record rs ≡ true
    → (load (restart (save rs s).1)).0 ≡ ok (if succeeded (save rs s).0 then rs else s.records)
unfolding save
load-restart-save rs s h v =
    restart_load _ (persist_ready rs s v h)
    ∙ ap (λ (xs : List ConsentRecord). ok xs) (saved_records rs s)

-- A file whose JSON fails the schema is set aside, not overwritten: when its rename succeeds the
-- load returns no records and keeps the bytes as a backup, and until the next load every save
-- throws and leaves the disk as it is.
pub load_quarantines :
    (version : ℕ) (rs next : List ConsentRecord) (s : JsonRepository)
    → s.disk.file ≡ present (store_json version rs)
    → s.disk.reads ≡ []
    → s.disk.moves ≡ []
    → (version == 1 && all is_valid_record rs) ≡ false
    → let t = (load s).1 in
      ((load s).0 ≡ ok [])
      × (t.disk.backups ≡ store_json version rs ∷ s.disk.backups)
      × (t.disk.file ≡ missing)
      × (save next t ≡ (threw refused, t))
unfolding load save persist
load_quarantines version rs next s f r m bad = ground arith

-- The refusal ends with the next load: the file is gone by then, so a second load reports a fresh
-- start, and a save whose write succeeds puts the new records in its place.
pub second_load_reopens :
    (version : ℕ) (rs next : List ConsentRecord) (s : JsonRepository)
    → s.disk.file ≡ present (store_json version rs)
    → s.disk.reads ≡ []
    → s.disk.moves ≡ []
    → s.disk.writes ≡ []
    → (version == 1 && all is_valid_record rs) ≡ false
    → let t = (load (load s).1).1 in
      ((save next t).0 ≡ ok tt) × ((save next t).1.disk.file ≡ present (store_json 1 next))
unfolding load save persist
second_load_reopens version rs next s f r m w bad = ground arith
