-- ===== src/Timekeeper/Engagement/Deletion.antt =====
-- `/privacy delete` while a session runs: src/features/privacy/clear.ts between the start of a
-- session and the write at its end.
use mathlib.Core.Option
use ido_bata_server_bot.Prelude.{
  ◌≡◌, ap, ◌∙◌, Bool, true, false, String, Option, none, some, List, get, ok, threw, Outcome, arith,
  sym, ◌&&◌,
}
use ido_bata_server_bot.Consent.Repository.{ConsentRepository}
use ido_bata_server_bot.Storage.AtomicJson.{JsonFile, stored}
use ido_bata_server_bot.Storage.PlainFile.{written}
use ido_bata_server_bot.Storage.Erasure.{Satisfies}
use ido_bata_server_bot.Snapshots.Purge.{FreshHook}
use ido_bata_server_bot.Privacy.Clear.{World, clear_user_data}
use ido_bata_server_bot.Privacy.Clear.Forgotten.{clear_user_data-IsForgotten}
use ido_bata_server_bot.Timekeeper.Engagement.{
  Attendance, Session, Gate, create_session_engagement, persist_session_attendance,
  load_attendance_history,
}
use ido_bata_server_bot.Timekeeper.Engagement.History.{
  is_permitted, has_check_in, with_date, persist_session_attendance-get,
}

session-dates :
    (of_foreign : Outcome Attendance) (id : String) (m : Attendance) (file : JsonFile Attendance)
    (s : Session)
    → file ≡ stored m
    → create_session_engagement of_foreign id file ≡ ok s
    → s.attendance_dates_by_user_id ≡ m
unfolding create_session_engagement load_attendance_history
session-dates of_foreign id m file s h e =
    sym (ap (λ r. elim r [ ok t ↦ t.attendance_dates_by_user_id | threw _ ↦ m ]) (rw h at e))

-- The dates of a user who is not permitted are written as they were loaded.
unpermitted-dates :
    (sort : List String → List String) (checked permitted : Bool) (date : String)
    (dates : List String) (loaded : Option (List String))
    → permitted ≡ false
    → loaded ≡ some dates
    → Option.map sort (with_date (checked && permitted) date loaded) ≡ some (sort dates)
unpermitted-dates sort checked permitted date dates loaded p l = ground arith

module _ {S : Type 0} (repository : ConsentRepository S) (locked : String → Bool)
    (hook : Option FreshHook) (sort : List String → List String) where
  -- A deletion that reports success while a session runs is undone at the end of the session: the
  -- user's entry is gone from the history, and the write at the end puts the dates that the session
  -- loaded at its start back, although the user is not permitted any more.
  pub clear_user_data-persist_session_attendance :
      (of_foreign : Outcome Attendance) (id subject at date : String) (w : World S) (m : Attendance)
      (dates : List String) (started ended : Session) (gate : Gate) (authorize : String → Bool)
      → w.history.file ≡ stored m
      → get subject m ≡ some dates
      → create_session_engagement of_foreign id w.history.file ≡ ok started
      → ended.attendance_dates_by_user_id ≡ started.attendance_dates_by_user_id
      → gate.authorization ≡ some authorize
      → is_permitted gate subject ≡ false
      → (clear_user_data repository locked hook subject at w).0.ok ≡ true
      → let file = (clear_user_data repository locked hook subject at w).1.history.file in
        Satisfies (λ history. get subject history ≡ none) file
        × ((history : Attendance) × (((persist_session_attendance sort gate written date ended
                  file).history
                ≡ stored history)
              × (get subject history ≡ some (sort dates))))
  clear_user_data-persist_session_attendance of_foreign id subject at date w m dates started ended
        gate authorize h g c e a p good =
      let file = (clear_user_data repository locked hook subject at w).1.history.file in
      let (history, (stays, found)) =
        persist_session_attendance-get sort gate authorize date subject ended file a in
      (
        (clear_user_data-IsForgotten repository locked hook subject at w good).no_attendance,
        (
          history,
          (
            stays,
            found
                ∙ unpermitted-dates sort (has_check_in subject ended) (is_permitted gate subject)
                    date dates (get subject ended.attendance_dates_by_user_id) p
                    (ap (get subject) (e ∙ session-dates of_foreign id m w.history.file started h c)
                      ∙ g),
          ),
        ),
      )
