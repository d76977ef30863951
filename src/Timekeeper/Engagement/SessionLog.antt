-- ===== src/Timekeeper/Engagement/SessionLog.antt =====
-- src/features/timekeeper/engagement.ts: the log of sessions, and a session that does not end as
-- planned. A write of a file meets what the environment has planned.
use ido_bata_server_bot.Prelude.{String, Option, none, some, List, [], ◌∷◌, ◌++◌, Done, ok, threw}
use ido_bata_server_bot.Storage.AtomicJson.{JsonFile, missing, garbled, foreign, stored}
use ido_bata_server_bot.Storage.PlainFile.{PlainWrite, write_file}
use ido_bata_server_bot.Timekeeper.Engagement.{
  Attendance, Session, Gate, Persisted, persist_session_attendance,
}

pub data SessionStatus : Type 0 where
  completed cancelled interrupted : SessionStatus

-- `TimekeeperSessionRecord`
pub record SessionRecord : Type 0 where
  pub ended_at : String
  pub record_id : String
  pub reason : Option String
  pub started_at : String
  pub status : SessionStatus

-- A file that is no JSON or no array is an empty log.
unfoldable pub load_session_log : JsonFile (List SessionRecord) → List SessionRecord
load_session_log missing = []
load_session_log garbled = []
load_session_log foreign = []
load_session_log (stored log) = log

-- The files that `markSessionInterrupted` works on.
pub record Files : Type 0 where
  pub history : JsonFile Attendance
  pub log : JsonFile (List SessionRecord)

-- The part behind the attendance: the log gets its entry, unless the attendance could not be
-- written.
unfoldable pub append_to_log :
    PlainWrite
    → SessionRecord
    → Persisted
    → JsonFile (List SessionRecord)
    → Done × (Session × Files)
unfolding load_session_log
append_to_log write entry p log = elim p.answer [
  | threw e ↦ (threw e, (p.session, record { history = p.history; log = log }))
  | ok _ ↦
      let (answer, next) = write_file write (load_session_log log ++ entry ∷ []) log in
      (answer, (p.session, record { history = p.history; log = next }))
]

-- `date_of` is the date in Tokyo of the session's start, `now` the text of the current time.
module _ (sort : List String → List String) (date_of : String → String) where
  unfoldable pub mark_session_interrupted :
      Gate
      → PlainWrite
      → PlainWrite
      → Option String
      → Option SessionStatus
      → String
      → Session
      → Files
      → Done × (Session × Files)
  unfolding persist_session_attendance append_to_log
  mark_session_interrupted gate write log_write reason status now s files =
      let entry : SessionRecord = record {
        ended_at = now;
        record_id = s.id;
        reason = reason;
        started_at = s.id;
        status = elim status [ none ↦ interrupted | some st ↦ st ];
      } in
      let p : Persisted = elim s.check_ins_by_user_id [
        | [] ↦ record { answer = ok tt; session = s; history = files.history }
        | (_ ∷ _) ↦ persist_session_attendance sort gate write (date_of s.id) s files.history
      ] in
      append_to_log log_write entry p files.log
