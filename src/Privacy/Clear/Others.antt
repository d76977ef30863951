-- ===== src/Privacy/Clear/Others.antt =====
-- What a clear leaves of the other users, whether it succeeds or not.
use ido_bata_server_bot.Prelude.{
  ℕ, ◌≡◌, refl, sym, subst, Bool, true, not, ◌&&◌, String, Option, none, some, ap, List, [], ◌∷◌,
  arith, str_eq, all, all-keep, length, delete, ltb, ok,
}
use ido_bata_server_bot.Consent.Types.{ConsentRecord}
use ido_bata_server_bot.Consent.Repository.{ConsentRepository, IsRepository, clear_rows}
use ido_bata_server_bot.Consent.Service.{Service}
use ido_bata_server_bot.Consent.Service.Laws.{IsCoherent}
use ido_bata_server_bot.Consent.Service.Clear.{clear-others}
use ido_bata_server_bot.Storage.AtomicJson.{Result, value, error, JsonFile, Disk, mutate_json_file}
use ido_bata_server_bot.Storage.AtomicJson
use ido_bata_server_bot.Storage.Mutation.{
  IsMutation, absent, created, untouched, replaced, failed, mutate_json_file-IsMutation,
}
use ido_bata_server_bot.Storage.Erasure.{view_of}
use ido_bata_server_bot.Poll.State.{
  Poll, PollFile, is_valid_poll, is_empty, is_valid_question, is_valid_options, is_valid_closed_at,
  load,
}
use ido_bata_server_bot.Poll.State
use ido_bata_server_bot.Snapshots.Purge.{FreshHook}
use ido_bata_server_bot.Privacy.Consumers.{
  without_vote, delete_attendance, delete_birthday, delete_votes, next_polls, without_polls,
  poll_options,
}
use ido_bata_server_bot.Privacy.Consumers.Laws.{
  reminders_but, polls_but, delete_entry-others, delete_reminders-others, delete_votes-others,
  without_polls-some, polls_but-next_polls,
}
use ido_bata_server_bot.Privacy.Clear.{World, clear_consent, clear_user_data}

-- Two states of the files differ in the user's data only.
pub record SameOthers {S : Type 0} (user : String) (v w : World S) : Type 0 where
  pub same_history : view_of (delete user) v.history.file ≡ view_of (delete user) w.history.file
  pub same_birthdays :
      view_of (delete user) v.birthdays.file ≡ view_of (delete user) w.birthdays.file
  pub same_polls : view_of (polls_but user) v.polls.file ≡ view_of (polls_but user) w.polls.file
  pub same_reminders :
      view_of (reminders_but user) v.reminders.file ≡ view_of (reminders_but user) w.reminders.file

-- The rows of the other users in the consent registry.
abbrev pub other_rows :
    {S : Type 0}
    → (S → List ConsentRecord)
    → String
    → Option (Service S)
    → Option (List ConsentRecord)
other_rows stored user none = none
other_rows stored user (some service) = some (clear_rows user (stored service.storage))

clear_consent-other_rows :
    {S : Type 0} {repository : ConsentRepository S} {stored : S → List ConsentRecord}
    {Ready : S → Type 0} (laws : IsRepository repository stored Ready) (subject at : String)
    (consent : Option (Service S))
    → ((service : Service S) → consent ≡ some service → IsCoherent stored Ready service)
    → other_rows stored subject (clear_consent repository subject at consent).1
      ≡ other_rows stored subject consent
unfolding clear_consent
clear_consent-other_rows laws subject at none h = refl
clear_consent-other_rows laws subject at (some service) h =
    ap some (clear-others laws subject none at service (h service refl))

-- A clear, successful or not, leaves what the files have of the other users: their attendance, their
-- birthdays, the polls they made with the votes of all but the subject, and their reminders; and it
-- leaves their rows in the consent registry, if there is one and it is in order. The polls that the
-- subject made are not among them, with the votes of others in them, nor are the snapshots.
pub clear_user_data-SameOthers :
    {S : Type 0} {repository : ConsentRepository S} {stored : S → List ConsentRecord}
    {Ready : S → Type 0} (laws : IsRepository repository stored Ready) (locked : String → Bool)
    (hook : Option FreshHook) (subject at : String) (w : World S)
    → ((service : Service S) → w.consent ≡ some service → IsCoherent stored Ready service)
    → let after = (clear_user_data repository locked hook subject at w).1 in
      SameOthers subject after w
      × (other_rows stored subject after.consent ≡ other_rows stored subject w.consent)
unfolding clear_user_data delete_attendance delete_birthday
clear_user_data-SameOthers laws locked hook subject at w h = (
  record {
    same_history = delete_entry-others subject w.history;
    same_birthdays = delete_entry-others subject w.birthdays;
    same_polls = delete_votes-others subject w.polls;
    same_reminders = delete_reminders-others subject w.reminders;
  },
  clear_consent-other_rows laws subject at w.consent h,
)

-- The same file as the poll feature sees it.
abbrev pub poll_file : JsonFile (List Poll) → PollFile
poll_file AtomicJson.missing = State.missing
poll_file AtomicJson.garbled = State.garbled
poll_file AtomicJson.foreign = State.foreign
poll_file (AtomicJson.stored polls) = State.stored polls

under_and : (a b c : Bool) → (b ≡ true → c ≡ true) → (a && b) ≡ true → (a && c) ≡ true
under_and a b c f h = ground arith

module _ (text_length : String → ℕ) (lower : String → String) (user : String) where
  is_valid-without_vote :
      (p : Poll)
      → is_valid_poll text_length lower p ≡ true
      → is_valid_poll text_length lower (without_vote user p) ≡ true
  unfolding is_valid_poll
  is_valid-without_vote p =
      let votes =
        all-keep (λ (v : String × ℕ). ltb v.1 (length p.options))
          (λ (e : String × ℕ). not (str_eq e.0 user)) p.votes in
      under_and (not (is_empty p.id)) _ _ (
        under_and (not (is_empty p.guild_id)) _ _ (
          under_and (not (is_empty p.channel_id)) _ _ (
            under_and (not (is_empty p.message_id)) _ _ (
              under_and (is_valid_question text_length lower p.question) _ _ (
                under_and (is_valid_options text_length lower p.options) _ _ (
                  under_and (not (is_empty p.creator_id)) _ _ (
                    under_and (not (is_empty p.created_at)) _ _
                      (under_and (is_valid_closed_at p.closed_at) _ _ votes))))))))

  is_valid-next_polls :
      (ps : List Poll)
      → all (is_valid_poll text_length lower) ps ≡ true
      → all (is_valid_poll text_length lower) (next_polls user ps) ≡ true
  unfolding next_polls
  is_valid-next_polls [] h = refl
  is_valid-next_polls (p ∷ ps) h = ground (arith, is_valid-next_polls ps, is_valid-without_vote p)

  -- What the poll feature reads of a file: a list without a difference for the others.
  abbrev pub Reads : List Poll → JsonFile (List Poll) → Type 0
  Reads ps file =
      (next : List Poll) × ((load text_length lower (poll_file file) ≡ ok next)
        × (polls_but user next ≡ polls_but user ps))

  stored-Reads :
      (ps next : List Poll)
      → all (is_valid_poll text_length lower) next ≡ true
      → polls_but user next ≡ polls_but user ps
      → Reads ps (AtomicJson.stored next)
  unfolding load
  stored-Reads ps next valid same = (next, (rw valid refl, same))

  next-Reads :
      (ps t next : List Poll)
      → all (is_valid_poll text_length lower) ps ≡ true
      → without_polls user t ≡ some next
      → t ≡ ps
      → Reads ps (AtomicJson.stored next)
  next-Reads ps t next valid m same =
      let e =
        without_polls-some user ps next (subst (λ l. without_polls user l ≡ some next) same m) in
      subst (λ l. Reads ps (AtomicJson.stored l)) (sym e)
        (stored-Reads ps (next_polls user ps) (is_valid-next_polls ps valid)
          (polls_but-next_polls user ps))

  IsMutation-Reads :
      (ps : List Poll) (before after : JsonFile (List Poll)) (r : Result Bool)
      → all (is_valid_poll text_length lower) ps ≡ true
      → IsMutation (poll_options user) before r after
      → before ≡ AtomicJson.stored ps
      → Reads ps after
  IsMutation-Reads ps _ _ _ valid (absent c) h = cc
  IsMutation-Reads ps _ _ _ valid (created t c i) h = cc
  IsMutation-Reads ps _ _ _ valid (untouched t v m) h =
      subst (Reads ps) (sym h) (stored-Reads ps ps valid refl)
  IsMutation-Reads ps _ _ _ valid (replaced t next v m) h = next-Reads ps t next valid m (cc)
  IsMutation-Reads ps _ _ _ valid (failed file e) h =
      subst (Reads ps) (sym h) (stored-Reads ps ps valid refl)

  -- A poll file that the poll feature can read stays readable for it after the deletion, whether
  -- that succeeds or not, and what it reads differs in the user's polls and votes only.
  pub delete_votes-load :
      (ps : List Poll) (d : Disk (List Poll))
      → d.file ≡ AtomicJson.stored ps
      → all (is_valid_poll text_length lower) ps ≡ true
      → (next : List Poll) × ((load text_length lower (poll_file (delete_votes user d).1.file)
            ≡ ok next)
          × (polls_but user next ≡ polls_but user ps))
  unfolding delete_votes
  delete_votes-load ps d h valid =
      IsMutation-Reads ps d.file _ _ valid (mutate_json_file-IsMutation (poll_options user) d).0 h
