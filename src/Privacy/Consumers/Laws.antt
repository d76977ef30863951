-- ===== src/Privacy/Consumers/Laws.antt =====
-- What each adapter takes out of its file, and what it leaves there.
use ido_bata_server_bot.Prelude.{
  ◌≡◌, refl, ap, ◌∙◌, Bool, true, false, not, ◌||◌, Option, none, some, String, List, [], ◌∷◌,
  arith, str_eq, str_eq_refl, keep, all, length, get, delete, get-delete, length-keep-le, keep-keep,
  map,
}
use ido_bata_server_bot.Storage.AtomicJson.{Result, value, error, Disk, mutate_json_file}
use ido_bata_server_bot.Storage.Erasure.{
  Satisfies, view_of, mutate_json_file-Satisfies, mutate_json_file-view,
}
use ido_bata_server_bot.Poll.State.{Poll}
use ido_bata_server_bot.Reminder.Store.{PersistedReminder}
use ido_bata_server_bot.Privacy.Consumers.{
  without_vote, deleted, outcome_of, erasing, run_delete, without_key, without_reminders,
  reminder_options, delete_reminders, has_vote, next_polls, is_changed, without_polls, poll_options,
  delete_votes, is_privacy_poll,
}

outcome_of-value : (r : Result Bool) → outcome_of r ≡ deleted → (b : Bool) × (r ≡ value b)
outcome_of-value (value b) h = (b, refl)
outcome_of-value (error e) h = cc

module _ {ℓ} {T : Type ℓ} (valid : T → Bool) (mutate : T → Option T) where
  -- An adapter that reports success has taken out what its mutation takes out.
  pub run_delete-Satisfies {κ} :
      (P : T → Type κ)
      → ((t : T) → mutate t ≡ none → P t)
      → ((t next : T) → mutate t ≡ some next → P next)
      → (d : Disk T) → (run_delete (erasing valid mutate) d).0 ≡ deleted
      → Satisfies P (run_delete (erasing valid mutate) d).1.file
  run_delete-Satisfies P f g d h =
      let (b, e) = outcome_of-value (mutate_json_file (erasing valid mutate) d).0 h in
      mutate_json_file-Satisfies (erasing valid mutate) refl P f g d b e

module _ {ℓ} {A : Type ℓ} where
  without_key-none :
      (user : String) (m : List (String × A)) → without_key user m ≡ none → get user m ≡ none
  without_key-none user m h = ground arith

  without_key-some :
      (user : String) (m next : List (String × A))
      → without_key user m ≡ some next
      → next ≡ delete user m
  without_key-some user m next h = ground arith

  get-delete_same : (user : String) (m : List (String × A)) → get user (delete user m) ≡ none
  get-delete_same user m = ground (arith, get-delete user user m, str_eq_refl user)

  -- An adapter over a record by users leaves no entry of the user,
  pub delete_entry-gone :
      (user : String) (d : Disk (List (String × A)))
      → (run_delete (erasing (λ _. true) (without_key user)) d).0 ≡ deleted
      → Satisfies
          (λ m. get user m ≡ none)
          (run_delete (erasing (λ _. true) (without_key user)) d).1.file
  delete_entry-gone user d =
      run_delete-Satisfies (λ _. true) (without_key user) (λ m. get user m ≡ none)
        (without_key-none user)
        (λ m next h. ap (get user) (without_key-some user m next h) ∙ get-delete_same user m) d

  -- and the others' entries as they are.
  pub delete_entry-others :
      (user : String) (d : Disk (List (String × A)))
      → view_of (delete user) (run_delete (erasing (λ _. true) (without_key user)) d).1.file
        ≡ view_of (delete user) d.file
  delete_entry-others user d =
      mutate_json_file-view (erasing (λ _. true) (without_key user)) refl (delete user)
        (λ m next h.
          ap (delete user) (without_key-some user m next h)
          ∙ keep-keep (λ e. not (str_eq e.0 user)) m)
        d

-- `user` has no reminder in the list.
abbrev pub no_reminder : String → List PersistedReminder → Bool
no_reminder user reminders = all (λ r. not (str_eq r.user_id user)) reminders

abbrev pub reminders_but : String → List PersistedReminder → List PersistedReminder
reminders_but user reminders = keep (λ r. not (str_eq r.user_id user)) reminders

no_reminder-keep :
    (user : String) (rs : List PersistedReminder) → no_reminder user (reminders_but user rs) ≡ true
no_reminder-keep user [] = refl
no_reminder-keep user (r ∷ rs) = ground (arith, no_reminder-keep user rs)

no_reminder-length :
    (user : String) (rs : List PersistedReminder)
    → length (reminders_but user rs) ≡ length rs
    → no_reminder user rs ≡ true
no_reminder-length user [] h = refl
no_reminder-length user (r ∷ rs) h = ground (
  arith,
  no_reminder-length user rs,
  length-keep-le (λ (r : PersistedReminder). not (str_eq r.user_id user)) rs,
)

module _ (user : String) where
  no_reminder-none :
      (rs : List PersistedReminder) → without_reminders user rs ≡ none → no_reminder user rs ≡ true
  unfolding without_reminders
  no_reminder-none rs h = ground (arith, no_reminder-length user rs)

  without_reminders-some :
      (rs next : List PersistedReminder)
      → without_reminders user rs ≡ some next
      → next ≡ reminders_but user rs
  unfolding without_reminders
  without_reminders-some rs next h = ground arith

  pub delete_reminders-gone :
      (d : Disk (List PersistedReminder))
      → (delete_reminders user d).0 ≡ deleted
      → Satisfies (λ rs. no_reminder user rs ≡ true) (delete_reminders user d).1.file
  unfolding delete_reminders
  delete_reminders-gone d =
      run_delete-Satisfies (λ _. true) (without_reminders user) (λ rs. no_reminder user rs ≡ true)
        no_reminder-none
        (λ rs next h.
          ap (no_reminder user) (without_reminders-some rs next h) ∙ no_reminder-keep user rs)
        d

  pub delete_reminders-others :
      (d : Disk (List PersistedReminder))
      → view_of (reminders_but user) (delete_reminders user d).1.file
        ≡ view_of (reminders_but user) d.file
  unfolding delete_reminders
  delete_reminders-others d =
      mutate_json_file-view (reminder_options user) refl (reminders_but user)
        (λ rs next h.
          ap (reminders_but user) (without_reminders-some rs next h)
          ∙ keep-keep (λ r. not (str_eq r.user_id user)) rs)
        d

  -- `user` neither made a poll of the list nor has a vote in one.
  abbrev pub no_part : List Poll → Bool
  no_part polls = all (λ p. not (str_eq p.creator_id user || has_vote user p)) polls

  -- What of the polls is not the user's.
  abbrev pub polls_but : List Poll → List Poll
  polls_but polls = map (without_vote user) (keep (λ p. not (str_eq p.creator_id user)) polls)

  no_part_unchanged : (ps : List Poll) → is_changed user ps ≡ false → no_part ps ≡ true
  unfolding is_changed
  no_part_unchanged [] h = refl
  no_part_unchanged (p ∷ ps) h = ground (arith, no_part_unchanged ps)

  no_part-next_polls : (ps : List Poll) → no_part (next_polls user ps) ≡ true
  unfolding next_polls has_vote
  no_part-next_polls [] = refl
  no_part-next_polls (p ∷ ps) = ground (arith, no_part-next_polls ps, get-delete_same user p.votes)

  without_vote_twice : (p : Poll) → without_vote user (without_vote user p) ≡ without_vote user p
  without_vote_twice p =
      ap (λ votes. record p { votes = votes }) (keep-keep (λ e. not (str_eq e.0 user)) p.votes)

  pub polls_but-next_polls : (ps : List Poll) → polls_but (next_polls user ps) ≡ polls_but ps
  unfolding next_polls has_vote
  polls_but-next_polls [] = refl
  polls_but-next_polls (p ∷ ps) = ground (arith, polls_but-next_polls ps, without_vote_twice p)

  pub without_polls-some :
      (ps next : List Poll) → without_polls user ps ≡ some next → next ≡ next_polls user ps
  unfolding without_polls
  without_polls-some ps next h = ground arith

  no_part-none : (ps : List Poll) → without_polls user ps ≡ none → no_part ps ≡ true
  unfolding without_polls
  no_part-none ps h = ground (arith, no_part_unchanged ps)

  pub delete_votes-gone :
      (d : Disk (List Poll))
      → (delete_votes user d).0 ≡ deleted
      → Satisfies (λ ps. no_part ps ≡ true) (delete_votes user d).1.file
  unfolding delete_votes
  delete_votes-gone d =
      run_delete-Satisfies (all is_privacy_poll) (without_polls user) (λ ps. no_part ps ≡ true)
        no_part-none
        (λ ps next h. ap no_part (without_polls-some ps next h) ∙ no_part-next_polls ps) d

  pub delete_votes-others :
      (d : Disk (List Poll))
      → view_of polls_but (delete_votes user d).1.file ≡ view_of polls_but d.file
  unfolding delete_votes
  delete_votes-others d =
      mutate_json_file-view (poll_options user) refl polls_but
        (λ ps next h. ap polls_but (without_polls-some ps next h) ∙ polls_but-next_polls ps) d
