-- ===== src/Poll/Handler/Kept.antt =====
-- What a request of src/features/poll/handler.ts leaves of the polls that were stored.
use ido_bata_server_bot.Prelude.{
  ℕ, true, false, String, some, List, str_eq, Outcome, ok, ◌≡◌, refl, sym, subst, ◌⊎◌, inl, inr,
  arith, eq_iff, Bool-cases,
}
use ido_bata_server_bot.Poll.State.{
  Poll, garbled, Disk, load, find_poll_by_id, upsert_poll, is_valid_poll,
}
use ido_bata_server_bot.Poll.Handler.{Request, new_poll, Command, handle_interaction, Reply}
use ido_bata_server_bot.Poll.Handler.Laws.{
  Change, opened, closed, voted, unvoted, Effect, unchanged, damaged, changed,
  handle_interaction-Effect,
}
use ido_bata_server_bot.Poll.Handler.Stored.{
  find_poll_by_id-upsert_poll, all-upsert_poll, IsNamed, IsComplete, IsKept, IsFresh, AreDistinct,
  find_by_id_of_message, find_poll_by_id-id, IsKept-refl, voted-id, voted-IsKept, unvoted-id,
  unvoted-IsKept,
}
use ido_bata_server_bot.Poll.Handler.Valid.{Change-is_valid, load-IsSound, load_stored}

-- The poll under `id` among `polls`, beside what a request left of `p`.
abbrev pub Leaves : Request → Command → String → Poll → List Poll → Type 0
Leaves request command id p polls =
    (after : Poll) × (find_poll_by_id id polls ≡ some after) × IsKept request command p after

-- Storing `q` in place of `x` leaves every poll as `q` leaves `x`.
replaced-Leaves :
    (request : Request) (command : Command) (x q : Poll) (id : String) (p : Poll)
    (polls : List Poll)
    → find_poll_by_id x.id polls ≡ some x
    → q.id ≡ x.id
    → IsKept request command x q
    → find_poll_by_id id polls ≡ some p
    → Leaves request command id p (upsert_poll q polls)
replaced-Leaves request command x q id p polls f e k h = elim (Bool-cases (str_eq q.id id)) [
  | inl same ↦ (
    q,
    ground (arith, find_poll_by_id-upsert_poll id q polls, same),
    subst (λ y. IsKept request command y q) (ground (arith, f, e, h, same, eq_iff q.id id)) k,
  )
  | inr distinct ↦ (
    p,
    ground (arith, find_poll_by_id-upsert_poll id q polls, distinct, h),
    IsKept-refl request command p,
  )
]

found-own_id :
    (id : String) (p : Poll) (polls : List Poll)
    → find_poll_by_id id polls ≡ some p
    → find_poll_by_id p.id polls ≡ some p
found-own_id id p polls h = ground (arith, find_poll_by_id-id id p polls h, eq_iff p.id id, h)

closed-IsKept :
    (request : Request) (command : Command) (p : Poll)
    → p.closed ≡ false
    → IsKept request command p (record p { closed = true; closed_at = some request.now })
closed-IsKept request command p o = record {
  question = refl;
  options = refl;
  creator = refl;
  others = λ user d. refl;
  frozen = λ c d. cc;
}

module _ (text_length : String → ℕ) (lower : String → String) where
  Change-Leaves :
      (request : Request) (command : Command) (polls : List Poll) (q : Poll) (id : String)
      (p : Poll)
      → Change text_length lower request polls command q
      → AreDistinct polls
      → IsFresh command polls
      → find_poll_by_id id polls ≡ some p
      → Leaves request command id p (upsert_poll q polls)
  unfolding new_poll
  Change-Leaves request command polls q id p (opened creation message_id a v w) d fresh h = (
    p,
    ground (arith, find_poll_by_id-upsert_poll id q polls, fresh, h, eq_iff creation.id id),
    IsKept-refl request command p,
  )
  Change-Leaves request command polls q id p (closed x message_id target f o c) d fresh h =
      replaced-Leaves request command x q id p polls (find_by_id_of_message message_id x polls d f)
        refl (closed-IsKept request command x o) h
  Change-Leaves request command polls q id p (voted x poll_id option target cast a f o v) d fresh
        h =
      replaced-Leaves request command x q id p polls (found-own_id poll_id x polls f)
        (voted-id x request.user_id option cast v) (voted-IsKept request command x option cast o v)
        h
  Change-Leaves request command polls q id p (unvoted x poll_id target next a f c) d fresh h =
      replaced-Leaves request command x q id p polls (found-own_id poll_id x polls f)
        (unvoted-id x next request.user_id c) (unvoted-IsKept request command x next refl c) h

  Effect-Leaves :
      (request : Request) (command : Command) (disk : Disk) (polls : List Poll) (id : String)
      (p : Poll) (result : Outcome Reply × Disk)
      → IsNamed request
      → IsComplete command
      → load text_length lower disk.file ≡ ok polls
      → AreDistinct polls
      → IsFresh command polls
      → find_poll_by_id id polls ≡ some p
      → Effect text_length lower request command disk result
      → (result.1.file ≡ garbled)
        ⊎ ((after : List Poll) × (load text_length lower result.1.file ≡ ok after)
            × Leaves request command id p after)
  Effect-Leaves request command disk polls id p result n c l d fresh h (unchanged e) =
      inr (polls, ground (arith, e, l), (p, h, IsKept-refl request command p))
  Effect-Leaves request command disk polls id p result n c l d fresh h (damaged e) = inl e
  Effect-Leaves request command disk polls id p result n c l d fresh h (changed polls' q l' k e) =
      inr (
        upsert_poll q polls',
        subst (λ f. load text_length lower f ≡ ok (upsert_poll q polls')) (sym e)
            (load_stored text_length lower (upsert_poll q polls') (
              all-upsert_poll (is_valid_poll text_length lower) q polls'
                (Change-is_valid text_length lower request command polls' q k n c
                  (load-IsSound text_length lower disk.file polls' l'))
                (load-IsSound text_length lower disk.file polls' l'))),
        Change-Leaves request command polls' q id p k (subst AreDistinct same d)
            (subst (IsFresh command) same fresh) (ground (arith, h, same)),
      )
    where
      same : polls ≡ polls'
      same = ground (arith, l, l')

  -- Unless a broken-off write damages the file, every stored poll is still found under its id after
  -- any request, with its question, its options and its creator, with the votes of all users but the
  -- one who made the request, and unchanged if it was closed and the request does not take a vote
  -- back. Ids must be distinct and the id of a new poll new; the request must name its user and the
  -- time, and a new poll must have a guild, an id and the ids that Discord gives, none of them empty.
  pub handle_interaction-Leaves :
      (request : Request) (command : Command) (disk : Disk) (polls : List Poll) (id : String)
      (p : Poll)
      → IsNamed request
      → IsComplete command
      → load text_length lower disk.file ≡ ok polls
      → AreDistinct polls
      → IsFresh command polls
      → find_poll_by_id id polls ≡ some p
      → ((handle_interaction text_length lower request command disk).1.file ≡ garbled)
        ⊎ ((after : List Poll) × (load text_length lower
                (handle_interaction text_length lower request command disk).1.file
              ≡ ok after)
            × Leaves request command id p after)
  handle_interaction-Leaves request command disk polls id p n c l d fresh h =
      Effect-Leaves request command disk polls id p
        (handle_interaction text_length lower request command disk) n c l d fresh h
        (handle_interaction-Effect text_length lower request command disk)
