-- ===== src/Timekeeper/Connect/Laws.antt =====
-- How often a session tries to connect, and which connections it is left with.
use ido_bata_server_bot.Prelude.{
  ℕ, zero, suc, ◌+◌, ◌≤◌, ◌≡◌, Bool, true, false, not, ◌&&◌, ◌||◌, Option, none, some, List, [],
  ◌∷◌, arith, next_outcome,
}
use ido_bata_server_bot.Timekeeper.Connect.{
  JoinOutcome, joined, timed_out, setup_failed, Voice, Connected, connected, not_joined,
  attempts_exhausted, unexpected_exit, prepare, join_and_prepare, safe_destroy, reconnect,
  connect_for_playback,
}

abbrev pub is_connected : Connected → Bool
is_connected (connected _) = true
is_connected not_joined = false
is_connected attempts_exhausted = false
is_connected unexpected_exit = false

abbrev pub is_expected : Connected → Bool
is_expected unexpected_exit = false
is_expected not_joined = true
is_expected attempts_exhausted = true
is_expected (connected _) = true

-- The connections that a caller holds.
abbrev pub held : Connected → List ℕ
held (connected c) = c ∷ []
held not_joined = []
held attempts_exhausted = []
held unexpected_exit = []

abbrev pub is_joined : JoinOutcome → Bool
is_joined joined = true
is_joined timed_out = false
is_joined setup_failed = false

-- Does one of the next `n` calls succeed?
abbrev pub one_joins : ℕ → List JoinOutcome → Bool
one_joins zero joins = false
one_joins (suc n) joins =
    let (outcome, rest) = next_outcome joined joins in is_joined outcome || one_joins n rest

-- What a call to join makes of connections that are all destroyed.
abbrev made_of : JoinOutcome → ℕ → Option ℕ
made_of joined c = some c
made_of timed_out c = none
made_of setup_failed c = none

abbrev kept_of : JoinOutcome → ℕ → List ℕ
kept_of joined c = c ∷ []
kept_of timed_out c = []
kept_of setup_failed c = []

join_and_prepare_lem :
    (v : Voice)
    → v.open_connections ≡ []
    → let r = join_and_prepare v in
      let outcome = (next_outcome joined v.joins).0 in
      (r.0 ≡ made_of outcome v.calls)
      × ((r.1.open_connections ≡ kept_of outcome v.calls)
          × ((r.1.calls ≡ v.calls + 1) × (r.1.joins ≡ (next_outcome joined v.joins).1)))
unfolding join_and_prepare prepare safe_destroy
join_and_prepare_lem v h = ground arith

abbrev IsSettled : ℕ → Voice → Connected × Voice → Type 0
IsSettled left v r =
    (is_expected r.0 ≡ true)
    × ((is_connected r.0 ≡ one_joins left v.joins)
        × ((r.1.open_connections ≡ held r.0) × (r.1.calls ≤ v.calls + left)))

reconnect_lem :
    (left connection : ℕ) (v : Voice)
    → 1 ≤ left
    → (safe_destroy connection v).open_connections ≡ []
    → IsSettled left v (reconnect left connection v)
unfolding reconnect safe_destroy
reconnect_lem zero connection v h e = absurd (omega arith)
reconnect_lem (suc left) connection v h e =
    let w = safe_destroy connection v in
    ground (arith, join_and_prepare_lem w e, reconnect_lem left connection (join_and_prepare w).1)

destroyed :
    (c : ℕ) (v : Voice) → v.open_connections ≡ c ∷ [] → (safe_destroy c v).open_connections ≡ []
unfolding safe_destroy
destroyed c v h = ground (arith, h)

-- The connection ends after at most four calls, with success or one of the two errors that the
-- code means: it succeeds exactly if the first call does and, in a stage channel, one of the three
-- after it. If no connection was open before, the one that is returned is the only one open
-- afterwards, and none is after an error.
pub connect_for_playback_lem :
    (is_stage : Bool) (v : Voice)
    → v.open_connections ≡ []
    → let r = connect_for_playback is_stage v in
      (is_expected r.0 ≡ true)
      × ((is_connected r.0 ≡ (
            is_joined (next_outcome joined v.joins).0
            && (not is_stage || one_joins 3 (next_outcome joined v.joins).1)))
          × ((r.1.open_connections ≡ held r.0) × (r.1.calls ≤ v.calls + 4)))
unfolding connect_for_playback
connect_for_playback_lem is_stage v h =
    let next = (join_and_prepare v).1 in
    ground (arith, join_and_prepare_lem v h, destroyed v.calls next, reconnect_lem 3 v.calls next)
