-- ===== src/Timekeeper/Connect.antt =====
-- src/features/timekeeper/service.ts: `connectForPlayback`. A connection is the number of the call that
-- made it; what each coming call of `joinAndPrepare` meets is given. The failures of the calls to
-- Discord behind a join are one outcome.
pub mod Laws
use ido_bata_server_bot.Prelude.{
  ℕ, zero, suc, ◌+◌, Bool, true, false, not, Option, none, some, List, [], ◌∷◌, if◌then◌else◌, ◌==◌,
  keep, next_outcome,
}

abbrev pub max_stage_reconnect_attempts : ℕ
max_stage_reconnect_attempts = 3

pub data JoinOutcome : Type 0 where
  joined timed_out setup_failed : JoinOutcome

pub record Voice : Type 0 where
  -- the connections that are not destroyed
  pub open_connections : List ℕ
  pub calls : ℕ
  pub joins : List JoinOutcome

pub data Connected : Type 0 where
  connected : ℕ → Connected
  not_joined attempts_exhausted unexpected_exit : Connected

-- `connection.destroy()`; the source catches what it throws for one that is destroyed already.
unfoldable pub safe_destroy : ℕ → Voice → Voice
safe_destroy connection v = record v {
  open_connections = keep (λ c. not (c == connection)) v.open_connections;
}

-- The part of `joinAndPrepare` behind `joinVoiceChannel`, which has made the connection.
unfoldable pub prepare : JoinOutcome → ℕ → Voice → Option ℕ × Voice
prepare joined connection v = (some connection, v)
prepare timed_out connection v = (none, safe_destroy connection v)
prepare setup_failed connection v = (none, safe_destroy connection v)

unfoldable pub join_and_prepare : Voice → Option ℕ × Voice
join_and_prepare v =
    let (outcome, rest) = next_outcome joined v.joins in
    prepare outcome v.calls (record {
      open_connections = v.calls ∷ v.open_connections;
      calls = v.calls + 1;
      joins = rest;
    })

-- The loop with `left` attempts to go; `connection` is the function's variable.
unfoldable pub reconnect : ℕ → ℕ → Voice → Connected × Voice
reconnect zero connection v = (unexpected_exit, v)
reconnect (suc left) connection v =
    let (made, next) = join_and_prepare (safe_destroy connection v) in
    let rest = reconnect left connection next in
    elim made [
      | some c ↦ (connected c, next)
      | none ↦ if left == 0 then (attempts_exhausted, next) else rest
    ]

unfoldable pub connect_for_playback : Bool → Voice → Connected × Voice
connect_for_playback is_stage v =
    let (made, next) = join_and_prepare v in
    elim made [
      | none ↦ (not_joined, next)
      | some c ↦
          if is_stage then reconnect max_stage_reconnect_attempts c next else (connected c, next)
    ]
