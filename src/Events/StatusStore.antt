-- ===== src/Events/StatusStore.antt =====
-- src/runtime/status-store.ts: the read model that subscribers see. `S` stands for the slices of a
-- snapshot other than its events, `E` for an event. A listener is a number, and `delivered` lists
-- the calls of listeners with what the snapshot shows at the time; one that throws changes nothing.
use ido_bata_server_bot.Prelude.{
  ℕ, ◌-◌, not, Option, none, some, List, [], ◌∷◌, ◌++◌, if◌then◌else◌, ltb, ◌==◌, length, drop,
  keep, any, map, ℤ, pos, negsuc,
}
use ido_bata_server_bot.Events.RingBuffer.{Size, not_finite, finite, shift_to}

abbrev pub events_cap_min : ℕ
events_cap_min = 10

abbrev pub events_cap_max : ℕ
events_cap_max = 10000

abbrev pub events_cap_default : ℕ
events_cap_default = 200

abbrev clamp_integer : ℤ → ℕ
clamp_integer (negsuc _) = events_cap_min
clamp_integer (pos n) =
    if ltb n events_cap_min
    then events_cap_min
    else if ltb events_cap_max n
    then events_cap_max
    else n

unfoldable pub clamp_events_cap : Size → ℕ
clamp_events_cap not_finite = events_cap_default
clamp_events_cap (finite cap) = clamp_integer cap

-- The events of a snapshot: the store's own array, which later changes show in, or a frozen copy.
pub data SnapshotEvents (E : Type 0) : Type 0 where
  live : SnapshotEvents E
  copied : List E → SnapshotEvents E

-- `slices` and `shown` are the two parts of `current`.
pub record RuntimeStatusStore (S E : Type 0) : Type 0 where
  pub events_cap : ℕ
  pub events : List E
  pub slices : S
  pub shown : SnapshotEvents E
  pub listeners : List ℕ
  pub delivered : List (ℕ × (S × List E))

module _ {E : Type 0} where
  -- What the events of a snapshot read as while the store's array is as given.
  abbrev pub read : SnapshotEvents E → List E → List E
  read live events = events
  read (copied shown) events = shown

  -- `if (events.length > next)` the last `next` elements stay.
  abbrev pub cut_to : ℕ → List E → List E
  cut_to next events =
      if ltb next (length events) then drop (length events - next) events else events

module _ {S E : Type 0} where
  unfoldable pub snapshot_of : RuntimeStatusStore S E → S × List E
  snapshot_of store = (store.slices, read store.shown store.events)

  -- `initial` gives slices, and may give events of its own.
  unfoldable pub create_runtime_status_store : S → Option (List E) → RuntimeStatusStore S E
  unfolding clamp_events_cap
  create_runtime_status_store slices initial_events = record {
    events_cap = clamp_events_cap (finite (pos events_cap_default));
    events = [];
    slices = slices;
    shown = elim initial_events [ none ↦ live | some events ↦ copied events ];
    listeners = [];
    delivered = [];
  }

  unfoldable pub notify : RuntimeStatusStore S E → RuntimeStatusStore S E
  unfolding snapshot_of
  notify store = record store {
    delivered = store.delivered ++ map (λ l. (l, snapshot_of store)) store.listeners;
  }

  unfoldable pub subscribe : ℕ → RuntimeStatusStore S E → RuntimeStatusStore S E
  unfolding snapshot_of
  subscribe listener store = record store {
    listeners =
        if any (λ l. l == listener) store.listeners
        then store.listeners
        else store.listeners ++ listener ∷ [];
    delivered = store.delivered ++ (listener, snapshot_of store) ∷ [];
  }

  unfoldable pub unsubscribe : ℕ → RuntimeStatusStore S E → RuntimeStatusStore S E
  unsubscribe listener store = record store {
    listeners = keep (λ l. not (l == listener)) store.listeners;
  }

  -- A patch changes the slices; its type has no events.
  unfoldable pub set_slices : (S → S) → RuntimeStatusStore S E → RuntimeStatusStore S E
  unfolding notify
  set_slices patch store = notify (record store { slices = patch store.slices })

  abbrev show_copy : RuntimeStatusStore S E → RuntimeStatusStore S E
  show_copy store = record store { shown = copied store.events }

  unfoldable pub append_event : E → RuntimeStatusStore S E → RuntimeStatusStore S E
  unfolding notify shift_to
  append_event event store =
      notify (
        show_copy
          (record store { events = shift_to store.events_cap (store.events ++ event ∷ []) }))

  unfoldable pub set_events_cap : Size → RuntimeStatusStore S E → RuntimeStatusStore S E
  unfolding notify clamp_events_cap
  set_events_cap size store = notify (
      show_copy (record store {
        events_cap = clamp_events_cap size;
        events = cut_to (clamp_events_cap size) store.events;
      }))

  unfoldable pub clear_listeners : RuntimeStatusStore S E → RuntimeStatusStore S E
  clear_listeners store = record store { listeners = [] }
