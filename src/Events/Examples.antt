-- ===== src/Events/Examples.antt =====
-- Runs of the bounded buffers on concrete events.
use ido_bata_server_bot.Prelude.{
  ℕ, suc, ◌+◌, min, List, [], ◌∷◌, length, ◌≡◌, refl, pos, negsuc, none,
}
use ido_bata_server_bot.Events.RingBuffer.{
  finite, create_log_ring_buffer, push, set_capacity, clear_entries,
}
use ido_bata_server_bot.Events.Recent.{
  Operation, resized, pushed, emptied, run, logged, IsRecent, run-IsRecent,
}
use ido_bata_server_bot.Events.StatusStore.{
  create_runtime_status_store, append_event, set_events_cap, clamp_events_cap,
}
use ido_bata_server_bot.Events.Consistent.{
  subscribed, patched, appended, recapped, IsConsistent, appended_by, patched_by, run-IsConsistent,
}
use ido_bata_server_bot.Events.Consistent

abbrev operations : List (Operation ℕ)
operations = pushed 1 ∷ resized (finite (negsuc 3)) ∷ pushed 2 ∷ emptied ∷ pushed 3 ∷ pushed 4 ∷ []

entries-operations :
    (run operations (create_log_ring_buffer (finite (pos 50)))).entries ≡ 3 ∷ 4 ∷ []
unfolding run push clear_entries set_capacity
entries-operations = refl

run-IsRecent_example :
    IsRecent (logged operations []) (run operations (create_log_ring_buffer (finite (pos 50))))
    × (length (push 5 (run operations (create_log_ring_buffer (finite (pos 50))))).entries
        ≡ min
            (run operations (create_log_ring_buffer (finite (pos 50)))).capacity
            (suc (length (run operations (create_log_ring_buffer (finite (pos 50)))).entries)))
run-IsRecent_example = run-IsRecent (finite (pos 50)) operations 5

abbrev changes : List (Consistent.Operation ℕ ℕ)
changes =
    subscribed 7 ∷ appended 1 ∷ patched (λ n. n + 1) ∷ recapped (finite (pos 20)) ∷ appended 2 ∷ []

run-IsConsistent_example :
    let store = Consistent.run changes (create_runtime_status_store 0 none) in
    IsConsistent (patched_by changes 0) (appended_by changes) store
    × ((length (append_event 3 store).events ≡ min store.events_cap (suc (length store.events)))
        × (length (set_events_cap (finite (pos 1)) store).events
            ≡ min (clamp_events_cap (finite (pos 1))) (length store.events)))
run-IsConsistent_example = run-IsConsistent 0 changes 3 (finite (pos 1))
