-- ===== src/Events/Consistent.antt =====
-- What the snapshots of src/runtime/status-store.ts show.
use ido_bata_server_bot.Prelude.{
  ℕ, zero, suc, min, length-append, ◌-◌, ◌≤◌, Bool, true, false, none, List, [], ◌∷◌, ◌++◌,
  if◌then◌else◌, ltb, length, drop, ◌≡◌, refl, arith, length-drop, pos, negsuc, subst, sym,
  append_assoc, append-nil,
}
use ido_bata_server_bot.Events.RingBuffer.{Size, not_finite, finite, shift_to}
use ido_bata_server_bot.Events.Recent.{
  IsEnd, IsEnd-append, IsEnd-trans, length-shift_to, shift_to-IsEnd,
}
use ido_bata_server_bot.Events.StatusStore.{
  RuntimeStatusStore, events_cap_min, events_cap_max, clamp_events_cap, read, snapshot_of,
  create_runtime_status_store, notify, subscribe, unsubscribe, set_slices, append_event,
  set_events_cap, cut_to, clear_listeners,
}

pub data Operation (S E : Type 0) : Type 0 where
  subscribed unsubscribed : ℕ → Operation S E
  patched : (S → S) → Operation S E
  appended : E → Operation S E
  recapped : Size → Operation S E
  detached : Operation S E

clamp_events_cap_range :
    (size : Size)
    → (events_cap_min ≤ clamp_events_cap size) × (clamp_events_cap size ≤ events_cap_max)
unfolding clamp_events_cap
clamp_events_cap_range not_finite = (omega arith, omega arith)
clamp_events_cap_range (finite (negsuc n)) = (omega arith, omega arith)
clamp_events_cap_range (finite (pos n)) = (ground arith, ground arith)

module _ {E : Type 0} where
  drop-IsEnd : (n : ℕ) (xs : List E) → IsEnd (drop n xs) xs
  drop-IsEnd zero xs = ([], refl)
  drop-IsEnd (suc n) [] = ([], refl)
  drop-IsEnd (suc n) (x ∷ xs) = (x ∷ (drop-IsEnd n xs).0, ground (arith, (drop-IsEnd n xs).1))

  if-IsEnd :
      (b : Bool) (xs ys zs : List E) → IsEnd xs zs → IsEnd ys zs → IsEnd (if b then xs else ys) zs
  if-IsEnd true xs ys zs h k = h
  if-IsEnd false xs ys zs h k = k

module _ {S E : Type 0} where
  unfoldable pub apply : Operation S E → RuntimeStatusStore S E → RuntimeStatusStore S E
  apply (subscribed listener) store = subscribe listener store
  apply (unsubscribed listener) store = unsubscribe listener store
  apply (patched patch) store = set_slices patch store
  apply (appended event) store = append_event event store
  apply (recapped size) store = set_events_cap size store
  apply detached store = clear_listeners store

  unfoldable pub run : List (Operation S E) → RuntimeStatusStore S E → RuntimeStatusStore S E
  unfolding apply
  run [] store = store
  run (o ∷ os) store = run os (apply o store)

  -- The events that the operations append, oldest first.
  unfoldable pub appended_by : List (Operation S E) → List E
  appended_by [] = []
  appended_by (appended event ∷ os) = event ∷ appended_by os
  appended_by (_ ∷ os) = appended_by os

  -- The slices after the patches.
  unfoldable pub patched_by : List (Operation S E) → S → S
  patched_by [] slices = slices
  patched_by (patched patch ∷ os) slices = patched_by os (patch slices)
  patched_by (_ ∷ os) slices = patched_by os slices

  -- The snapshot shows the slices and the store's events, which are the last of all appended and at
  -- most as many as the cap, which is in range.
  pub record IsConsistent (slices : S) (all : List E) (store : RuntimeStatusStore S E)
      : Type 0 where
    pub shows : snapshot_of store ≡ (slices, store.events)
    pub least : events_cap_min ≤ store.events_cap
    pub most : store.events_cap ≤ events_cap_max
    pub fits : length store.events ≤ store.events_cap
    pub recent : IsEnd store.events all

  append_event-IsConsistent :
      (event : E) (slices : S) (all : List E) (store : RuntimeStatusStore S E)
      → IsConsistent slices all store
      → IsConsistent slices (all ++ event ∷ []) (append_event event store)
  unfolding append_event snapshot_of notify
  append_event-IsConsistent event slices all store h = record {
    shows = ground (arith, h.shows);
    least = h.least;
    most = h.most;
    fits = omega (arith, length-shift_to store.events_cap (store.events ++ event ∷ []));
    recent =
        IsEnd-trans (shift_to store.events_cap (store.events ++ event ∷ []))
          (store.events ++ event ∷ []) (all ++ event ∷ [])
          (shift_to-IsEnd store.events_cap (store.events ++ event ∷ []))
          (IsEnd-append store.events all (event ∷ []) h.recent);
  }

  set_events_cap-IsConsistent :
      (size : Size) (slices : S) (all : List E) (store : RuntimeStatusStore S E)
      → IsConsistent slices all store
      → IsConsistent slices all (set_events_cap size store)
  unfolding set_events_cap snapshot_of notify
  set_events_cap-IsConsistent size slices all store h = record {
    shows = ground (arith, h.shows);
    least = (clamp_events_cap_range size).0;
    most = (clamp_events_cap_range size).1;
    fits = ground (arith, length-drop (length store.events - clamp_events_cap size) store.events);
    recent =
        IsEnd-trans (cut_to (clamp_events_cap size) store.events) store.events all
          (if-IsEnd (ltb (clamp_events_cap size) (length store.events)) _ _ store.events
            (drop-IsEnd (length store.events - clamp_events_cap size) store.events) ([], refl))
          h.recent;
  }

  -- An operation that leaves the events alone and shows the slices given.
  kept-IsConsistent :
      (slices next : S) (all : List E) (store after : RuntimeStatusStore S E)
      → after.events ≡ store.events
      → after.events_cap ≡ store.events_cap
      → snapshot_of after ≡ (next, store.events)
      → IsConsistent slices all store
      → IsConsistent next all after
  kept-IsConsistent slices next all store after e c s h = record {
    shows = ground (arith, e, s);
    least = ground (arith, c, h.least);
    most = ground (arith, c, h.most);
    fits = ground (arith, e, c, h.fits);
    recent = (h.recent.0, ground (arith, e, h.recent.1));
  }

  run-IsConsistent_from :
      (os : List (Operation S E)) (slices : S) (all : List E) (store : RuntimeStatusStore S E)
      → IsConsistent slices all store
      → IsConsistent (patched_by os slices) (all ++ appended_by os) (run os store)
  unfolding run patched_by appended_by subscribe unsubscribe set_slices clear_listeners snapshot_of
      notify
  run-IsConsistent_from [] slices all store h =
      subst (λ l. IsConsistent slices l store) (sym (append-nil all)) h
  run-IsConsistent_from (subscribed l ∷ os) slices all store h =
      run-IsConsistent_from os slices all (subscribe l store)
        (kept-IsConsistent slices slices all store (subscribe l store) refl refl h.shows h)
  run-IsConsistent_from (unsubscribed l ∷ os) slices all store h =
      run-IsConsistent_from os slices all (unsubscribe l store)
        (kept-IsConsistent slices slices all store (unsubscribe l store) refl refl h.shows h)
  run-IsConsistent_from (patched patch ∷ os) slices all store h =
      run-IsConsistent_from os (patch slices) all (set_slices patch store) (
        kept-IsConsistent slices (patch slices) all store (set_slices patch store) refl refl
          (ground (arith, h.shows)) h)
  run-IsConsistent_from (appended event ∷ os) slices all store h =
      subst (λ l. IsConsistent (patched_by os slices) l (run os (append_event event store)))
        (append_assoc all (event ∷ []) (appended_by os))
        (run-IsConsistent_from os slices (all ++ event ∷ []) (append_event event store)
          (append_event-IsConsistent event slices all store h))
  run-IsConsistent_from (recapped size ∷ os) slices all store h =
      run-IsConsistent_from os slices all (set_events_cap size store)
        (set_events_cap-IsConsistent size slices all store h)
  run-IsConsistent_from (detached ∷ os) slices all store h =
      run-IsConsistent_from os slices all (clear_listeners store)
        (kept-IsConsistent slices slices all store (clear_listeners store) refl refl h.shows h)

  length-append_event :
      (event : E) (store : RuntimeStatusStore S E)
      → length (append_event event store).events ≡ min store.events_cap (suc (length store.events))
  unfolding append_event notify
  length-append_event event store = omega (
    arith,
    length-shift_to store.events_cap (store.events ++ event ∷ []),
    length-append store.events (event ∷ []),
  )

  length-set_events_cap :
      (size : Size) (store : RuntimeStatusStore S E)
      → length (set_events_cap size store).events
        ≡ min (clamp_events_cap size) (length store.events)
  unfolding set_events_cap notify
  length-set_events_cap size store =
      ground (arith, length-drop (length store.events - clamp_events_cap size) store.events)

  -- After any operations on a store that was created without events of its own, its snapshot shows
  -- the patched slices and the last of the events appended, oldest first, at most as many as the cap,
  -- which is between the two bounds whatever was asked for. A further event drops the oldest
  -- only when the store is full, and a further cap drops only what is over it.
  pub run-IsConsistent :
      (slices : S) (os : List (Operation S E)) (event : E) (size : Size)
      → let store = run os (create_runtime_status_store slices none) in
        IsConsistent (patched_by os slices) (appended_by os) store
        × ((length (append_event event store).events
              ≡ min store.events_cap (suc (length store.events)))
            × (length (set_events_cap size store).events
                ≡ min (clamp_events_cap size) (length store.events)))
  unfolding create_runtime_status_store snapshot_of
  run-IsConsistent slices os event size =
      let store = run os (create_runtime_status_store slices none) in
      (
        run-IsConsistent_from os slices [] (create_runtime_status_store slices none) (record {
          shows = refl;
          least = (clamp_events_cap_range (finite (pos 200))).0;
          most = (clamp_events_cap_range (finite (pos 200))).1;
          fits = omega arith;
          recent = ([], refl);
        }),
        (length-append_event event store, length-set_events_cap size store),
      )

  -- The snapshot that a subscriber gets before the first event shows events that are appended later:
  -- it is not the frozen copy that later ones are.
  pub read-live :
      (slices : S) (event : E)
      → (read
            (create_runtime_status_store {E = E} slices none).shown
            (create_runtime_status_store {E = E} slices none).events
          ≡ [])
        × (read
              (create_runtime_status_store {E = E} slices none).shown
              (append_event event (create_runtime_status_store slices none)).events
            ≡ event ∷ [])
  unfolding create_runtime_status_store append_event notify shift_to clamp_events_cap
  read-live slices event = (refl, refl)
