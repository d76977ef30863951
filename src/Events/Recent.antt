-- ===== src/Events/Recent.antt =====
-- The records that src/lib/logger/ring-buffer.ts keeps.
use ido_bata_server_bot.Prelude.{
  ℕ, suc, ◌≤◌, min, List, [], ◌∷◌, ◌++◌, ltb, length, pos, negsuc, ◌≡◌, refl, arith, length-append,
  append_assoc, Bool-cases, inl, inr,
}
use ido_bata_server_bot.Events.RingBuffer.{
  Size, not_finite, finite, clamp, LogRingBuffer, shift_to, create_log_ring_buffer, set_capacity,
  push, clear_entries, ring_min, ring_max,
}

pub clamp_range : (size : Size) → (ring_min ≤ clamp size) × (clamp size ≤ ring_max)
unfolding clamp
clamp_range not_finite = (omega arith, omega arith)
clamp_range (finite (negsuc n)) = (omega arith, omega arith)
clamp_range (finite (pos n)) = (ground arith, ground arith)

module _ {A : Type 0} where
  -- `recent` are the last elements of `all`.
  abbrev pub IsEnd : List A → List A → Type 0
  IsEnd recent all = (earlier : List A) × (earlier ++ recent ≡ all)

  pub IsEnd-append :
      (recent all more : List A) → IsEnd recent all → IsEnd (recent ++ more) (all ++ more)
  IsEnd-append recent all more h = (h.0, ground (arith, h.1, append_assoc h.0 recent more))

  pub IsEnd-trans : (xs ys zs : List A) → IsEnd xs ys → IsEnd ys zs → IsEnd xs zs
  IsEnd-trans xs ys zs h k = (k.0 ++ h.0, ground (arith, h.1, k.1, append_assoc k.0 h.0 xs))

  pub length-shift_to :
      (capacity : ℕ) (xs : List A) → length (shift_to capacity xs) ≡ min capacity (length xs)
  unfolding shift_to
  length-shift_to capacity [] = ground arith
  length-shift_to capacity (x ∷ xs) = ground (arith, length-shift_to capacity xs)

  pub shift_to-IsEnd : (capacity : ℕ) (xs : List A) → IsEnd (shift_to capacity xs) xs
  unfolding shift_to
  shift_to-IsEnd capacity [] = ([], refl)
  shift_to-IsEnd capacity (x ∷ xs) = elim (Bool-cases (ltb capacity (length (x ∷ xs)))) [
    | inl over ↦
        (x ∷ (shift_to-IsEnd capacity xs).0, ground (arith, over, (shift_to-IsEnd capacity xs).1))
    | inr fits ↦ ([], ground (arith, fits))
  ]

-- The operations of a buffer, and the records pushed since it was last cleared.
pub data Operation (A : Type 0) : Type 0 where
  resized : Size → Operation A
  pushed : A → Operation A
  emptied : Operation A

module _ {A : Type 0} where
  unfoldable pub apply : Operation A → LogRingBuffer A → LogRingBuffer A
  apply (resized size) buffer = set_capacity size buffer
  apply (pushed entry) buffer = push entry buffer
  apply emptied buffer = clear_entries buffer

  unfoldable pub run : List (Operation A) → LogRingBuffer A → LogRingBuffer A
  unfolding apply
  run [] buffer = buffer
  run (o ∷ os) buffer = run os (apply o buffer)

  unfoldable pub logged : List (Operation A) → List A → List A
  logged [] entries = entries
  logged (resized size ∷ os) entries = logged os entries
  logged (pushed entry ∷ os) entries = logged os (entries ++ entry ∷ [])
  logged (emptied ∷ os) entries = logged os []

  pub record IsRecent (all : List A) (buffer : LogRingBuffer A) : Type 0 where
    pub least : ring_min ≤ buffer.capacity
    pub most : buffer.capacity ≤ ring_max
    pub fits : length buffer.entries ≤ buffer.capacity
    pub recent : IsEnd buffer.entries all

  set_capacity-IsRecent :
      (size : Size) (all : List A) (buffer : LogRingBuffer A)
      → IsRecent all buffer
      → IsRecent all (set_capacity size buffer)
  unfolding set_capacity
  set_capacity-IsRecent size all buffer h = record {
    least = (clamp_range size).0;
    most = (clamp_range size).1;
    fits = omega (arith, length-shift_to (clamp size) buffer.entries);
    recent =
        IsEnd-trans (shift_to (clamp size) buffer.entries) buffer.entries all
          (shift_to-IsEnd (clamp size) buffer.entries) h.recent;
  }

  push-IsRecent :
      (entry : A) (all : List A) (buffer : LogRingBuffer A)
      → IsRecent all buffer
      → IsRecent (all ++ entry ∷ []) (push entry buffer)
  unfolding push
  push-IsRecent entry all buffer h = record {
    least = h.least;
    most = h.most;
    fits = omega (arith, length-shift_to buffer.capacity (buffer.entries ++ entry ∷ []));
    recent =
        IsEnd-trans (shift_to buffer.capacity (buffer.entries ++ entry ∷ []))
          (buffer.entries ++ entry ∷ []) (all ++ entry ∷ [])
          (shift_to-IsEnd buffer.capacity (buffer.entries ++ entry ∷ []))
          (IsEnd-append buffer.entries all (entry ∷ []) h.recent);
  }

  clear_entries-IsRecent :
      (all : List A) (buffer : LogRingBuffer A)
      → IsRecent all buffer
      → IsRecent [] (clear_entries buffer)
  unfolding clear_entries
  clear_entries-IsRecent all buffer h = record {
    least = h.least;
    most = h.most;
    fits = omega arith;
    recent = ([], refl);
  }

  run-IsRecent_from :
      (os : List (Operation A)) (all : List A) (buffer : LogRingBuffer A)
      → IsRecent all buffer
      → IsRecent (logged os all) (run os buffer)
  unfolding run logged
  run-IsRecent_from [] all buffer h = h
  run-IsRecent_from (resized size ∷ os) all buffer h =
      run-IsRecent_from os all (set_capacity size buffer) (set_capacity-IsRecent size all buffer h)
  run-IsRecent_from (pushed entry ∷ os) all buffer h =
      run-IsRecent_from os (all ++ entry ∷ []) (push entry buffer)
        (push-IsRecent entry all buffer h)
  run-IsRecent_from (emptied ∷ os) all buffer h =
      run-IsRecent_from os [] (clear_entries buffer) (clear_entries-IsRecent all buffer h)

  -- After any operations on a new buffer its capacity is between the two bounds, whatever sizes were
  -- asked for; it holds at most that many records, which are the last of those pushed since it was
  -- cleared, oldest first; and a further push drops a record only when the buffer is full.
  pub run-IsRecent :
      (initial : Size) (os : List (Operation A)) (entry : A)
      → IsRecent (logged os []) (run os (create_log_ring_buffer initial))
        × (length (push entry (run os (create_log_ring_buffer initial))).entries
            ≡ min
                (run os (create_log_ring_buffer initial)).capacity
                (suc (length (run os (create_log_ring_buffer initial)).entries)))
  unfolding create_log_ring_buffer push
  run-IsRecent initial os entry = (
    run-IsRecent_from os [] (create_log_ring_buffer initial) (record {
      least = (clamp_range initial).0;
      most = (clamp_range initial).1;
      fits = omega arith;
      recent = ([], refl);
    }),
    omega (
      arith,
      length-shift_to (run os (create_log_ring_buffer initial)).capacity
          ((run os (create_log_ring_buffer initial)).entries ++ entry ∷ []),
      length-append (run os (create_log_ring_buffer initial)).entries (entry ∷ []),
    ),
  )
