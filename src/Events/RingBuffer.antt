-- ===== src/Events/RingBuffer.antt =====
-- src/lib/logger/ring-buffer.ts. A size is not finite, or finite with the given integer part.
use ido_bata_server_bot.Prelude.{ℕ, List, [], ◌∷◌, ◌++◌, if◌then◌else◌, ltb, length, ℤ, pos, negsuc}

abbrev pub ring_min : ℕ
ring_min = 10

abbrev pub ring_max : ℕ
ring_max = 10000

pub data Size : Type 0 where
  not_finite : Size
  finite : ℤ → Size

-- `clamp` of an integer part
abbrev pub clamp_integer : ℤ → ℕ
clamp_integer (negsuc _) = ring_min
clamp_integer (pos n) = if ltb n ring_min then ring_min else if ltb ring_max n then ring_max else n

unfoldable pub clamp : Size → ℕ
clamp not_finite = ring_min
clamp (finite value) = clamp_integer value

pub record LogRingBuffer (A : Type 0) : Type 0 where
  pub entries : List A
  pub capacity : ℕ

module _ {A : Type 0} where
  -- `while (entries.length > capacity) entries.shift()`
  unfoldable pub shift_to : ℕ → List A → List A
  shift_to capacity [] = []
  shift_to capacity (x ∷ entries) =
      let rest = shift_to capacity entries in
      if ltb capacity (length (x ∷ entries)) then rest else x ∷ entries

  unfoldable pub create_log_ring_buffer : Size → LogRingBuffer A
  unfolding clamp
  create_log_ring_buffer initial = record { entries = []; capacity = clamp initial }

  unfoldable pub set_capacity : Size → LogRingBuffer A → LogRingBuffer A
  unfolding clamp shift_to
  set_capacity next buffer = record {
    entries = shift_to (clamp next) buffer.entries;
    capacity = clamp next;
  }

  unfoldable pub push : A → LogRingBuffer A → LogRingBuffer A
  unfolding shift_to
  push entry buffer = record buffer {
    entries = shift_to buffer.capacity (buffer.entries ++ entry ∷ []);
  }

  unfoldable pub clear_entries : LogRingBuffer A → LogRingBuffer A
  clear_entries buffer = record buffer { entries = [] }
