-- ===== src/Timekeeper/Engagement/CheckIns.antt =====
-- The count of those who checked in to a phase.
use ido_bata_server_bot.Prelude.{
  ℕ, ◌+◌, ◌≡◌, Bool, not, ◌||◌, String, List, [], ◌∷◌, arith, if◌then◌else◌, ◌==◌, any, any-append,
  count, length, length-append, get, put,
}
use ido_bata_server_bot.Timekeeper.Engagement.{
  Session, or_empty, add_number, record_check_in, get_session_check_in_count,
}

abbrev has : ℕ → List ℕ → Bool
has order orders = any (λ x. x == order) orders

length-add_number :
    (n : ℕ) (xs : List ℕ) → not (length (add_number n xs) == length xs) ≡ not (has n xs)
length-add_number n xs = ground (arith, length-append xs (n ∷ []))

has-add_number : (n m : ℕ) (xs : List ℕ) → has m (add_number n xs) ≡ (has m xs || n == m)
has-add_number n m xs = ground (arith, any-append (λ x. x == m) xs (n ∷ []))

-- One entry changes, or is added.
count-put :
    (user : String) (n m : ℕ) (es : List (String × List ℕ))
    → count
        (λ (e : String × List ℕ). has m e.1)
        (put user (add_number n (or_empty (get user es))) es)
      ≡ count (λ (e : String × List ℕ). has m e.1) es
        + (if n == m then (if has n (or_empty (get user es)) then 0 else 1) else 0)
count-put user n m [] = ground (arith, has-add_number n m [])
count-put user n m ((k, xs) ∷ es) = ground (arith, count-put user n m es, has-add_number n m xs)

-- A check-in answers whether the user is new to the phase, and exactly then the count of the phase
-- goes up by one; the counts of the other phases stay.
pub get_session_check_in_count-record_check_in :
    (user : String) (order other : ℕ) (s : Session)
    → let r = record_check_in user order s in
      get_session_check_in_count other r.1
      ≡ get_session_check_in_count other s + (if order == other then (if r.0 then 1 else 0) else 0)
unfolding record_check_in get_session_check_in_count
get_session_check_in_count-record_check_in user order other s = ground (
  arith,
  count-put user order other s.check_ins_by_user_id,
  length-add_number order (or_empty (get user s.check_ins_by_user_id)),
)
