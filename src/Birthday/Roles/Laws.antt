-- ===== src/Birthday/Roles/Laws.antt =====
-- Who holds the role of the day after the ticks.
pub mod Midnight
use ido_bata_server_bot.Prelude.{
  ◌≡◌, refl, sym, inl, inr, Option-cases, ◌∙◌, ap, Bool, true, false, not, ◌&&◌, ◌||◌, String,
  Option, none, some, List, [], ◌∷◌, ◌++◌, map, if◌then◌else◌, str_eq, eq_iff, str_eq_refl, keep,
  any, get, put, get-put, Outcome, ok, threw, arith, All,
}
use ido_bata_server_bot.Birthday.Storage.{
  BirthdayEntry, BirthdayStore, load_birthdays, list_birthdays,
}
use ido_bata_server_bot.Birthday.Date.{JstDate}
use ido_bata_server_bot.Birthday.Handler.{HandlerDependencies, is_birthday_role_configured, allows}
use ido_bata_server_bot.Birthday.Roles.{
  MemberLike, World, AssignTickResult, RemoveTickResult, is_on_date, select_birthdays_on_date,
  entries_of, birthdays_of, has_role, with_role, without_role, assign_one, assign_all,
  consented_users, announce, run_assign_tick, remove_one, remove_all, run_remove_tick,
  run_midnight_tick,
}

-- The entries whose user filed them.
abbrev pub IsFiled : BirthdayStore → Type 0
IsFiled store = All (λ e. get e.1.user_id store ≡ some e.1) store

entries_of-select_birthdays_on_date :
    (store part : BirthdayStore) (target : JstDate)
    → All (λ e. get e.1.user_id store ≡ some e.1) part
    → entries_of store (select_birthdays_on_date (list_birthdays part) target)
      ≡ keep (is_on_date target) (list_birthdays part)
unfolding select_birthdays_on_date list_birthdays
entries_of-select_birthdays_on_date store [] target h = refl
entries_of-select_birthdays_on_date store (e ∷ part) target h =
    ground (arith, h.0, entries_of-select_birthdays_on_date store part target h.1)

any-append : (p : String → Bool) (xs ys : List String) → any p (xs ++ ys) ≡ any p xs || any p ys
any-append p [] ys = refl
any-append p (x ∷ xs) ys = ground (arith, any-append p xs ys)

has_role-with_role : (role : String) (m : MemberLike) → has_role role (with_role role m) ≡ true
has_role-with_role role m =
    ground (arith, any-append (λ r. str_eq r role) m.roles (role ∷ []), str_eq_refl role)

any-keep :
    (role : String) (rs : List String)
    → any (λ r. str_eq r role) (keep (λ r. not (str_eq r role)) rs) ≡ false
any-keep role [] = refl
any-keep role (r ∷ rs) = ground (arith, any-keep role rs)

has_role-without_role :
    (role : String) (m : MemberLike) → has_role role (without_role role m) ≡ false
has_role-without_role role m = any-keep role m.roles

abbrev granted_to : String → Bool → MemberLike → MemberLike
granted_to role chosen m =
    if chosen && m.obeys && not (has_role role m) then with_role role m else m

abbrev map_member : (MemberLike → MemberLike) → Option MemberLike → Option MemberLike
map_member f none = none
map_member f (some m) = some (f m)

assign_one-get :
    (role : String) (s : AssignTickResult × List (String × MemberLike)) (user u : String)
    → get u (assign_one role s user).1 ≡ map_member (granted_to role (str_eq user u)) (get u s.1)
unfolding assign_one
assign_one-get role (result, members) user u = elim (Option-cases (get user members)) [
  | inl e ↦ ground (arith, eq_iff user u)
  | inr (m, e) ↦ ground (arith, get-put user u (with_role role m) members, eq_iff user u)
]

abbrev is_one : String → List String → Bool
is_one u users = any (λ x. str_eq x u) users

granted_twice :
    (role : String) (a b : Bool) (m : MemberLike)
    → granted_to role b (granted_to role a m) ≡ granted_to role (a || b) m
granted_twice role a b m = ground (arith, has_role-with_role role m)

map_granted_twice :
    (role : String) (a b : Bool) (m : Option MemberLike)
    → map_member (granted_to role b) (map_member (granted_to role a) m)
      ≡ map_member (granted_to role (a || b)) m
map_granted_twice role a b none = refl
map_granted_twice role a b (some m) = ap some (granted_twice role a b m)

map_same :
    (f : MemberLike → MemberLike)
    → ((m : MemberLike) → f m ≡ m)
    → (o : Option MemberLike) → map_member f o ≡ o
map_same f h none = refl
map_same f h (some m) = ap some (h m)

assign_all-get :
    (role : String) (s : AssignTickResult × List (String × MemberLike)) (users : List String)
    (u : String)
    → get u (assign_all role s users).1 ≡ map_member (granted_to role (is_one u users)) (get u s.1)
unfolding assign_all
assign_all-get role s [] u = sym (map_same (granted_to role false) (λ _. refl) (get u s.1))
assign_all-get role s (user ∷ users) u =
    assign_all-get role (assign_one role s user) users u
    ∙ ap (map_member (granted_to role (is_one u users))) (assign_one-get role s user u)
    ∙ map_granted_twice role (str_eq user u) (is_one u users) (get u s.1)

abbrev taken_from : String → Bool → MemberLike → MemberLike
taken_from role chosen m = if chosen && m.obeys && has_role role m then without_role role m else m

remove_one-get :
    (role : String) (s : RemoveTickResult × List (String × MemberLike)) (user u : String)
    → get u (remove_one role s user).1 ≡ map_member (taken_from role (str_eq user u)) (get u s.1)
unfolding remove_one
remove_one-get role (result, members) user u = elim (Option-cases (get user members)) [
  | inl e ↦ ground (arith, eq_iff user u)
  | inr (m, e) ↦ ground (arith, get-put user u (without_role role m) members, eq_iff user u)
]

taken_twice :
    (role : String) (a b : Bool) (m : MemberLike)
    → taken_from role b (taken_from role a m) ≡ taken_from role (a || b) m
taken_twice role a b m = ground (arith, has_role-without_role role m)

map_taken_twice :
    (role : String) (a b : Bool) (m : Option MemberLike)
    → map_member (taken_from role b) (map_member (taken_from role a) m)
      ≡ map_member (taken_from role (a || b)) m
map_taken_twice role a b none = refl
map_taken_twice role a b (some m) = ap some (taken_twice role a b m)

remove_all-get :
    (role : String) (s : RemoveTickResult × List (String × MemberLike)) (users : List String)
    (u : String)
    → get u (remove_all role s users).1 ≡ map_member (taken_from role (is_one u users)) (get u s.1)
unfolding remove_all
remove_all-get role s [] u = sym (map_same (taken_from role false) (λ _. refl) (get u s.1))
remove_all-get role s (user ∷ users) u =
    remove_all-get role (remove_one role s user) users u
    ∙ ap (map_member (taken_from role (is_one u users))) (remove_one-get role s user u)
    ∙ map_taken_twice role (str_eq user u) (is_one u users) (get u s.1)

-- The birthday of a user is filed for a day.
abbrev pub has_birthday : BirthdayStore → JstDate → String → Bool
has_birthday store target u = any (λ e. str_eq e.1.user_id u && is_on_date target e.1) store

is_one-list_birthdays :
    (store : BirthdayStore) (target : JstDate) (u : String)
    → is_one u (map (λ e. e.user_id) (keep (is_on_date target) (list_birthdays store)))
      ≡ has_birthday store target u
unfolding list_birthdays
is_one-list_birthdays [] target u = refl
is_one-list_birthdays (e ∷ store) target u = ground (arith, is_one-list_birthdays store target u)

is_one-consented_users :
    (deps : HandlerDependencies) (es : List BirthdayEntry) (u : String)
    → is_one u (consented_users deps es) ≡ (allows deps u && is_one u (map (λ e. e.user_id) es))
unfolding consented_users
is_one-consented_users deps [] u = ground arith
is_one-consented_users deps (e ∷ es) u =
    ground (arith, is_one-consented_users deps es u, eq_iff e.user_id u)
