-- ===== src/Birthday/Roles/Laws/Midnight.antt =====
-- The ticks of a midnight together.
use ido_bata_server_bot.Prelude.{
  ◌≡◌, refl, ◌∙◌, ap, Bool, true, false, not, ◌&&◌, ◌||◌, String, Option, none, some, List, map,
  get, ok, arith,
}
use ido_bata_server_bot.Birthday.Storage.{BirthdayStore, load_birthdays}
use ido_bata_server_bot.Birthday.Date.{JstDate}
use ido_bata_server_bot.Birthday.Handler.{HandlerDependencies, is_birthday_role_configured, allows}
use ido_bata_server_bot.Birthday.Roles.{
  MemberLike, World, birthdays_of, has_role, consented_users, new_assignment, new_removal,
  run_assign_tick, run_remove_tick, run_midnight_tick,
}
use ido_bata_server_bot.Birthday.Roles.Laws.{
  IsFiled, entries_of-select_birthdays_on_date, granted_to, taken_from, map_member, is_one,
  assign_all-get, remove_all-get, has_birthday, is_one-list_birthdays, is_one-consented_users,
  has_role-with_role, has_role-without_role,
}

is_one-birthdays_of :
    (store : BirthdayStore) (target : JstDate) (u : String)
    → IsFiled store
    → is_one u (map (λ e. e.user_id) (birthdays_of store target)) ≡ has_birthday store target u
unfolding birthdays_of
is_one-birthdays_of store target u h =
    ap (λ es. is_one u (map (λ e. e.user_id) es))
      (entries_of-select_birthdays_on_date store store target h)
    ∙ is_one-list_birthdays store target u

module _ (deps : HandlerDependencies) (store : BirthdayStore) where
  run_remove_tick-get :
      (target : JstDate) (w : World) (u : String)
      → is_birthday_role_configured deps.config ≡ true
      → (load_birthdays deps.is_date w.registry).0 ≡ ok store
      → IsFiled store
      → get u (run_remove_tick deps target w).1.members
        ≡ map_member
            (taken_from deps.config.role_id (has_birthday store target u))
            (get u w.members)
  unfolding run_remove_tick
  run_remove_tick-get target w u c h f = rw c (
      rw h (
        remove_all-get deps.config.role_id
          (new_removal (map (λ e. e.user_id) (birthdays_of store target)), w.members)
          (map (λ e. e.user_id) (birthdays_of store target)) u
        ∙ ap (λ (b : Bool). map_member (taken_from deps.config.role_id b) (get u w.members))
            (is_one-birthdays_of store target u f)))

  run_remove_tick-registry :
      (target : JstDate) (w : World)
      → is_birthday_role_configured deps.config ≡ true
      → (load_birthdays deps.is_date w.registry).0 ≡ ok store
      → (run_remove_tick deps target w).1.registry ≡ (load_birthdays deps.is_date w.registry).1
  unfolding run_remove_tick
  run_remove_tick-registry target w c h = rw c (rw h refl)

  run_assign_tick-get :
      (target : JstDate) (w : World) (u : String)
      → is_birthday_role_configured deps.config ≡ true
      → (load_birthdays deps.is_date w.registry).0 ≡ ok store
      → IsFiled store
      → get u (run_assign_tick deps target w).1.members
        ≡ map_member
            (granted_to deps.config.role_id (allows deps u && has_birthday store target u))
            (get u w.members)
  unfolding run_assign_tick
  run_assign_tick-get target w u c h f =
      let users = consented_users deps (birthdays_of store target) in
      rw c (
        rw h (
          assign_all-get deps.config.role_id (new_assignment users, w.members) users u
          ∙ ap (λ (b : Bool). map_member (granted_to deps.config.role_id b) (get u w.members))
              (is_one-consented_users deps (birthdays_of store target) u
                ∙ ap (λ (b : Bool). allows deps u && b) (is_one-birthdays_of store target u f))))

  abbrev holds_of : Option MemberLike → Bool
  holds_of none = false
  holds_of (some m) = has_role deps.config.role_id m

  abbrev pub holds : String → List (String × MemberLike) → Bool
  holds u members = holds_of (get u members)

  when_obeyed :
      (a b r o : Bool) → o ≡ true → ((o && a) || (r && not (o && b))) ≡ (a || (r && not b))
  when_obeyed a b r o h = ground arith

  has_role-granted_to :
      (a : Bool) (m : MemberLike)
      → has_role deps.config.role_id (granted_to deps.config.role_id a m)
        ≡ ((m.obeys && a) || has_role deps.config.role_id m)
  has_role-granted_to a m = ground (arith, has_role-with_role deps.config.role_id m)

  has_role-taken_from :
      (b : Bool) (m : MemberLike)
      → has_role deps.config.role_id (taken_from deps.config.role_id b m)
        ≡ (has_role deps.config.role_id m && not (m.obeys && b))
  has_role-taken_from b m = ground (arith, has_role-without_role deps.config.role_id m)

  obeys-taken_from :
      (b : Bool) (m : MemberLike) → (taken_from deps.config.role_id b m).obeys ≡ m.obeys
  obeys-taken_from b m = ground arith

  holds-both :
      (a b : Bool) (m : MemberLike)
      → has_role deps.config.role_id
          (granted_to deps.config.role_id a (taken_from deps.config.role_id b m))
        ≡ ((m.obeys && a) || (has_role deps.config.role_id m && not (m.obeys && b)))
  holds-both a b m =
      has_role-granted_to a (taken_from deps.config.role_id b m)
      ∙ ap
          (λ (o : Bool).
            (o && a) || has_role deps.config.role_id (taken_from deps.config.role_id b m))
          (obeys-taken_from b m)
      ∙ ap (λ (r : Bool). (m.obeys && a) || r) (has_role-taken_from b m)

  -- After the ticks of a midnight that both read the same registry, each of whose entries is filed under its user, a
  -- member whose roles Discord lets the bot change holds the role of the day if the consent gate allows it and the
  -- user's birthday is today, and else if it was held before and the user's birthday was
  -- not yesterday.
  pub run_midnight_tick-holds :
      (yesterday today : JstDate) (w : World) (u : String) (m : MemberLike)
      → is_birthday_role_configured deps.config ≡ true
      → (load_birthdays deps.is_date w.registry).0 ≡ ok store
      → (load_birthdays deps.is_date (load_birthdays deps.is_date w.registry).1).0 ≡ ok store
      → IsFiled store
      → get u w.members ≡ some m
      → m.obeys ≡ true
      → holds u (run_midnight_tick deps yesterday today w).members ≡ (
          (allows deps u && has_birthday store today u)
          || (has_role deps.config.role_id m && not (has_birthday store yesterday u)))
  unfolding run_midnight_tick
  run_midnight_tick-holds yesterday today w u m c h k f g o =
      let w1 = (run_remove_tick deps yesterday w).1 in
      let role = deps.config.role_id in
      let b = has_birthday store yesterday u in
      let a = allows deps u && has_birthday store today u in
      let p =
        ap (λ d. (load_birthdays deps.is_date d).0) (run_remove_tick-registry yesterday w c h)
        ∙ k in
      ap holds_of (
        run_assign_tick-get today w1 u c p f
        ∙ ap (map_member (granted_to role a))
            (run_remove_tick-get yesterday w u c h f ∙ ap (map_member (taken_from role b)) g))
      ∙ holds-both a b m
      ∙ when_obeyed a b (has_role role m) m.obeys o
