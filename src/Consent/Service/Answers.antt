-- ===== src/Consent/Service/Answers.antt =====
-- What `authorize` answers, at once and after a grant or a revoke, over any storage that keeps the
-- interface's laws.
use ido_bata_server_bot.Prelude.{
  ◌+◌, ◌≤◌, String, ◌≡◌, ◌≢◌, refl, ap, ◌∙◌, Bool, true, false, not, none, List, [], ◌∷◌, arith,
  if◌then◌else◌, find, all, count, succeeded, ◌&&◌, ◌||◌, is_none, str_eq,
}
use ido_bata_server_bot.Consent.Types.{
  ConsentScope, ConsentSource, ConsentRecord, is_pair, has_key, is_valid_record,
}
use ido_bata_server_bot.Consent.Repository.{ConsentRepository, IsRepository, remove_row}
use ido_bata_server_bot.Consent.Repository.Rows.{
  grants, grant_outlives_remove_row, found_of_count, count-remove_row_self, remove_row-cons,
}
use ido_bata_server_bot.Consent.Service.{
  Options, Service, ConsentDecision, allowed, no_grant, wrong_policy, service_unavailable, decide,
  authorize, grant, new_grant, revoke, load_all,
}
use ido_bata_server_bot.Consent.Service.Laws.{
  IsCoherent, load_all-IsCoherent, load_all_lem, decision, grant-IsCoherent, revoke-IsCoherent,
  decision-grant, decision-revoke,
}

-- The rows are cached, or the storage can be read.
abbrev pub available : {S : Type 0} → ConsentRepository S → Service S → Bool
available repository s = not (is_none s.cache) || succeeded (repository.load s.storage).0

-- What a caller hears of a decision.
abbrev pub answer :
    {S : Type 0} → ConsentRepository S → Service S → ConsentDecision → ConsentDecision
answer repository s d = if available repository s then d else service_unavailable

abbrev pub is_allowed : ConsentDecision → Bool
is_allowed (allowed _ _ _) = true
is_allowed no_grant = false
is_allowed wrong_policy = false
is_allowed service_unavailable = false

-- Every active row of the pair has the current policy.
abbrev pub is_current : Options → String → ConsentScope → ConsentRecord → Bool
is_current options subject scope r =
    not (grants subject scope r) || str_eq r.policy_version options.policy_version

all-remove_row :
    (p : ConsentRecord → Bool) (subject : String) (scope : ConsentScope) (rs : List ConsentRecord)
    → all p rs ≡ true
    → all p (remove_row subject scope rs) ≡ true
all-remove_row p subject scope [] h = unfold remove_row in refl
all-remove_row p subject scope (x ∷ xs) h =
    ground (arith, remove_row-cons subject scope x xs, all-remove_row p subject scope xs)

decide_current :
    (options : Options) (subject : String) (scope : ConsentScope) (rs : List ConsentRecord)
    → all (is_current options subject scope) rs ≡ true
    → find (grants subject scope) rs ≢ none
    → is_allowed (decide options (find (grants subject scope) rs)) ≡ true
unfolding decide
decide_current options subject scope [] h k = absurd (k refl)
decide_current options subject scope (x ∷ xs) h k =
    ground (arith, decide_current options subject scope xs)

count-grants_le :
    (subject : String) (scope : ConsentScope) (rs : List ConsentRecord)
    → count (grants subject scope) rs ≤ count (has_key subject scope) rs
count-grants_le subject scope [] = omega arith
count-grants_le subject scope (x ∷ xs) = ground (arith, count-grants_le subject scope xs)

is_allowed-answer :
    {S : Type 0} (repository : ConsentRepository S) (s : Service S) (d : ConsentDecision)
    → is_allowed d ≡ true
    → is_allowed (answer repository s d) ≡ available repository s
is_allowed-answer repository s d h = ground arith

module _ {S : Type 0} {repository : ConsentRepository S} {stored : S → List ConsentRecord}
    {Ready : S → Type 0} (laws : IsRepository repository stored Ready) (options : Options) where
  pub authorize-decision :
      (subject : String) (scope : ConsentScope) (s : Service S)
      → IsCoherent stored Ready s
      → ((authorize repository options subject scope s).0
          ≡ answer repository s (decision laws options subject scope s))
        × (stored (authorize repository options subject scope s).1.storage ≡ stored s.storage)
        × IsCoherent stored Ready (authorize repository options subject scope s).1
  unfolding authorize load_all
  authorize-decision subject scope s h = (
    ground (arith, h.fresh, laws.load_stored s.storage h.ready),
    ground (arith, load_all_lem laws s h),
    load_all-IsCoherent laws s h,
  )

  -- After a grant of a valid record that returned, `authorize` allows the subject and the scope, with the
  -- current policy, the time and the source of the grant, and decides on every other pair of
  -- subject and scope as before; a grant that threw changes no decision. It answers
  -- `service_unavailable` instead only if it then has to read the storage and cannot.
  pub authorize-grant :
      (subject other : String) (scope scope' : ConsentScope) (source : ConsentSource) (at : String)
      (s : Service S)
      → is_valid_record (new_grant options subject scope source at) ≡ true
      → IsCoherent stored Ready s
      → let (result, t) = grant repository options subject scope source at s in
        (authorize repository options other scope' t).0
        ≡ answer repository t (
            if succeeded result && is_pair subject scope other scope'
            then allowed options.policy_version at source
            else decision laws options other scope' s)
  authorize-grant subject other scope scope' source at s v h =
      let t = (grant repository options subject scope source at s).1 in
      (authorize-decision other scope' t
        (grant-IsCoherent laws options subject scope source at s v h)).0
      ∙ ap (answer repository t)
          (decision-grant laws options subject other scope scope' source at s h)

  -- After a revoke that returned, `authorize` finds no grant for the subject and the scope, when at
  -- most one row had them, and decides on every other pair as before; a revoke that threw changes
  -- no decision. It answers `service_unavailable` instead only if it then has to read the storage
  -- and cannot.
  pub authorize-revoke :
      (subject other : String) (scope scope' : ConsentScope) (at : String) (s : Service S)
      → IsCoherent stored Ready s
      → count (has_key subject scope) (stored s.storage) ≤ 1
      → let (result, t) = revoke repository subject scope at s in
        (authorize repository options other scope' t).0
        ≡ answer repository t (
            if succeeded result && is_pair subject scope other scope'
            then no_grant
            else decision laws options other scope' s)
  authorize-revoke subject other scope scope' at s h one =
      let t = (revoke repository subject scope at s).1 in
      (authorize-decision other scope' t (revoke-IsCoherent laws options subject scope at s h)).0
      ∙ ap (answer repository t)
          (decision-revoke laws options subject other scope scope' at s h one)

  stored-revoke :
      (subject : String) (scope : ConsentScope) (at : String) (s : Service S)
      → IsCoherent stored Ready s
      → succeeded (revoke repository subject scope at s).0 ≡ true
      → stored (revoke repository subject scope at s).1.storage
        ≡ remove_row subject scope (stored s.storage)
  unfolding revoke
  stored-revoke subject scope at s h done =
      ground (arith, laws.remove_stored subject scope s.storage h.ready)

  -- The gap: where two active rows have the subject and the scope, all of them with the current
  -- policy, a revoke that returned has taken one row away, and `authorize` still allows, as long as
  -- it can read the rows.
  pub revoke_leaves_second_grant :
      (subject : String) (scope : ConsentScope) (at : String) (s : Service S)
      → IsCoherent stored Ready s
      → 2 ≤ count (grants subject scope) (stored s.storage)
      → all (is_current options subject scope) (stored s.storage) ≡ true
      → succeeded (revoke repository subject scope at s).0 ≡ true
      → let t = (revoke repository subject scope at s).1 in
        (count (has_key subject scope) (stored t.storage) + 1
          ≡ count (has_key subject scope) (stored s.storage))
        × (is_allowed (authorize repository options subject scope t).0 ≡ available repository t)
  revoke_leaves_second_grant subject scope at s h two current done =
      let rows = stored s.storage in
      let t = (revoke repository subject scope at s).1 in
      let same = stored-revoke subject scope at s h done in
      let found =
        found_of_count (grants subject scope) (remove_row subject scope rows)
          (grant_outlives_remove_row subject scope rows two) in
      let allows =
        decide_current options subject scope (remove_row subject scope rows)
          (all-remove_row (is_current options subject scope) subject scope rows current) found in
      (
        ap (λ rs. count (has_key subject scope) rs + 1) same
            ∙ omega (
              arith,
              count-remove_row_self subject scope rows,
              count-grants_le subject scope rows,
            ),
        ap is_allowed (
              (authorize-decision subject scope t
                (revoke-IsCoherent laws options subject scope at s h)).0
              ∙ ap (λ rs. answer repository t (decide options (find (grants subject scope) rs)))
                  same)
            ∙ is_allowed-answer repository t _ allows,
      )
