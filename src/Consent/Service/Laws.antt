-- ===== src/Consent/Service/Laws.antt =====
-- The operations of the consent service over any storage that keeps the interface's laws.
use ido_bata_server_bot.Prelude.{
  ◌≤◌, String, ◌≡◌, refl, ◌⊎◌, true, false, none, some, List, ◌++◌, map, arith, if◌then◌else◌,
  eq_iff, find, any, count, succeeded, ◌&&◌, Bool-cases, inl, inr,
}
use ido_bata_server_bot.Consent.Types.{
  ConsentScope, ConsentSource, ConsentRecord, is_pair, is_pair_iff, apart_pairs, has_key_iff,
  revoked, has_key, is_valid_record,
}
use ido_bata_server_bot.Consent.Repository.{ConsentRepository, IsRepository, Writes, upsert_row}
use ido_bata_server_bot.Consent.Repository.Rows.{
  grants, find-upsert_row_self, find-upsert_row_ne, find-remove_row_ne, remove_row_absent,
  no_row_left,
}
use ido_bata_server_bot.Consent.Service.{
  Options, Service, ConsentDecision, allowed, no_grant, decide, grant, new_grant, revoke, load_all,
}

pub new_grant-subject :
    (options : Options) (subject : String) (scope : ConsentScope) (source : ConsentSource)
    (at : String)
    → (new_grant options subject scope source at).subject_id ≡ subject
unfolding new_grant
new_grant-subject options subject scope source at = refl

-- The storage is in order, and a cached list is the stored one.
pub record IsCoherent {S : Type 0} (stored : S → List ConsentRecord) (Ready : S → Type 0)
    (s : Service S) : Type 0 where
  pub ready : Ready s.storage
  pub fresh : (s.cache ≡ none) ⊎ (s.cache ≡ some (stored s.storage))

module _ {S : Type 0} {repository : ConsentRepository S} {stored : S → List ConsentRecord}
    {Ready : S → Type 0} (laws : IsRepository repository stored Ready) where
  pub load_all-IsCoherent :
      (s : Service S)
      → IsCoherent stored Ready s
      → IsCoherent stored Ready (load_all repository s).1
  unfolding load_all
  load_all-IsCoherent s h =
      ground (arith, laws.load_ready s.storage h.ready, laws.load_stored s.storage h.ready)

  pub load_all_lem :
      (s : Service S)
      → IsCoherent stored Ready s
      → Writes
          (λ (t : Service S). stored t.storage)
          (stored s.storage)
          (stored s.storage)
          (stored s.storage)
          (load_all repository s)
  unfolding load_all
  load_all_lem s h = ground (arith, laws.load_stored s.storage h.ready)

module _ {S : Type 0} {repository : ConsentRepository S} {stored : S → List ConsentRecord}
    {Ready : S → Type 0} (laws : IsRepository repository stored Ready) (options : Options) where
  -- The decision that a caller may rely on, read off the stored rows alone.
  abbrev pub decision : String → ConsentScope → Service S → ConsentDecision
  decision subject scope s = decide options (find (grants subject scope) (stored s.storage))

  pub grant-IsCoherent :
      (subject : String) (scope : ConsentScope) (source : ConsentSource) (at : String)
      (s : Service S)
      → is_valid_record (new_grant options subject scope source at) ≡ true
      → IsCoherent stored Ready s
      → IsCoherent stored Ready (grant repository options subject scope source at s).1
  unfolding grant
  grant-IsCoherent subject scope source at s v h = ground (
    arith,
    laws.upsert_ready (new_grant options subject scope source at) s.storage v h.ready,
    laws.upsert_stored (new_grant options subject scope source at) s.storage h.ready,
  )

  pub revoke-IsCoherent :
      (subject : String) (scope : ConsentScope) (at : String) (s : Service S)
      → IsCoherent stored Ready s
      → IsCoherent stored Ready (revoke repository subject scope at s).1
  unfolding revoke
  revoke-IsCoherent subject scope at s h = ground (
    arith,
    laws.remove_ready subject scope s.storage h.ready,
    laws.remove_stored subject scope s.storage h.ready,
    remove_row_absent subject scope (stored s.storage),
  )

  granted_decision :
      (subject : String) (scope : ConsentScope) (source : ConsentSource) (at : String)
      (s : Service S)
      → decide options (
          find
            (grants subject scope)
            (upsert_row (new_grant options subject scope source at) (stored s.storage)))
        ≡ allowed options.policy_version at source
  unfolding decide new_grant
  granted_decision subject scope source at s = ground (
    arith,
    find-upsert_row_self (new_grant options subject scope source at) (stored s.storage) refl,
    eq_iff options.policy_version options.policy_version,
  )

  grant_self :
      (subject : String) (scope : ConsentScope) (source : ConsentSource) (at : String)
      (s : Service S)
      → IsCoherent stored Ready s
      → decision subject scope (grant repository options subject scope source at s).1 ≡ (
          if succeeded (grant repository options subject scope source at s).0
          then allowed options.policy_version at source
          else decision subject scope s)
  unfolding grant
  grant_self subject scope source at s h = ground (
    arith,
    laws.upsert_stored (new_grant options subject scope source at) s.storage h.ready,
    granted_decision subject scope source at s,
  )

  pub grant_other :
      (subject other : String) (scope scope' : ConsentScope) (source : ConsentSource) (at : String)
      (s : Service S)
      → IsCoherent stored Ready s
      → is_pair subject scope other scope' ≡ false
      → decision other scope' (grant repository options subject scope source at s).1
        ≡ decision other scope' s
  unfolding grant new_grant
  grant_other subject other scope scope' source at s h ne =
      let r = new_grant options subject scope source at in
      ground (
        arith,
        laws.upsert_stored r s.storage h.ready,
        find-upsert_row_ne r other scope' (stored s.storage) (
            apart_pairs subject scope other scope' ne r
              ((has_key_iff subject scope r).1 (refl, refl))),
      )

  -- After a grant that returned, the stored rows allow the subject and the scope, and decide on every
  -- other pair as before.
  pub decision-grant :
      (subject other : String) (scope scope' : ConsentScope) (source : ConsentSource) (at : String)
      (s : Service S)
      → IsCoherent stored Ready s
      → let (result, t) = grant repository options subject scope source at s in
        decision other scope' t ≡ (
          if succeeded result && is_pair subject scope other scope'
          then allowed options.policy_version at source
          else decision other scope' s)
  decision-grant subject other scope scope' source at s h =
      elim (Bool-cases (is_pair subject scope other scope')) [
        | inr ne ↦ ground (arith, grant_other subject other scope scope' source at s h ne)
        | inl eq ↦
            let (e, f) = (is_pair_iff subject scope other scope').0 eq in
            ground (arith, e, f, eq, grant_self subject scope source at s h)
      ]

  revoke_self :
      (subject : String) (scope : ConsentScope) (at : String) (s : Service S)
      → IsCoherent stored Ready s
      → count (has_key subject scope) (stored s.storage) ≤ 1
      → decision subject scope (revoke repository subject scope at s).1 ≡ (
          if succeeded (revoke repository subject scope at s).0
          then no_grant
          else decision subject scope s)
  unfolding revoke decide
  revoke_self subject scope at s h one = ground (
    arith,
    laws.remove_stored subject scope s.storage h.ready,
    no_row_left subject scope (stored s.storage) one,
  )

  pub revoke_other :
      (subject other : String) (scope scope' : ConsentScope) (at : String) (s : Service S)
      → IsCoherent stored Ready s
      → is_pair subject scope other scope' ≡ false
      → decision other scope' (revoke repository subject scope at s).1 ≡ decision other scope' s
  unfolding revoke
  revoke_other subject other scope scope' at s h ne = ground (
    arith,
    laws.remove_stored subject scope s.storage h.ready,
    find-remove_row_ne subject other scope scope' (stored s.storage)
        (apart_pairs subject scope other scope' ne),
  )

  -- After a revoke that returned, the stored rows have no grant for the subject and the scope, when at
  -- most one row had them, and decide on every other pair as before.
  pub decision-revoke :
      (subject other : String) (scope scope' : ConsentScope) (at : String) (s : Service S)
      → IsCoherent stored Ready s
      → count (has_key subject scope) (stored s.storage) ≤ 1
      → let (result, t) = revoke repository subject scope at s in
        decision other scope' t ≡ (
          if succeeded result && is_pair subject scope other scope'
          then no_grant
          else decision other scope' s)
  decision-revoke subject other scope scope' at s h one =
      elim (Bool-cases (is_pair subject scope other scope')) [
        | inr ne ↦ ground (arith, revoke_other subject other scope scope' at s h ne)
        | inl eq ↦
            let (e, f) = (is_pair_iff subject scope other scope').0 eq in
            ground (arith, e, f, eq, revoke_self subject scope at s h one)
      ]

  -- A revoke that returned calls each listener once with a `revoke` event if a row has the subject
  -- and the scope, also one that was revoked before, and calls none otherwise.
  pub delivered-revoke :
      (subject : String) (scope : ConsentScope) (at : String) (s : Service S)
      → IsCoherent stored Ready s
      → succeeded (revoke repository subject scope at s).0 ≡ true
      → (revoke repository subject scope at s).1.delivered ≡ (
          if any (has_key subject scope) (stored s.storage)
          then s.delivered ++ map (λ l. (l, revoked subject scope at)) s.listeners
          else s.delivered)
  unfolding revoke
  delivered-revoke subject scope at s h done =
      ground (arith, laws.remove_stored subject scope s.storage h.ready)
