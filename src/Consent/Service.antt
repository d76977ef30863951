-- ===== src/Consent/Service.antt =====
-- src/consent/service.ts: the operations of `createConsentService` over any storage. A clock
-- reading is an argument of the operation that makes it. Error texts and logging are left out.
pub mod Reconcile
pub mod Laws
pub mod Answers
pub mod Clear
use ido_bata_server_bot.Prelude.{
  ℕ, String, Bool, true, false, not, ◌&&◌, Option, none, some, List, [], ◌∷◌, ◌++◌, map, ◌==◌,
  if◌then◌else◌, str_eq, keep, find, any, Outcome, Done, ok, threw, succeeded,
}
use ido_bata_server_bot.Consent.Types.{
  ConsentScope, ConsentSource, ConsentRecord, ConsentEvent, granted, revoked, cleared, has_key,
  is_active,
}
use ido_bata_server_bot.Consent.Repository.{ConsentRepository}

pub data ConsentDecision : Type 0 where
  allowed : String → String → ConsentSource → ConsentDecision
  no_grant wrong_policy service_unavailable : ConsentDecision

pub record Options : Type 0 where
  pub policy_version : String
  pub emoji_to_scope : List (String × ConsentScope)
  pub bot_user_id : String

-- The variables of the closure. A listener is a number; `delivered` lists the calls of listeners.
pub record Service (S : Type 0) : Type 0 where
  pub storage : S
  pub cache : Option (List ConsentRecord)
  pub listeners : List ℕ
  pub delivered : List (ℕ × ConsentEvent)

module _ {S : Type 0} where
  unfoldable pub create_consent_service : S → Service S
  create_consent_service storage = record {
    storage = storage;
    cache = none;
    listeners = [];
    delivered = [];
  }

  -- A listener that throws is logged and changes nothing.
  unfoldable pub emit : ConsentEvent → Service S → Service S
  emit event s = record s { delivered = s.delivered ++ map (λ l. (l, event)) s.listeners }

  unfoldable pub subscribe : ℕ → Service S → Service S
  subscribe listener s =
      if any (λ l. l == listener) s.listeners
      then s
      else record s { listeners = s.listeners ++ listener ∷ [] }

  unfoldable pub unsubscribe : ℕ → Service S → Service S
  unsubscribe listener s = record s { listeners = keep (λ l. not (l == listener)) s.listeners }

  -- `invalidate`, after a mutation that left the storage as given
  abbrev pub invalidated : S → Service S → Service S
  invalidated storage s = record s { storage = storage; cache = none }

  cache_load :
      Outcome (List ConsentRecord) × S → Service S → Outcome (List ConsentRecord) × Service S
  cache_load (ok records, storage) s =
      (ok records, record s { storage = storage; cache = some records })
  cache_load (threw e, storage) s = (threw e, record s { storage = storage })

  unfoldable pub load_all :
      ConsentRepository S → Service S → Outcome (List ConsentRecord) × Service S
  unfolding cache_load
  load_all repository s = elim s.cache [
    | none ↦ cache_load (repository.load s.storage) s
    | some records ↦ (ok records, s)
  ]

-- The decision on the row that the search found.
unfoldable pub decide : Options → Option ConsentRecord → ConsentDecision
decide options none = no_grant
decide options (some match) =
    if str_eq match.policy_version options.policy_version
    then allowed match.policy_version match.granted_at match.source
    else wrong_policy

decide_loaded : Options → String → ConsentScope → Outcome (List ConsentRecord) → ConsentDecision
unfolding decide
decide_loaded options subject scope (threw _) = service_unavailable
decide_loaded options subject scope (ok records) =
    decide options (find (λ r. has_key subject scope r && is_active r) records)

-- The record that `grant` stores.
unfoldable pub new_grant : Options → String → ConsentScope → ConsentSource → String → ConsentRecord
new_grant options subject scope source at = record {
  subject_id = subject;
  scope = scope;
  policy_version = options.policy_version;
  granted_at = at;
  revoked_at = none;
  source = source;
}

-- `ScopeDeleteFn` for one subject: the `ok` of its result.
abbrev pub ScopeDelete : Type 0
ScopeDelete = ConsentScope → Outcome Bool

-- `deleteFn` for one record: without one, or when it says so, the row may go.
abbrev pub may_remove : Option ScopeDelete → ConsentScope → Bool
may_remove none scope = true
may_remove (some delete_fn) scope = elim (delete_fn scope) [ ok b ↦ b | threw _ ↦ false ]

module _ {S : Type 0} (repository : ConsentRepository S) (options : Options) where
  unfoldable pub authorize : String → ConsentScope → Service S → ConsentDecision × Service S
  unfolding decide_loaded
  authorize subject scope s =
      let (loaded, t) = load_all repository s in (decide_loaded options subject scope loaded, t)

  after_upsert : ConsentRecord → Done × S → Service S → Outcome ConsentRecord × Service S
  unfolding emit
  after_upsert r (ok _, storage) s =
      (ok r, emit (granted r.subject_id r.scope r.granted_at r.source) (invalidated storage s))
  after_upsert r (threw e, storage) s = (threw e, record s { storage = storage })

  unfoldable pub grant :
      String → ConsentScope → ConsentSource → String → Service S → Outcome ConsentRecord × Service S
  unfolding after_upsert
  grant subject scope source at s =
      let r = new_grant options subject scope source at in
      after_upsert r (repository.upsert r s.storage) s

module _ {S : Type 0} (repository : ConsentRepository S) where
  after_remove : ConsentEvent → Outcome Bool × S → Service S → Done × Service S
  unfolding emit
  after_remove event (ok true, storage) s = (ok tt, emit event (invalidated storage s))
  after_remove event (ok false, storage) s = (ok tt, record s { storage = storage })
  after_remove event (threw e, storage) s = (threw e, record s { storage = storage })

  unfoldable pub revoke : String → ConsentScope → String → Service S → Done × Service S
  unfolding after_remove
  revoke subject scope at s =
      after_remove (revoked subject scope at) (repository.remove subject scope s.storage) s

  unfoldable pub list : String → Service S → Outcome (List ConsentRecord) × Service S
  list subject s =
      let (loaded, t) = load_all repository s in
      (
        elim loaded [
          | ok records ↦ ok (keep (λ r. str_eq r.subject_id subject && is_active r) records)
          | threw e ↦ threw e
        ],
        t,
      )

  -- The part of `clear` for one record, up to the push of its result.
  unfoldable pub clear_one : String → Option ScopeDelete → ConsentScope → S → Outcome Bool × S
  clear_one subject delete_fn scope storage =
      if may_remove delete_fn scope
      then repository.remove subject scope storage
      else (ok false, storage)

  -- The loop of `clear` over the subject's active records.
  unfoldable pub clear_records :
      String → Option ScopeDelete → List ConsentRecord → S → List (ConsentScope × Bool) × S
  clear_records subject delete_fn [] storage = ([], storage)
  clear_records subject delete_fn (r ∷ rs) storage =
      let (outcome, next) = clear_one subject delete_fn r.scope storage in
      let (results, last) = clear_records subject delete_fn rs next in
      ((r.scope, may_remove delete_fn r.scope && succeeded outcome) ∷ results, last)

  after_clear :
      String
      → String
      → List (ConsentScope × Bool) × S
      → Service S
      → Outcome (List (ConsentScope × Bool)) × Service S
  unfolding emit
  after_clear subject at (results, storage) s = (
    ok results,
    if any (λ result. result.1) results
        then emit (cleared subject at) (invalidated storage s)
        else record s { storage = storage },
  )

  unfoldable pub clear :
      String
      → Option ScopeDelete
      → String
      → Service S
      → Outcome (List (ConsentScope × Bool)) × Service S
  unfolding after_clear
  clear subject delete_fn at s =
      let (loaded, t) = load_all repository s in
      elim loaded [
        | threw e ↦ (threw e, t)
        | ok records ↦
            after_clear subject at
              (clear_records subject delete_fn
                (keep (λ r. str_eq r.subject_id subject && is_active r) records) t.storage)
              t
      ]
