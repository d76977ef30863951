-- ===== src/Consent/Types.antt =====
-- src/consent/scopes.ts and src/consent/types.ts: scopes, records, events, reaction targets. A
-- timestamp is its ISO text, as in the source.
use ido_bata_server_bot.Prelude.{
  String, ◌≡◌, ◌↔◌, Bool, true, false, not, ◌&&◌, Option, List, [], ◌∷◌, str_eq, eq_iff, is_none,
  arith,
}

pub data ConsentScope : Type 0 where
  activity_history presence_history profile message_history : ConsentScope

-- `CONSENT_SCOPES`
abbrev pub consent_scopes : List ConsentScope
consent_scopes = activity_history ∷ presence_history ∷ profile ∷ message_history ∷ []

abbrev pub scope_name : ConsentScope → String
scope_name activity_history = "activity-history"
scope_name presence_history = "presence-history"
scope_name profile = "profile"
scope_name message_history = "message-history"

-- `===` of two scopes
unfoldable pub scope_eq : ConsentScope → ConsentScope → Bool
scope_eq activity_history activity_history = true
scope_eq presence_history presence_history = true
scope_eq profile profile = true
scope_eq message_history message_history = true
scope_eq _ _ = false

pub scope_eq_iff : (a b : ConsentScope) → (scope_eq a b ≡ true) ↔ (a ≡ b)
unfolding scope_eq
scope_eq_iff a b = ground arith

-- `ConsentSource` and `ReactionTarget` have the same fields.
pub record ConsentSource : Type 0 where
  pub guild_id : String
  pub channel_id : String
  pub message_id : String
  pub emoji : String

pub record ConsentRecord : Type 0 where
  pub subject_id : String
  pub scope : ConsentScope
  pub policy_version : String
  pub granted_at : String
  pub revoked_at : Option String
  pub source : ConsentSource

pub data ConsentEvent : Type 0 where
  granted : String → ConsentScope → String → ConsentSource → ConsentEvent
  revoked : String → ConsentScope → String → ConsentEvent
  cleared : String → String → ConsentEvent

-- `isActive`
abbrev pub is_active : ConsentRecord → Bool
is_active r = is_none r.revoked_at

-- `record.subjectId === subjectId && record.scope === scope`
unfoldable pub has_key : String → ConsentScope → ConsentRecord → Bool
has_key subject scope r = str_eq r.subject_id subject && scope_eq r.scope scope

pub has_key_iff :
    (subject : String) (scope : ConsentScope) (r : ConsentRecord)
    → (has_key subject scope r ≡ true) ↔ ((r.subject_id ≡ subject) × (r.scope ≡ scope))
unfolding has_key
has_key_iff subject scope r =
    ground (arith, eq_iff r.subject_id subject, scope_eq_iff r.scope scope)

-- `z.string().min(1)`
abbrev filled : String → Bool
filled s = not (str_eq s "")

-- `consentRecordSchema` and `consentSourceSchema`; that `scope` is one of the four is in its type.
unfoldable pub is_valid_record : ConsentRecord → Bool
is_valid_record r =
    filled r.subject_id
    && (filled r.policy_version
        && (filled r.granted_at
            && (filled r.source.guild_id
                && (filled r.source.channel_id
                    && (filled r.source.message_id && filled r.source.emoji)))))

-- Is a pair of subject and scope the given one?
abbrev pub is_pair : String → ConsentScope → String → ConsentScope → Bool
is_pair subject scope other scope' = str_eq other subject && scope_eq scope' scope

pub is_pair_iff :
    (subject : String) (scope : ConsentScope) (other : String) (scope' : ConsentScope)
    → (is_pair subject scope other scope' ≡ true) ↔ ((other ≡ subject) × (scope' ≡ scope))
is_pair_iff subject scope other scope' =
    ground (arith, eq_iff other subject, scope_eq_iff scope' scope)

-- Rows of different pairs are different rows.
pub apart_pairs :
    (subject : String) (scope : ConsentScope) (other : String) (scope' : ConsentScope)
    → is_pair subject scope other scope' ≡ false
    → (r : ConsentRecord) → has_key subject scope r ≡ true
    → has_key other scope' r ≡ false
apart_pairs subject scope other scope' ne r h = ground (
  arith,
  has_key_iff subject scope r,
  has_key_iff other scope' r,
  eq_iff other subject,
  scope_eq_iff scope' scope,
)
