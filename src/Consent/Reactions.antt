-- ===== src/Consent/Reactions.antt =====
-- src/consent/reaction-handler.ts: a reaction on a consent message grants or revokes its scope.
-- `at` is the clock reading of the service call.
use ido_bata_server_bot.Prelude.{
  String, ◌≡◌, refl, Bool, false, ◌&&◌, Option, none, some, List, arith, if◌then◌else◌, str_eq, any,
  Option-cases, inl, inr, not, eq_iff,
}
use ido_bata_server_bot.Consent.Types.{ConsentScope, ConsentSource, ConsentRecord, is_pair}
use ido_bata_server_bot.Consent.Repository.{ConsentRepository, IsRepository}
use ido_bata_server_bot.Consent.Service.{Options, Service, grant, revoke}
use ido_bata_server_bot.Consent.Service.Reconcile.{ReactionTarget, resolve_scope}
use ido_bata_server_bot.Consent.Service.Laws.{IsCoherent, decision, grant_other, revoke_other}

-- A reaction event: the message with its emoji, the user, and whether the user is a bot.
pub record Reaction : Type 0 where
  pub source : ConsentSource
  pub user_id : String
  pub is_bot : Bool

unfoldable pub target_matches : ReactionTarget → ConsentSource → Bool
target_matches t s =
    str_eq t.message_id s.message_id
    && (str_eq t.channel_id s.channel_id
        && (str_eq t.guild_id s.guild_id && str_eq t.emoji s.emoji))

module _ {S : Type 0} (repository : ConsentRepository S) (options : Options)
    (targets : List ReactionTarget) where
  -- The scope that a reaction is about: the two early returns and the look-up that both handlers
  -- begin with. `none` means that the handler returns there.
  unfoldable pub scope_of_reaction : Reaction → Option ConsentScope
  unfolding target_matches
  scope_of_reaction reaction =
      if reaction.is_bot
      then none
      else if not (any (λ t. target_matches t reaction.source) targets)
      then none
      else resolve_scope reaction.source.emoji options.emoji_to_scope

  -- `onAdd`; what the service throws is logged.
  unfoldable pub on_add : String → Reaction → Service S → Service S
  unfolding scope_of_reaction
  on_add at reaction s = elim (scope_of_reaction reaction) [
    | none ↦ s
    | some scope ↦ (grant repository options reaction.user_id scope reaction.source at s).1
  ]

  -- `onRemove`
  unfoldable pub on_remove : String → Reaction → Service S → Service S
  unfolding scope_of_reaction
  on_remove at reaction s = elim (scope_of_reaction reaction) [
    | none ↦ s
    | some scope ↦ (revoke repository reaction.user_id scope at s).1
  ]

module _ {S : Type 0} {repository : ConsentRepository S} {stored : S → List ConsentRecord}
    {Ready : S → Type 0} (laws : IsRepository repository stored Ready) (options : Options)
    (targets : List ReactionTarget) where
  -- A reaction, added or removed, by a bot or by a user, on a consent message or elsewhere, changes
  -- the decision on no other user, whatever the storage answers.
  pub reactions_of_others :
      (at other : String) (scope : ConsentScope) (reaction : Reaction) (s : Service S)
      → IsCoherent stored Ready s
      → str_eq reaction.user_id other ≡ false
      → (decision laws options other scope (on_add repository options targets at reaction s)
          ≡ decision laws options other scope s)
        × (decision laws options other scope (on_remove repository options targets at reaction s)
            ≡ decision laws options other scope s)
  unfolding on_add on_remove
  reactions_of_others at other scope reaction s h ne =
      elim (Option-cases (scope_of_reaction repository options targets reaction)) [
        | inl e ↦ rw (e, on_add, on_remove) (refl, refl)
        | inr (found, e) ↦
            let apart : is_pair reaction.user_id found other scope ≡ false =
              ground (arith, ne, eq_iff other reaction.user_id, eq_iff reaction.user_id other) in
            rw (e, on_add, on_remove)
              (
                grant_other laws options reaction.user_id other found scope reaction.source at s h
                    apart,
                revoke_other laws options reaction.user_id other found scope at s h apart,
              )
      ]
