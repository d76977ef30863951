-- ===== src/Consent/Service/Clear.antt =====
-- `clear` of the consent service: the cascade over a subject's grants, with partial failure.
use ido_bata_server_bot.Prelude.{
  ◌≤◌, String, ◌≡◌, refl, ap, ◌∙◌, ◌⊎◌, inl, inr, Bool, true, false, ◌&&◌, Option, none, List, [],
  ◌∷◌, arith, str_eq, and-true, keep, find, any, all, count, Bool-cases, ok, succeeded,
}
use ido_bata_server_bot.Consent.Types.{
  ConsentScope, ConsentRecord, has_key, is_active, has_key_iff, scope_eq, scope_eq_iff,
}
use ido_bata_server_bot.Consent.Repository.{ConsentRepository, IsRepository, clear_rows}
use ido_bata_server_bot.Consent.Repository.Rows.{
  grants, find-remove_row_ne, no_row_left, count-remove_row_le, find-remove_row-none,
  clear_rows-remove_row,
}
use ido_bata_server_bot.Consent.Service.Laws.{IsCoherent, load_all-IsCoherent, load_all_lem}
use ido_bata_server_bot.Consent.Service.{
  load_all, Service, ScopeDelete, may_remove, clear_one, clear_records, clear,
}

abbrev of_subject : String → ConsentRecord → Bool
of_subject subject r = str_eq r.subject_id subject && is_active r

-- Rows of two scopes are different rows.
apart_scopes :
    (subject : String) (scope scope' : ConsentScope)
    → scope_eq scope scope' ≡ false
    → (r : ConsentRecord) → has_key subject scope r ≡ true
    → has_key subject scope' r ≡ false
apart_scopes subject scope scope' ne r h =
    ground
      (arith, has_key_iff subject scope r, has_key_iff subject scope' r, scope_eq_iff scope scope')

-- The records that `clear` walks have each scope that the subject has granted.
listed :
    (subject : String) (scope : ConsentScope) (rs : List ConsentRecord)
    → (find (grants subject scope) rs ≡ none)
      ⊎ (any (λ r. scope_eq r.scope scope) (keep (of_subject subject) rs) ≡ true)
unfolding has_key
listed subject scope [] = inl refl
listed subject scope (x ∷ xs) = ground (arith, listed subject scope xs)

module _ {S : Type 0} {repository : ConsentRepository S} {stored : S → List ConsentRecord}
    {Ready : S → Type 0} (laws : IsRepository repository stored Ready) where
  abbrev found : String → ConsentScope → S → Option ConsentRecord
  found subject scope storage = find (grants subject scope) (stored storage)

  -- One record's row goes only if its data was deleted; other scopes keep theirs.
  clear_one_apart :
      (subject : String) (delete_fn : Option ScopeDelete) (scope scope' : ConsentScope)
      (storage : S)
      → Ready storage
      → scope_eq scope scope' ≡ false
      → Ready (clear_one repository subject delete_fn scope storage).1
        × (found subject scope' (clear_one repository subject delete_fn scope storage).1
            ≡ found subject scope' storage)
  unfolding clear_one
  clear_one_apart subject delete_fn scope scope' storage h ne = ground (
    arith,
    laws.remove_ready subject scope storage h,
    laws.remove_stored subject scope storage h,
    find-remove_row_ne subject subject scope scope' (stored storage)
        (apart_scopes subject scope scope' ne),
  )

  clear_one_refused :
      (subject : String) (delete_fn : Option ScopeDelete) (scope scope' : ConsentScope)
      (storage : S)
      → scope ≡ scope'
      → may_remove delete_fn scope' ≡ false
      → (clear_one repository subject delete_fn scope storage).1 ≡ storage
  unfolding clear_one
  clear_one_refused subject delete_fn scope scope' storage e no_delete = rw (e, no_delete) refl

  clear_one_kept :
      (subject : String) (delete_fn : Option ScopeDelete) (scope scope' : ConsentScope)
      (storage : S)
      → Ready storage
      → may_remove delete_fn scope' ≡ false
      → Ready (clear_one repository subject delete_fn scope storage).1
        × (found subject scope' (clear_one repository subject delete_fn scope storage).1
            ≡ found subject scope' storage)
  clear_one_kept subject delete_fn scope scope' storage h no_delete =
      elim (Bool-cases (scope_eq scope scope')) [
        | inr ne ↦ clear_one_apart subject delete_fn scope scope' storage h ne
        | inl eq ↦
            rw
              (clear_one_refused subject delete_fn scope scope' storage
                ((scope_eq_iff scope scope').0 eq) no_delete)
              (h, refl)
      ]

  -- A scope whose data was not deleted keeps its grant.
  clear_records_kept :
      (subject : String) (delete_fn : Option ScopeDelete) (scope : ConsentScope)
      (rs : List ConsentRecord) (storage : S)
      → Ready storage
      → may_remove delete_fn scope ≡ false
      → Ready (clear_records repository subject delete_fn rs storage).1
        × (found subject scope (clear_records repository subject delete_fn rs storage).1
            ≡ found subject scope storage)
  unfolding clear_records
  clear_records_kept subject delete_fn scope [] storage h no_delete = (h, refl)
  clear_records_kept subject delete_fn scope (r ∷ rs) storage h no_delete =
      let (ready, same) = clear_one_kept subject delete_fn r.scope scope storage h no_delete in
      let (ready', same') = clear_records_kept subject delete_fn scope rs _ ready no_delete in
      (ready', same' ∙ same)

  clear_one_done :
      (subject : String) (delete_fn : Option ScopeDelete) (scope scope' : ConsentScope)
      (storage : S)
      → Ready storage
      → scope ≡ scope'
      → count (has_key subject scope') (stored storage) ≤ 1
      → (may_remove delete_fn scope
          && succeeded (clear_one repository subject delete_fn scope storage).0)
        ≡ true
      → found subject scope' (clear_one repository subject delete_fn scope storage).1 ≡ none
  unfolding clear_one
  clear_one_done subject delete_fn scope scope' storage h e one done = rw (← e) (
      ground (
        arith,
        laws.remove_stored subject scope storage h,
        no_row_left subject scope (stored storage) (rw e one),
      ))

  clear_one-count :
      (subject : String) (delete_fn : Option ScopeDelete) (scope scope' : ConsentScope)
      (storage : S)
      → Ready storage
      → Ready (clear_one repository subject delete_fn scope storage).1
        × (count
              (has_key subject scope')
              (stored (clear_one repository subject delete_fn scope storage).1)
            ≤ count (has_key subject scope') (stored storage))
        × (found subject scope' storage ≡ none
            → found subject scope' (clear_one repository subject delete_fn scope storage).1 ≡ none)
  unfolding clear_one
  clear_one-count subject delete_fn scope scope' storage h = ground (
    arith,
    laws.remove_ready subject scope storage h,
    laws.remove_stored subject scope storage h,
    count-remove_row_le (has_key subject scope') subject scope (stored storage),
    find-remove_row-none subject scope (grants subject scope') (stored storage),
  )

  -- When every result is good, the scopes of the records that were walked have no grant left.
  clear_records_done :
      (subject : String) (delete_fn : Option ScopeDelete) (scope : ConsentScope)
      (rs : List ConsentRecord) (storage : S)
      → Ready storage
      → count (has_key subject scope) (stored storage) ≤ 1
      → all (λ result. result.1) (clear_records repository subject delete_fn rs storage).0 ≡ true
      → (found subject scope storage ≡ none) ⊎ (any (λ r. scope_eq r.scope scope) rs ≡ true)
      → found subject scope (clear_records repository subject delete_fn rs storage).1 ≡ none
  unfolding clear_records
  clear_records_done subject delete_fn scope [] storage h one good (inl e) = e
  clear_records_done subject delete_fn scope [] storage h one good (inr e) = cc
  clear_records_done subject delete_fn scope (r ∷ rs) storage h one good found_or_listed =
      let (ready, fewer, stays) = clear_one-count subject delete_fn r.scope scope storage h in
      clear_records_done subject delete_fn scope rs _ ready (omega arith) (and-true _ _ good).1
        (elim found_or_listed [
          | inl e ↦ inl (stays e)
          | inr listed ↦ elim (Bool-cases (scope_eq r.scope scope)) [
            | inl eq ↦ inl (
                clear_one_done subject delete_fn r.scope scope storage h
                  ((scope_eq_iff r.scope scope).0 eq) one (and-true _ _ good).0)
            | inr ne ↦ inr (rw ne at listed)
          ]
        ])

  clear_returned :
      (subject : String) (delete_fn : Option ScopeDelete) (at : String) (s : Service S)
      (results : List (ConsentScope × Bool))
      → IsCoherent stored Ready s
      → (clear repository subject delete_fn at s).0 ≡ ok results
      → let last =
          clear_records repository subject delete_fn
            (keep (of_subject subject) (stored s.storage))
            (load_all repository s).1.storage in
        (results ≡ last.0)
        × ((clear repository subject delete_fn at s).1.storage ≡ last.1)
        × (stored (load_all repository s).1.storage ≡ stored s.storage)
  unfolding clear
  clear_returned subject delete_fn at s results h done = ground (arith, load_all_lem laws s h)

  -- A clear that returned, with every result good, leaves the subject without a grant in any scope
  -- of which the storage has at most one row.
  pub clear_removes_grants :
      (subject : String) (delete_fn : Option ScopeDelete) (scope : ConsentScope) (at : String)
      (s : Service S) (results : List (ConsentScope × Bool))
      → IsCoherent stored Ready s
      → (clear repository subject delete_fn at s).0 ≡ ok results
      → all (λ result. result.1) results ≡ true
      → count (has_key subject scope) (stored s.storage) ≤ 1
      → find (grants subject scope) (stored (clear repository subject delete_fn at s).1.storage)
        ≡ none
  clear_removes_grants subject delete_fn scope at s results h done good one =
      let (e, f, g) = clear_returned subject delete_fn at s results h done in
      let ready = (load_all-IsCoherent laws s h).ready in
      rw f (
        clear_records_done subject delete_fn scope _ _ ready (rw g one) (rw e at good)
          (rw g (listed subject scope (stored s.storage))))

  -- A clear that returned keeps the subject's grant in a scope whose data the delete function did
  -- not delete, also where it cleared other scopes.
  pub clear_keeps_undeleted :
      (subject : String) (delete_fn : Option ScopeDelete) (scope : ConsentScope) (at : String)
      (s : Service S) (results : List (ConsentScope × Bool))
      → IsCoherent stored Ready s
      → (clear repository subject delete_fn at s).0 ≡ ok results
      → may_remove delete_fn scope ≡ false
      → find (grants subject scope) (stored (clear repository subject delete_fn at s).1.storage)
        ≡ find (grants subject scope) (stored s.storage)
  clear_keeps_undeleted subject delete_fn scope at s results h done refused =
      let (e, f, g) = clear_returned subject delete_fn at s results h done in
      let ready = (load_all-IsCoherent laws s h).ready in
      rw f (
        (clear_records_kept subject delete_fn scope _ _ ready refused).1
        ∙ ap (find (grants subject scope)) g)

  -- A clear touches no row of another subject.
  clear_one-others :
      (subject : String) (delete_fn : Option ScopeDelete) (scope : ConsentScope) (storage : S)
      → Ready storage
      → Ready (clear_one repository subject delete_fn scope storage).1
        × (clear_rows subject (stored (clear_one repository subject delete_fn scope storage).1)
            ≡ clear_rows subject (stored storage))
  unfolding clear_one
  clear_one-others subject delete_fn scope storage h = ground (
    arith,
    laws.remove_ready subject scope storage h,
    laws.remove_stored subject scope storage h,
    clear_rows-remove_row subject scope (stored storage),
  )

  clear_records-others :
      (subject : String) (delete_fn : Option ScopeDelete) (rs : List ConsentRecord) (storage : S)
      → Ready storage
      → clear_rows subject (stored (clear_records repository subject delete_fn rs storage).1)
        ≡ clear_rows subject (stored storage)
  unfolding clear_records
  clear_records-others subject delete_fn [] storage h = refl
  clear_records-others subject delete_fn (r ∷ rs) storage h =
      let (ready, same) = clear_one-others subject delete_fn r.scope storage h in
      clear_records-others subject delete_fn rs _ ready ∙ same

  pub clear-others :
      (subject : String) (delete_fn : Option ScopeDelete) (at : String) (s : Service S)
      → IsCoherent stored Ready s
      → clear_rows subject (stored (clear repository subject delete_fn at s).1.storage)
        ≡ clear_rows subject (stored s.storage)
  unfolding clear
  clear-others subject delete_fn at s h = ground (
    arith,
    load_all_lem laws s h,
    clear_records-others subject delete_fn (keep (of_subject subject) (stored s.storage))
        (load_all repository s).1.storage (load_all-IsCoherent laws s h).ready,
  )
