-- ===== src/Storage/Erasure.antt =====
-- A mutation of a JSON file that takes something out of its value and never creates the file.
use ido_bata_server_bot.Prelude.{◌≡◌, refl, ap, Bool, false, Option, none, some}
use ido_bata_server_bot.Storage.AtomicJson.{
  Result, value, JsonFile, missing, garbled, foreign, stored, Disk, Options, mutate_json_file,
}
use ido_bata_server_bot.Storage.Mutation.{
  IsMutation, absent, created, untouched, replaced, failed, mutate_json_file-IsMutation,
}

-- The value of a file, if it has one, satisfies `P`; unreadable content does not.
pub data Satisfies {ℓ κ} {T : Type ℓ} (P : T → Type κ) : JsonFile T → Type (ℓ ⊔ κ) where
  no_file : Satisfies P missing
  holds : (t : T) → P t → Satisfies P (stored t)

-- What a function of the value says of a file.
abbrev pub view_of {ℓ κ} : {T : Type ℓ} {A : Type κ} → (T → A) → JsonFile T → Option A
view_of view (stored t) = some (view t)
view_of view missing = none
view_of view garbled = none
view_of view foreign = none

module _ {ℓ} {T : Type ℓ} (options : Options T)
    (keeps_missing : options.create_if_missing ≡ false) where
  IsMutation-Satisfies {κ} :
      (P : T → Type κ)
      → ((t : T) → options.mutate t ≡ none → P t)
      → ((t next : T) → options.mutate t ≡ some next → P next)
      → (before after : JsonFile T) (r : Result Bool) (b : Bool) → IsMutation options before r after
      → r ≡ value b
      → Satisfies P after
  IsMutation-Satisfies P f g _ _ _ b (absent c) h = no_file
  IsMutation-Satisfies P f g _ _ _ b (created t c i) h = cc
  IsMutation-Satisfies P f g _ _ _ b (untouched t v m) h = holds t (f t m)
  IsMutation-Satisfies P f g _ _ _ b (replaced t next v m) h = holds next (g t next m)
  IsMutation-Satisfies P f g _ _ _ b (failed file e) h = cc

  -- Success means that the value has lost what was to go.
  pub mutate_json_file-Satisfies {κ} :
      (P : T → Type κ)
      → ((t : T) → options.mutate t ≡ none → P t)
      → ((t next : T) → options.mutate t ≡ some next → P next)
      → (d : Disk T) (b : Bool) → (mutate_json_file options d).0 ≡ value b
      → Satisfies P (mutate_json_file options d).1.file
  mutate_json_file-Satisfies P f g d b h =
      IsMutation-Satisfies P f g d.file (mutate_json_file options d).1.file
        (mutate_json_file options d).0 b (mutate_json_file-IsMutation options d).0 h

  IsMutation-view {κ} :
      {A : Type κ} (view : T → A)
      → ((t next : T) → options.mutate t ≡ some next → view next ≡ view t)
      → (before after : JsonFile T) (r : Result Bool) → IsMutation options before r after
      → view_of view after ≡ view_of view before
  IsMutation-view view f _ _ _ (absent c) = refl
  IsMutation-view view f _ _ _ (created t c i) = cc
  IsMutation-view view f _ _ _ (untouched t v m) = refl
  IsMutation-view view f _ _ _ (replaced t next v m) = ap some (f t next m)
  IsMutation-view view f _ _ _ (failed file e) = refl

  -- What the mutation keeps of a value, the file keeps, whatever fails.
  pub mutate_json_file-view {κ} :
      {A : Type κ} (view : T → A)
      → ((t next : T) → options.mutate t ≡ some next → view next ≡ view t)
      → (d : Disk T) → view_of view (mutate_json_file options d).1.file ≡ view_of view d.file
  mutate_json_file-view view f d =
      IsMutation-view view f d.file (mutate_json_file options d).1.file
        (mutate_json_file options d).0 (mutate_json_file-IsMutation options d).0
