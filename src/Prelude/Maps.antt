-- ===== src/Prelude/Maps.antt =====
-- JavaScript's `Map` and plain objects with string keys, as their entries in insertion order.
use mathlib.Core.Path.{◌≡◌, refl}
use mathlib.Core.Bool.{not}
use mathlib.Core.Option.{Option, none, some}
use mathlib.Core.List.{List, [], ◌∷◌}
use Prim.Native.String.{String}
use native.Mathlib.Omega.{arith}
use text.Mathlib.Text.{◌==◌ as str_eq}
use text.Mathlib.TextEquality.{eq_iff}
use ido_bata_server_bot.Prelude.Tests.{if◌then◌else◌, str_eq_refl}
use ido_bata_server_bot.Prelude.Lists.{keep}

module _ {ℓ} {A : Type ℓ} where
  abbrev pub get : String → List (String × A) → Option A
  get key [] = none
  get key ((k, v) ∷ m) = if str_eq k key then some v else get key m

  -- A new key goes to the end, an old one keeps its place.
  abbrev pub put : String → A → List (String × A) → List (String × A)
  put key v [] = (key, v) ∷ []
  put key v ((k, x) ∷ m) =
      let rest = put key v m in if str_eq k key then (k, v) ∷ m else (k, x) ∷ rest

  abbrev pub delete : String → List (String × A) → List (String × A)
  delete key m = keep (λ e. not (str_eq e.0 key)) m

  pub get-put :
      (key other : String) (v : A) (m : List (String × A))
      → get other (put key v m) ≡ (if str_eq key other then some v else get other m)
  get-put key other v [] = refl
  get-put key other v ((k, x) ∷ m) =
      ground (arith, get-put key other v m, eq_iff k key, eq_iff k other, eq_iff key other)

  pub get-put_same : (key : String) (v : A) (m : List (String × A)) → get key (put key v m) ≡ some v
  get-put_same key v m = ground (arith, get-put key key v m, str_eq_refl key)

  pub get-delete :
      (key other : String) (m : List (String × A))
      → get other (delete key m) ≡ (if str_eq key other then none else get other m)
  get-delete key other [] = ground arith
  get-delete key other ((k, x) ∷ m) =
      ground (arith, get-delete key other m, eq_iff k key, eq_iff k other, eq_iff key other)
