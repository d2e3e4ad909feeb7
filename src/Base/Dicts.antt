-- ===== src/Base/Dicts.antt =====
-- Python dictionaries with text keys, in insertion order.
use Prim.Native.String.{String}
use mathlib.Core.Path.{◌≡◌, refl}
use mathlib.Core.Option.{Option, none, some}
use mathlib.Core.List.{List, [], ◌∷◌}
use native.Mathlib.Omega.{arith}
use text.Mathlib.Text.{◌==◌}
use text.Mathlib.TextEquality.{eq_iff}
use text.Mathlib.TextPositions.{eq_refl}
use keystonemiddleware.Base.Options.{or_else, or_else_assoc}
use keystonemiddleware.Base.Tests.{if◌then◌else◌, contains}

abbrev pub Dict {ℓ} : Type ℓ → Type ℓ
Dict V = List (String × V)

module _ {ℓ} {V : Type ℓ} where
  unfoldable pub lookup : String → Dict V → Option V
  lookup j [] = none
  lookup j ((k, v) ∷ d) = if k == j then some v else lookup j d

  -- `d[k] = v`
  unfoldable pub insert : String → V → Dict V → Dict V
  insert k v [] = (k, v) ∷ []
  insert k v ((i, w) ∷ d) = if i == k then (k, v) ∷ d else (i, w) ∷ insert k v d

  -- `d.pop(k, None)`: every entry of the key goes; a real dictionary has at most one.
  unfoldable pub erase : String → Dict V → Dict V
  erase k [] = []
  erase k ((i, w) ∷ d) = let rest = erase k d in if i == k then rest else (i, w) ∷ rest

  unfoldable pub erase_all : List String → Dict V → Dict V
  erase_all [] d = d
  erase_all (k ∷ ks) d = erase_all ks (erase k d)

  -- `d.update(e)`
  unfoldable pub update : Dict V → Dict V → Dict V
  update d [] = d
  update d ((k, v) ∷ e) = update (insert k v d) e

  -- The last entry of a key.
  unfoldable pub lookup_last : String → Dict V → Option V
  lookup_last j [] = none
  lookup_last j ((k, v) ∷ e) = or_else (lookup_last j e) (if k == j then some v else none)

  pub lookup-insert :
      (j k : String) (v : V) (d : Dict V)
      → lookup j (insert k v d) ≡ (if k == j then some v else lookup j d)
  unfolding lookup insert
  lookup-insert j k v [] = refl
  lookup-insert j k v ((i, w) ∷ d) =
      ground (arith, eq_iff k j, eq_iff i k, eq_iff i j, lookup-insert j k v d)

  pub lookup-insert_self : (k : String) (v : V) (d : Dict V) → lookup k (insert k v d) ≡ some v
  lookup-insert_self k v d = simp (lookup-insert, eq_refl)

  pub lookup-erase :
      (j k : String) (d : Dict V) → lookup j (erase k d) ≡ (if k == j then none else lookup j d)
  unfolding lookup erase
  lookup-erase j k [] = ground arith
  lookup-erase j k ((i, w) ∷ d) =
      ground (arith, eq_iff k j, eq_iff i k, eq_iff i j, lookup-erase j k d)

  pub lookup-erase_all :
      (j : String) (ks : List String) (d : Dict V)
      → lookup j (erase_all ks d) ≡ (if contains ks j then none else lookup j d)
  unfolding erase_all
  lookup-erase_all j [] d = refl
  lookup-erase_all j (k ∷ ks) d =
      ground (arith, lookup-erase_all j ks (erase k d), lookup-erase j k d)

  pub lookup-update :
      (j : String) (d e : Dict V) → lookup j (update d e) ≡ or_else (lookup_last j e) (lookup j d)
  unfolding update lookup_last
  lookup-update j d [] = refl
  lookup-update j d ((k, v) ∷ e) =
      rw
        (
          lookup-update j (insert k v d) e,
          lookup-insert j k v d,
          or_else_assoc (lookup_last j e) (if k == j then some v else none) (lookup j d),
        )
        (ground arith)
