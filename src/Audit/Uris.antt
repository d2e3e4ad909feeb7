-- ===== src/Audit/Uris.antt =====
-- audit/_api.py: what a target's type is made of.
use text.Mathlib.TextLemmas.{nil-append}
use keystonemiddleware.Base.{
  ◌≡◌, refl, ◌⊎◌, inl, inr, ap, ◌∙◌, String, ◌<>◌, true, false, Option, none, some, List, [], ◌∷◌,
  lookup, split, All, Bool-cases, Option-cases,
}
use keystonemiddleware.Audit.{AuditMap, is_keyword, clean_path, piece, type_uri, build_type_uri}

module _ (map : AuditMap) where
  -- A keyword of the map, or the word that stands there for one.
  abbrev pub IsConfigured : String → Type 0
  IsConfigured word =
      (is_keyword map word ≡ true) ⊎ ((key : String) × (lookup key map.path_kw ≡ some word))

  abbrev pub joined : List String → String
  joined [] = ""
  joined (word ∷ words) = ("/" <> word) <> joined words

  abbrev pub Words : String → Type 0
  Words uri = (words : List String) × (uri ≡ joined words) × All IsConfigured words

  piece-Words :
      (prev_key : Option String) (key rest : String)
      → Words rest
      → Words (piece map prev_key key <> rest)
  unfolding piece
  piece-Words prev_key key rest (words, whole, configured) =
      elim (Bool-cases (is_keyword map key)) [
        | inl keyword ↦ (key ∷ words, rw (keyword, whole) refl, (inl keyword, configured))
        | inr other ↦ by_prev prev_key other
      ]
    where
      by_prev :
          (prev : Option String) → is_keyword map key ≡ false → Words (piece map prev key <> rest)
      by_prev none other = (words, rw (other) (nil-append rest ∙ whole), configured)
      by_prev (some prev) other = elim (Option-cases (lookup prev map.path_kw)) [
        | inl nothing ↦ (words, rw (other, nothing) (nil-append rest ∙ whole), configured)
        | inr (word, there) ↦
            (word ∷ words, rw (other, there, whole) refl, (inr (prev, there), configured))
      ]

  type_uri-Words :
      (prev_key : Option String) (keys : List String) → Words (type_uri map prev_key keys)
  unfolding type_uri
  type_uri-Words prev_key [] = ([], refl, tt)
  type_uri-Words prev_key (key ∷ keys) =
      piece-Words prev_key (clean_path key) (type_uri map (some (clean_path key)) keys)
        (type_uri-Words (some (clean_path key)) keys)

  -- A target's type is the service's type and words of the map alone, each behind a slash: no identifier
  -- of the request's path gets into it.
  pub build_type_uri-Words :
      (path service_type : String)
      → (words : List String) × (build_type_uri map path service_type
          ≡ service_type <> joined words)
        × All IsConfigured words
  unfolding build_type_uri
  build_type_uri-Words path service_type =
      let (words, whole, configured) = type_uri-Words none (split b'/' path) in
      (words, ap (λ uri. service_type <> uri) whole, configured)
