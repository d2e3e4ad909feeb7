-- ===== src/Config/Owners.antt =====
-- _common/config.py: which option a name of the table in `_conf_values_type_convert` leads to.
use keystonemiddleware.Base.{
  ◌≡◌, refl, ◌∙◌, String, Option, none, some, List, [], ◌∷◌, ◌==◌, lookup, insert, lookup-insert,
  arith, if◌then◌else◌, Bool, ◌||◌, contains, Bool-cases, Option-cases, inl, inr, or_else,
  or_else-none,
}
use keystonemiddleware.Config.{Opt, OptType, add_names, add_options, Groups, OptTypes, opt_types}

-- The options of a group, and the last of them that has a name as its own or as an older one.
abbrev pub options_of : String → Groups → List Opt
options_of group_name [] = []
options_of group_name ((group, options) ∷ groups) =
    let further = options_of group_name groups in if group == group_name then options else further

abbrev is_named : String → Opt → Bool
is_named k o = o.dest == k || contains o.deprecated_opts k

abbrev pub owner_of : String → List Opt → Option Opt
owner_of k [] = none
owner_of k (o ∷ options) = or_else (owner_of k options) (if is_named k o then some o else none)

abbrev pub entry_of : Option Opt → Option (OptType × String)
entry_of none = none
entry_of (some o) = some (o.type, o.dest)

lookup-add_names :
    (k : String) (entry : OptType × String) (names : List String) (types : OptTypes)
    → lookup k (add_names entry names types)
      ≡ (if contains names k then some entry else lookup k types)
unfolding add_names
lookup-add_names k entry [] types = refl
lookup-add_names k entry (name ∷ names) types = ground (
  arith,
  lookup-add_names k entry names (insert name entry types),
  lookup-insert k name entry types,
)

lookup-add_options :
    (k : String) (options : List Opt) (types : OptTypes)
    → lookup k (add_options options types)
      ≡ or_else (entry_of (owner_of k options)) (lookup k types)
unfolding add_options
lookup-add_options k [] types = refl
lookup-add_options k (o ∷ options) types =
    let named = lookup-add_names k (o.type, o.dest) (o.dest ∷ o.deprecated_opts) types in
    elim (Option-cases (owner_of k options)) [
      | inr (owner, later) ↦ rw (lookup-add_options k options _, later) refl
      | inl alone ↦
          rw (lookup-add_options k options _, alone, named)
            (elim (Bool-cases (is_named k o)) [
              | inl owned ↦ rw (owned) refl
              | inr other ↦ rw (other) refl
            ])
    ]

-- The table of the options' names leads each to its owner.
pub lookup-opt_types :
    (group_name : String) (all_options : Groups) (k : String)
    → lookup k (opt_types group_name all_options)
      ≡ entry_of (owner_of k (options_of group_name all_options))
unfolding opt_types lookup
lookup-opt_types group_name [] k = refl
lookup-opt_types group_name ((group, options) ∷ groups) k =
    elim (Bool-cases (group == group_name)) [
      | inl here ↦ rw (here) (lookup-add_options k options [] ∙ or_else-none _)
      | inr other ↦ rw (other) (lookup-opt_types group_name groups k)
    ]
