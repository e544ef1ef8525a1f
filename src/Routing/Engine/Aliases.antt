-- ===== src/Routing/Engine/Aliases.antt =====
-- Setting, deleting and looking up aliases in internal/routing/engine.go: names count up to case.
use ai_proxy_centranity.Base.{
  ◌≡◌, ◌⊎◌, inl, inr, Option-cases, refl, List, none, some, Option, if◌then◌else◌,
}
use ai_proxy_centranity.Base.Text.{Text, to_lower, ◌==◌}
use ai_proxy_centranity.Base.Assoc.{lookup, lookup-insert, lookup-remove, remove}
use ai_proxy_centranity.Routing.Engine.{Engine, set_alias, delete_alias}

-- The targets that a request of this name finds.
abbrev pub targets_of : Engine → Text → Option (List Text)
targets_of e name = lookup (to_lower name) e.aliases

-- An alias that is set is found under every spelling of its name, and no other name is affected.
pub targets_of-set_alias :
    (e : Engine) (alias name : Text) (targets : List Text)
    → targets_of (set_alias e alias targets) name
      ≡ (if to_lower alias == to_lower name then some targets else targets_of e name)
unfolding set_alias
targets_of-set_alias e alias name targets =
    lookup-insert (to_lower alias) (to_lower name) targets e.aliases

-- Deleting fails exactly where the name, up to case, is no alias; where it succeeds the name is
-- unknown under every spelling and every other name is as before.
pub delete_alias_lem :
    (e : Engine) (alias name : Text)
    → ((targets_of e alias ≡ none) × (delete_alias e alias ≡ none))
      ⊎ ((after : Engine) × (delete_alias e alias ≡ some after)
          × (after.circuit_breaker ≡ e.circuit_breaker)
          × (targets_of after name
              ≡ (if to_lower alias == to_lower name then none else targets_of e name)))
unfolding delete_alias
delete_alias_lem e alias name = elim (Option-cases (targets_of e alias)) [
  | inl h ↦ inl (h, rw (h, delete_alias))
  | inr (ts, h) ↦ inr (
    record e { aliases = remove (to_lower alias) e.aliases },
    rw (h, delete_alias),
    refl,
    lookup-remove (to_lower alias) (to_lower name) e.aliases,
  )
]
