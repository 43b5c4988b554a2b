-- ===== src/Integration/Examples.antt =====
-- The theorems on the integrations of a project at concrete inputs.
use alharistech_platform.Base.{true, some, [], ◌∷◌, string_eq, ◌≡◌, refl}
use alharistech_platform.Value.{str, list, dict, nil, cons, Fields, end, field}
use alharistech_platform.Integration.State.{
  normalize_integration_state, default_integration_key, installed_integration_keys,
}
use alharistech_platform.Integration.State.Keys.{AreKeys}
use alharistech_platform.Integration.State.Normal.{
  has_default, normalize_integration_state-AreKeys, normalize_integration_state-again,
}

-- A document with a legacy default, a key twice, and an entry that is no text.
abbrev legacy : Fields
legacy = field "integration" (str " claude ") (
    field "installed_integrations"
      (list (cons (str "gemini") (cons (dict end) (cons (str "gemini ") nil)))) end)

normalize_integration_state-AreKeys_example :
    AreKeys (installed_integration_keys (normalize_integration_state legacy))
    × (has_default
          (default_integration_key (normalize_integration_state legacy))
          (installed_integration_keys (normalize_integration_state legacy))
        ≡ true)
normalize_integration_state-AreKeys_example = normalize_integration_state-AreKeys legacy

normalize_integration_state-again_example :
    (default_integration_key (normalize_integration_state (normalize_integration_state legacy))
      ≡ default_integration_key (normalize_integration_state legacy))
    × (installed_integration_keys (normalize_integration_state (normalize_integration_state legacy))
        ≡ installed_integration_keys (normalize_integration_state legacy))
normalize_integration_state-again_example = normalize_integration_state-again legacy

legacy_default : default_integration_key (normalize_integration_state legacy) ≡ some "claude"
unfolding normalize_integration_state default_integration_key string_eq
legacy_default = refl

legacy_keys :
    installed_integration_keys (normalize_integration_state legacy) ≡ "claude" ∷ "gemini" ∷ []
unfolding normalize_integration_state installed_integration_keys string_eq
legacy_keys = refl
