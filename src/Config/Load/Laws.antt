-- ===== src/Config/Load/Laws.antt =====
-- When Load of internal/config/config.go fails, and what it lets pass.
use mathlib.Core.Path.{subst}
use grex.Base.{◌≡◌, refl, sym, Bool, List, [], ◌∷◌, Option, none, some, Str, In, inl, inr}
use grex.Base.Int.{ℤ}
use grex.Config.{ConfigError, validate}
use grex.Config.Load.{
  Settings, Override, defaults, env_overrides, override_by, override_all, only_if_none, if_valid,
  load,
}

override_all-none :
    (env : Str → Option Str) (ovs : List Override) → override_all env ovs none ≡ none
override_all-none env [] = refl
override_all-none env (ov ∷ ovs) = refl

override_all-malformed :
    (env : Str → Option Str) (ovs : List Override) (o : Option Settings) (ov : Override) (v : Str)
    → In ov ovs
    → env ov.name ≡ some v
    → ov.assign v ≡ none
    → override_all env ovs o ≡ none
override_all-malformed env [] o ov v h e bad = absurd h
override_all-malformed env (x ∷ ovs) none ov v h e bad = refl
override_all-malformed env (x ∷ ovs) (some s) ov v (inl same) e bad =
    let here : override_by x (env x.name) s ≡ none = rw (sym same, e, bad) refl in
    rw here (override_all-none env ovs)
override_all-malformed env (x ∷ ovs) (some s) ov v (inr h) e bad =
    override_all-malformed env ovs (override_by x (env x.name) s) ov v h e bad

module _ (atoi parse_duration : Str → Option ℤ) (splits exists : Str → Bool) where
  -- A variable whose value its parser refuses stops the start, whatever the file and the other
  -- variables say; for a variable of the list of overrides.
  pub load-malformed :
      (decode : Settings → Option Settings) (env : Str → Option Str) (ov : Override) (v : Str)
      → In ov (env_overrides atoi parse_duration)
      → env ov.name ≡ some v
      → ov.assign v ≡ none
      → load atoi parse_duration splits exists decode env ≡ none
  unfolding load
  load-malformed decode env ov v h e bad =
      rw
        (override_all-malformed env (env_overrides atoi parse_duration) (decode defaults) ov v h e
          bad)
        refl

  accepted_by :
      (o : Option Settings) (s : Settings)
      → if_valid atoi parse_duration splits exists o ≡ some s
      → validate splits exists s.checked ≡ none
  accepted_by none s h = absurd cc
  accepted_by (some t) s h = checked (validate splits exists t.checked) refl h
    where
      checked :
          (o : Option ConfigError)
          → validate splits exists t.checked ≡ o
          → only_if_none atoi parse_duration splits exists o t ≡ some s
          → validate splits exists s.checked ≡ none
      checked none e h =
          let same : t ≡ s = cc in
          subst (λ (u : Settings). validate splits exists u.checked ≡ none) same e
      checked (some x) e h = absurd cc

  -- A configuration that is loaded has passed every check with the environment applied: no variable
  -- can bring in what the checks refuse.
  pub load-validate :
      (decode : Settings → Option Settings) (env : Str → Option Str) (s : Settings)
      → load atoi parse_duration splits exists decode env ≡ some s
      → validate splits exists s.checked ≡ none
  unfolding load
  load-validate decode env s h =
      accepted_by (override_all env (env_overrides atoi parse_duration) (decode defaults)) s h
