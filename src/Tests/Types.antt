-- ===== src/Tests/Types.antt =====
-- Examples for pkg/apis/jupyter/v1/types.go.
use jupyter_operator.Common.{true, false, none, some, [], ◌≡◌, ◌≢◌, refl, ◌↔◌}
use jupyter_operator.Types.{Notebook, set_defaults}
use jupyter_operator.Types.Defaults.{
  IsComplete, Extends, set_defaults-IsComplete, set_defaults-Extends, set_defaults-unchanged_iff,
  set_defaults_idem, defaulted_host_invalid,
}
use jupyter_operator.Types.Packages.{codes, valid_package}
use jupyter_operator.Types.Validate.{
  host_error, invalid_host, invalid_ingress, invalid_packages, validate,
}
use jupyter_operator.Types.Validate.Grammar.{IsPackage, valid_package_iff}
use jupyter_operator.Tests.World.{demo_validation, demo, demo_spec}

-- A notebook that says nothing of its host.
abbrev hostless : Notebook
hostless = record demo { spec = record demo_spec { host = none } }

set_defaults-IsComplete_example : IsComplete (set_defaults hostless).0.spec
set_defaults-IsComplete_example = set_defaults-IsComplete hostless

set_defaults-Extends_example : Extends hostless (set_defaults hostless).0
set_defaults-Extends_example = set_defaults-Extends hostless

set_defaults-unchanged_iff_example :
    ((set_defaults hostless).1 ≡ false) ↔ ((set_defaults hostless).0 ≡ hostless)
set_defaults-unchanged_iff_example = set_defaults-unchanged_iff hostless

defaults_set_twice : set_defaults (set_defaults hostless).0 ≡ ((set_defaults hostless).0, false)
defaults_set_twice = set_defaults_idem hostless

empty_host_invalid : demo_validation.is_dns1123_subdomain "" ≢ []
empty_host_invalid = cc

defaulted_host_invalid_example :
    validate demo_validation (set_defaults hostless).0 ≡ some host_error
defaulted_host_invalid_example =
    defaulted_host_invalid demo_validation hostless refl empty_host_invalid

valid_package_iff_example : (valid_package "numpy=1.15.1" ≡ true) ↔ IsPackage (codes "numpy=1.15.1")
valid_package_iff_example = valid_package_iff "numpy=1.15.1"

-- Packages that pass, and packages that do not.
package_tests :
    (valid_package "numpy" ≡ true)
    × (valid_package "numpy=1.15.1" ≡ true)
    × (valid_package "" ≡ false)
    × (valid_package "a=" ≡ false)
    × (valid_package "a=1=2" ≡ false)
    × (valid_package "a b" ≡ false)
unfolding valid_package
package_tests = (refl, refl, refl, refl, refl, refl)

demo_is_valid : validate demo_validation demo ≡ none
unfolding validate invalid_host invalid_ingress invalid_packages valid_package
demo_is_valid = refl
