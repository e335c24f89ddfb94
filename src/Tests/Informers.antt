-- ===== src/Tests/Informers.antt =====
-- Examples for pkg/informers.
use jupyter_operator.Common.{lookup, insert, ℕ, none, [], ◌∷◌, ◌≡◌, refl, ◌+◌}
use jupyter_operator.Informers.{Factory, start_each, start, add_informer, reuse, informer_for}
use jupyter_operator.Informers.Laws.{start_again, informer_for_again}

-- An informer is a number here: its resync period.
abbrev two_informers : Factory (Unit {0}) ℕ (Unit {0})
two_informers = record {
  client = tt;
  namespace = "";
  tweak_list_options = none;
  default_resync = 300;
  custom_resync = ("notebooks", 60) ∷ [];
  informers = ("notebooks", 60) ∷ ("secrets", 300) ∷ [];
  started_informers = [];
}

abbrev of_period : Unit {0} → ℕ → ℕ
of_period client period = period

abbrev doubled : Unit {0} → ℕ → ℕ
doubled client period = period + period

both_run : (start two_informers).0 ≡ 60 ∷ 300 ∷ []
unfolding start start_each insert lookup
both_run = refl

new_informer : (informer_for "services" of_period two_informers).0 ≡ 300
unfolding informer_for reuse add_informer lookup
new_informer = refl

start_again_example : start (start two_informers).1 ≡ ([], (start two_informers).1)
start_again_example = start_again two_informers

same_informer_again :
    informer_for "services" doubled (informer_for "services" of_period two_informers).1
    ≡ informer_for "services" of_period two_informers
same_informer_again = informer_for_again "services" of_period doubled two_informers
