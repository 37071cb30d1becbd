-- ===== src/Classifier/Examples.antt =====
-- The built-in rules, and a port that is taken, told on the error stream.
use devdiag.Base.{refl, All, Any, to_lower}
use devdiag.Base.Text.Join.{lacks}
use devdiag.Classifier.Rules.{default_rules}
use devdiag.Classifier.{classify}
use devdiag.Classifier.Streams.{IsPlain, IsShown, classify-IsShown}

default_rules-IsPlain : All IsPlain default_rules
unfolding lacks to_lower
default_rules-IsPlain = (
  (refl, refl, refl),
  (
    (refl, refl, refl),
    (
      (refl, refl, refl),
      ((refl, refl, refl), ((refl, refl, refl), ((refl, refl, refl), ((refl, refl, refl), tt)))),
    ),
  ),
)

classify-IsShown_example :
    All
      (λ c. Any (IsShown "" "listen: Address already in use" c) default_rules)
      (classify default_rules "" "listen: Address already in use")
classify-IsShown_example =
    classify-IsShown default_rules "" "listen: Address already in use" default_rules-IsPlain
