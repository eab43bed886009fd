-- ===== src/Features/Tests.antt =====
-- Runs of the feature set and of the search in it.
use grantseal.Prelude.{◌≡◌, ◌≢◌, ◌↔◌, ◌⊎◌, refl, true, false, codes, [], ◌∷◌, eqb}
use grantseal.Prelude.Among.{IsAmong}
use grantseal.Features.{
  effective_features, default_edition_features, has_feature, add_all, add_named, add_member,
  sort_strings, insert_sorted, search_loop,
}
use grantseal.Version.{compare_strings}
use grantseal.Features.Search.{has_feature-effective_features}
use grantseal.Samples.{subscription}

has_feature-effective_features_example :
    (has_feature (effective_features subscription) (codes "export") ≡ true) ↔ (
      (IsAmong (codes "export") (codes "export" ∷ []) × (codes "export" ≢ []))
      ⊎ IsAmong (codes "export") (default_edition_features (codes "basic")))
has_feature-effective_features_example =
    has_feature-effective_features subscription (codes "export")

features_of_subscription :
    effective_features subscription ≡ codes "core" ∷ codes "export" ∷ codes "reports" ∷ []
unfolding effective_features default_edition_features add_all add_named add_member sort_strings
    insert_sorted compare_strings eqb
features_of_subscription = refl

search_finds :
    (has_feature (codes "core" ∷ codes "export" ∷ codes "reports" ∷ []) (codes "reports") ≡ true)
    × (has_feature (codes "core" ∷ codes "export" ∷ codes "reports" ∷ []) (codes "api") ≡ false)
unfolding has_feature search_loop compare_strings eqb
search_finds = (refl, refl)
