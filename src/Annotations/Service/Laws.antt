-- ===== src/Annotations/Service/Laws.antt =====
-- What the answers about a service class follow from.
use lrzwasnla.Common.{String, ◌≡◌, refl, Bool, true, List, [], ◌∷◌, Dict, arith}
use lrzwasnla.Annotations.Classes.{Class, prototypes}
use lrzwasnla.Annotations.Service.{
  ServiceAnnotationContainer, scan_service_allowed_for_every_user,
  is_service_allowed_for_every_user_with_authentication,
}

scan-eq-true :
    (allowed : Dict Bool) (names : List String)
    → scan_service_allowed_for_every_user allowed names ≡ true
unfolding scan_service_allowed_for_every_user
scan-eq-true allowed [] = refl
scan-eq-true allowed (name ∷ rest) = ground (arith, scan-eq-true allowed rest)

-- Whatever was registered, every service class is reported to require authentication.
pub with_authentication-eq-true :
    (r : ServiceAnnotationContainer) (c : Class)
    → is_service_allowed_for_every_user_with_authentication r c ≡ true
unfolding is_service_allowed_for_every_user_with_authentication
with_authentication-eq-true r c = scan-eq-true _ (prototypes c)
