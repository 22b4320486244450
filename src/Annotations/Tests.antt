-- ===== src/Annotations/Tests.antt =====
-- The containers of a class with one parent that has the same function.
use lrzwasnla.Common.{◌≡◌, refl, true, [], ◌∷◌, at, different}
use lrzwasnla.Annotations.Classes.{Class}
use lrzwasnla.Annotations.ServiceFunction
use lrzwasnla.Annotations.ServiceFunction.{ServiceFunctionAnnotationContainer}
use lrzwasnla.Annotations.ServiceFunction.Registrations.{
  Annotation, annotate, allowed_user_roles, cron_schedule_for_service_function,
}
use lrzwasnla.Annotations.ServiceFunction.Views.{view, Shows}
use lrzwasnla.Annotations.ServiceFunction.Answers.{
  cron_view, ShowsCron, annotate-answers_ne, annotate-answers,
}
use lrzwasnla.Annotations.TypeProperty
use lrzwasnla.Annotations.TypeProperty.{TypePropertyAnnotationContainer}
use lrzwasnla.Annotations.TypeProperty.Views.{register, property_view, IsShown, as_one_to_many}
use lrzwasnla.Annotations.TypeProperty.Laws.{register-IsShown}

abbrev crud_service : Class
crud_service = record { name = "Crud"; parents = [] }

abbrev user_service : Class
user_service = record { name = "User"; parents = "Crud" ∷ [] }

abbrev functions : ServiceFunctionAnnotationContainer (Unit {0})
functions = ServiceFunction.empty

annotate-answers_ne_example :
    let annotated =
      annotate (cron_schedule_for_service_function "0 0 * * *") functions crud_service "delete" in
    (view annotated user_service "get" ≡ view functions user_service "get")
    × (cron_view annotated "User.get" ≡ cron_view functions "User.get")
annotate-answers_ne_example =
    annotate-answers_ne functions crud_service "delete" user_service "get" "User.get"
      (cron_schedule_for_service_function "0 0 * * *")
      (different "Cruddelete" "Userget" refl, (different "Cruddelete" "Crudget" refl, tt))
      (different "Crud.delete" "User.get" refl)

annotate-answers_example :
    let annotation : Annotation (Unit {0}) = allowed_user_roles ("admin" ∷ []) in
    let annotated = annotate annotation functions crud_service "delete" in
    Shows annotation (view annotated user_service "delete")
    × ShowsCron annotation (cron_view annotated "Crud.delete")
unfolding at
annotate-answers_example =
    annotate-answers functions crud_service "delete" user_service
      (allowed_user_roles ("admin" ∷ [])) ("User" ∷ []) [] refl
      ((refl, different "Cruddelete" "Userdelete" refl), tt)

abbrev properties : TypePropertyAnnotationContainer (Unit {0})
properties = TypeProperty.empty

register-IsShown_example : IsShown (as_one_to_many true) (
    property_view
      (register (as_one_to_many true) properties crud_service "logins")
      user_service
      "logins")
unfolding at
register-IsShown_example =
    register-IsShown properties crud_service user_service "logins" (as_one_to_many true)
      ("User" ∷ []) [] refl (((refl, refl), different "Crudlogins" "Userlogins" refl), tt)
