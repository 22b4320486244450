-- ===== src/Annotations/ServiceFunction/AddingAccess.antt =====
-- decorators/service/function/serviceFunctionAnnotationContainer.ts: what the decorators that say
-- who may call a function register.
use lrzwasnla.Common.{String, Bool, true, List, put}
use lrzwasnla.Annotations.Classes.{Class, key}
use lrzwasnla.Annotations.ServiceFunction.Defs.{ServiceFunctionAnnotationContainer}

module _ {Any : Type 0} where
  unfoldable pub add_no_captcha_annotation :
      ServiceFunctionAnnotationContainer Any
      → Class
      → String
      → ServiceFunctionAnnotationContainer Any
  add_no_captcha_annotation r c member = record r {
    service_function_name_to_has_no_captcha_annotation_map =
        put r.service_function_name_to_has_no_captcha_annotation_map (key c.name member) true;
  }

  unfoldable pub add_allowed_user_roles :
      ServiceFunctionAnnotationContainer Any
      → Class
      → String
      → List String
      → ServiceFunctionAnnotationContainer Any
  add_allowed_user_roles r c member roles = record r {
    service_function_name_to_allowed_user_roles_map =
        put r.service_function_name_to_allowed_user_roles_map (key c.name member) roles;
  }

  unfoldable pub add_service_function_allowed_for_every_user :
      ServiceFunctionAnnotationContainer Any
      → Class
      → String
      → Bool
      → ServiceFunctionAnnotationContainer Any
  add_service_function_allowed_for_every_user r c member allow_despite_user_id_in_arg = record r {
    service_function_name_to_is_allowed_for_every_user_map =
        put r.service_function_name_to_is_allowed_for_every_user_map (key c.name member)
          allow_despite_user_id_in_arg;
  }

  unfoldable pub add_service_function_allowed_for_every_user_with_authentication :
      ServiceFunctionAnnotationContainer Any
      → Class
      → String
      → Bool
      → ServiceFunctionAnnotationContainer Any
  add_service_function_allowed_for_every_user_with_authentication r c member
        is_authentication_required =
      record r {
        service_function_name_to_is_allowed_for_every_user_with_authentication_map =
            put r.service_function_name_to_is_allowed_for_every_user_with_authentication_map
              (key c.name member) is_authentication_required;
      }

  unfoldable pub add_service_function_allowed_for_cluster_internal_use :
      ServiceFunctionAnnotationContainer Any
      → Class
      → String
      → ServiceFunctionAnnotationContainer Any
  add_service_function_allowed_for_cluster_internal_use r c member = record r {
    service_function_name_to_is_allowed_for_cluster_internal_use_map =
        put r.service_function_name_to_is_allowed_for_cluster_internal_use_map (key c.name member)
          true;
  }

  unfoldable pub add_service_function_allow_http_get_method :
      ServiceFunctionAnnotationContainer Any
      → Class
      → String
      → ServiceFunctionAnnotationContainer Any
  add_service_function_allow_http_get_method r c member = record r {
    service_function_name_to_allow_http_get_method_map =
        put r.service_function_name_to_allow_http_get_method_map (key c.name member) true;
  }

  unfoldable pub add_service_function_allowed_for_every_user_for_own_resources :
      ServiceFunctionAnnotationContainer Any
      → Class
      → String
      → String
      → ServiceFunctionAnnotationContainer Any
  add_service_function_allowed_for_every_user_for_own_resources r c member
        user_account_id_field_name =
      record r {
        service_function_name_to_user_account_id_field_name =
            put r.service_function_name_to_user_account_id_field_name (key c.name member)
              user_account_id_field_name;
      }

  unfoldable pub add_service_function_allowed_for_service_internal_use :
      ServiceFunctionAnnotationContainer Any
      → Class
      → String
      → ServiceFunctionAnnotationContainer Any
  add_service_function_allowed_for_service_internal_use r c member = record r {
    service_function_name_to_is_allowed_for_service_private_use_map =
        put r.service_function_name_to_is_allowed_for_service_private_use_map (key c.name member)
          true;
  }

  unfoldable pub add_service_function_allowed_for_tests :
      ServiceFunctionAnnotationContainer Any
      → Class
      → String
      → ServiceFunctionAnnotationContainer Any
  add_service_function_allowed_for_tests r c member = record r {
    service_function_name_to_allowed_for_tests_map =
        put r.service_function_name_to_allowed_for_tests_map (key c.name member) true;
  }
