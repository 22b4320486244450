-- ===== src/Annotations/TypeProperty/Defs.antt =====
-- decorators/typeproperty/typePropertyAnnotationContainer.ts: the maps and the setters.
-- `Any` is the source's `any`; the request options of a remote fetch stay opaque.
use lrzwasnla.Common.{String, Bool, true, Option, [], Dict, put}
use lrzwasnla.Annotations.Classes.{Class, key}

pub record RemoteServiceFetchSpec (Any : Type 0) : Type 0 where
  pub remote_microservice_name : String
  pub remote_microservice_namespace : Option String
  pub remote_service_function_name : String
  pub build_remote_service_function_argument : Any → Any → Dict Any
  pub options : Option Any

pub record TypePropertyAnnotationContainer (Any : Type 0) : Type 0 where
  pub type_property_name_to_doc_string_map : Dict String
  pub type_property_name_to_is_unique_map : Dict Bool
  pub type_property_name_to_is_not_hashed_map : Dict Bool
  pub type_property_name_to_is_hashed_map : Dict Bool
  pub type_property_name_to_is_encrypted_map : Dict Bool
  pub type_property_name_to_is_not_encrypted_map : Dict Bool
  pub type_property_name_to_is_private_map : Dict Bool
  pub type_property_name_to_is_many_to_many_map : Dict Bool
  pub type_property_name_to_is_external_id_map : Dict Bool
  pub type_property_name_to_is_one_to_many_map : Dict Bool
  pub type_property_name_to_is_external_service_entity_map : Dict Bool
  pub type_property_name_to_remote_service_fetch_spec_map : Dict (RemoteServiceFetchSpec Any)
  pub type_property_name_to_is_not_unique_map : Dict Bool
  pub type_property_name_to_is_read_write_map : Dict Bool
  pub type_property_name_to_is_read_only_map : Dict Bool
  pub type_property_name_to_is_write_only_map : Dict Bool
  pub type_property_name_to_is_create_only_map : Dict Bool
  pub type_property_name_to_is_update_only_map : Dict Bool
  pub type_property_name_to_is_read_update_map : Dict Bool
  pub type_property_name_to_is_transient_map : Dict Bool

-- the container as a microservice starts with it
abbrev pub empty : {Any : Type 0} → TypePropertyAnnotationContainer Any
empty = record {
  type_property_name_to_doc_string_map = [];
  type_property_name_to_is_unique_map = [];
  type_property_name_to_is_not_hashed_map = [];
  type_property_name_to_is_hashed_map = [];
  type_property_name_to_is_encrypted_map = [];
  type_property_name_to_is_not_encrypted_map = [];
  type_property_name_to_is_private_map = [];
  type_property_name_to_is_many_to_many_map = [];
  type_property_name_to_is_external_id_map = [];
  type_property_name_to_is_one_to_many_map = [];
  type_property_name_to_is_external_service_entity_map = [];
  type_property_name_to_remote_service_fetch_spec_map = [];
  type_property_name_to_is_not_unique_map = [];
  type_property_name_to_is_read_write_map = [];
  type_property_name_to_is_read_only_map = [];
  type_property_name_to_is_write_only_map = [];
  type_property_name_to_is_create_only_map = [];
  type_property_name_to_is_update_only_map = [];
  type_property_name_to_is_read_update_map = [];
  type_property_name_to_is_transient_map = [];
}

module _ {Any : Type 0} where
  unfoldable pub add_documentation_for_type_property :
      TypePropertyAnnotationContainer Any
      → Class
      → String
      → String
      → TypePropertyAnnotationContainer Any
  add_documentation_for_type_property r c member doc_string = record r {
    type_property_name_to_doc_string_map =
        put r.type_property_name_to_doc_string_map (key c.name member) doc_string;
  }

  unfoldable pub set_type_property_as_unique :
      TypePropertyAnnotationContainer Any → Class → String → TypePropertyAnnotationContainer Any
  set_type_property_as_unique r c member = record r {
    type_property_name_to_is_unique_map =
        put r.type_property_name_to_is_unique_map (key c.name member) true;
  }

  unfoldable pub set_type_property_as_not_unique :
      TypePropertyAnnotationContainer Any → Class → String → TypePropertyAnnotationContainer Any
  set_type_property_as_not_unique r c member = record r {
    type_property_name_to_is_not_unique_map =
        put r.type_property_name_to_is_not_unique_map (key c.name member) true;
  }

  unfoldable pub set_type_property_as_transient :
      TypePropertyAnnotationContainer Any → Class → String → TypePropertyAnnotationContainer Any
  set_type_property_as_transient r c member = record r {
    type_property_name_to_is_transient_map =
        put r.type_property_name_to_is_transient_map (key c.name member) true;
  }

  unfoldable pub set_type_property_as_not_hashed :
      TypePropertyAnnotationContainer Any → Class → String → TypePropertyAnnotationContainer Any
  set_type_property_as_not_hashed r c member = record r {
    type_property_name_to_is_not_hashed_map =
        put r.type_property_name_to_is_not_hashed_map (key c.name member) true;
  }

  unfoldable pub set_type_property_as_hashed :
      TypePropertyAnnotationContainer Any → Class → String → TypePropertyAnnotationContainer Any
  set_type_property_as_hashed r c member = record r {
    type_property_name_to_is_hashed_map =
        put r.type_property_name_to_is_hashed_map (key c.name member) true;
  }

  unfoldable pub set_type_property_as_encrypted :
      TypePropertyAnnotationContainer Any → Class → String → TypePropertyAnnotationContainer Any
  set_type_property_as_encrypted r c member = record r {
    type_property_name_to_is_encrypted_map =
        put r.type_property_name_to_is_encrypted_map (key c.name member) true;
  }

  unfoldable pub set_type_property_as_not_encrypted :
      TypePropertyAnnotationContainer Any → Class → String → TypePropertyAnnotationContainer Any
  set_type_property_as_not_encrypted r c member = record r {
    type_property_name_to_is_not_encrypted_map =
        put r.type_property_name_to_is_not_encrypted_map (key c.name member) true;
  }

  unfoldable pub set_type_property_as_private :
      TypePropertyAnnotationContainer Any → Class → String → TypePropertyAnnotationContainer Any
  set_type_property_as_private r c member = record r {
    type_property_name_to_is_private_map =
        put r.type_property_name_to_is_private_map (key c.name member) true;
  }

  unfoldable pub set_type_property_as_many_to_many :
      TypePropertyAnnotationContainer Any → Class → String → TypePropertyAnnotationContainer Any
  set_type_property_as_many_to_many r c member = record r {
    type_property_name_to_is_many_to_many_map =
        put r.type_property_name_to_is_many_to_many_map (key c.name member) true;
  }

  unfoldable pub set_type_property_as_one_to_many :
      TypePropertyAnnotationContainer Any
      → Class
      → String
      → Bool
      → TypePropertyAnnotationContainer Any
  set_type_property_as_one_to_many r c member is_external_service_entity = record r {
    type_property_name_to_is_one_to_many_map =
        put r.type_property_name_to_is_one_to_many_map (key c.name member) true;
    type_property_name_to_is_external_service_entity_map =
        put r.type_property_name_to_is_external_service_entity_map (key c.name member)
          is_external_service_entity;
  }

  unfoldable pub set_type_property_as_external_id :
      TypePropertyAnnotationContainer Any → Class → String → TypePropertyAnnotationContainer Any
  set_type_property_as_external_id r c member = record r {
    type_property_name_to_is_external_id_map =
        put r.type_property_name_to_is_external_id_map (key c.name member) true;
  }

  unfoldable pub set_type_property_as_read_write :
      TypePropertyAnnotationContainer Any → Class → String → TypePropertyAnnotationContainer Any
  set_type_property_as_read_write r c member = record r {
    type_property_name_to_is_read_write_map =
        put r.type_property_name_to_is_read_write_map (key c.name member) true;
  }

  unfoldable pub set_type_property_as_read_only :
      TypePropertyAnnotationContainer Any → Class → String → TypePropertyAnnotationContainer Any
  set_type_property_as_read_only r c member = record r {
    type_property_name_to_is_read_only_map =
        put r.type_property_name_to_is_read_only_map (key c.name member) true;
  }

  unfoldable pub set_type_property_as_write_only :
      TypePropertyAnnotationContainer Any → Class → String → TypePropertyAnnotationContainer Any
  set_type_property_as_write_only r c member = record r {
    type_property_name_to_is_write_only_map =
        put r.type_property_name_to_is_write_only_map (key c.name member) true;
  }

  unfoldable pub set_type_property_as_create_only :
      TypePropertyAnnotationContainer Any → Class → String → TypePropertyAnnotationContainer Any
  set_type_property_as_create_only r c member = record r {
    type_property_name_to_is_create_only_map =
        put r.type_property_name_to_is_create_only_map (key c.name member) true;
  }

  unfoldable pub set_type_property_as_update_only :
      TypePropertyAnnotationContainer Any → Class → String → TypePropertyAnnotationContainer Any
  set_type_property_as_update_only r c member = record r {
    type_property_name_to_is_update_only_map =
        put r.type_property_name_to_is_update_only_map (key c.name member) true;
  }

  unfoldable pub set_type_property_as_read_update :
      TypePropertyAnnotationContainer Any → Class → String → TypePropertyAnnotationContainer Any
  set_type_property_as_read_update r c member = record r {
    type_property_name_to_is_read_update_map =
        put r.type_property_name_to_is_read_update_map (key c.name member) true;
  }

  unfoldable pub set_type_property_as_fetched_from_remote_service :
      TypePropertyAnnotationContainer Any
      → Class
      → String
      → String
      → Option String
      → String
      → (Any → Any → Dict Any)
      → Option Any
      → TypePropertyAnnotationContainer Any
  set_type_property_as_fetched_from_remote_service r c member remote_microservice_name
        remote_microservice_namespace remote_service_function_name
        build_remote_service_function_argument options =
      record r {
        type_property_name_to_remote_service_fetch_spec_map =
            put r.type_property_name_to_remote_service_fetch_spec_map (key c.name member) (record {
              remote_microservice_name = remote_microservice_name;
              remote_microservice_namespace = remote_microservice_namespace;
              remote_service_function_name = remote_service_function_name;
              build_remote_service_function_argument = build_remote_service_function_argument;
              options = options;
            });
      }
