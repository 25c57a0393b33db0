-- ===== src/Search/IndexManager.antt =====
-- libs/search/src/index-manager.service.ts.
pub mod Bootstrap
use message_management_api.Prelude.{
  String, Bool, true, false, Option, none, some, List, [], ◌∷◌, ◌++◌, str_eq, if◌then◌else◌,
  or_else,
}
use message_management_api.Json.{Json, get, as_record, as_string, as_number, is_natural, Fields}
use message_management_api.Effects.{
  Io, pure, throw, act, try_catch, ◌>>=◌, ◌>>◌, Exception, failure, value,
}
use message_management_api.Search.EsMessageSearch.{
  messages_physical_index, messages_read_alias, messages_write_alias,
}

pub data AliasAction : Type 0 where
  remove : String → String → AliasAction
  -- The alias, the index, and whether it is the alias's write index.
  add : String → String → Bool → AliasAction

-- `elasticsearch.indices`.
pub record Indices (W : Type 0) : Type 0 where
  pub exists : String → Io W Bool
  pub create : String → Io W (Unit {0})
  pub exists_alias : String → Io W Bool
  pub update_aliases : List AliasAction → Io W (Unit {0})

-- The property `meta` of what was thrown.
abbrev meta_of : Exception → Option Json
meta_of (failure name message meta) = meta
meta_of (value v) = elim (as_record (some v)) [ none ↦ none | some fields ↦ get "meta" fields ]
meta_of _ = none

abbrev body_error : Fields → Option Fields
body_error meta = elim (as_record (get "body" meta)) [
  | none ↦ none
  | some body ↦ as_record (get "error" body)
]

abbrev is_status_400 : Option Json → Bool
is_status_400 code = elim (as_number code) [ none ↦ false | some n ↦ is_natural 400 n ]

abbrev is_already_exists : Option Json → Bool
is_already_exists kind = str_eq (or_else (as_string kind) "") "resource_already_exists_exception"

-- `isErrorWithMeta` and the test behind it. The bodies that Elasticsearch answers are objects.
unfoldable pub is_resource_already_exists_error : Exception → Bool
unfolding get
is_resource_already_exists_error error = elim (as_record (meta_of error)) [
  | none ↦ false
  | some meta ↦ elim (body_error meta) [
    | none ↦ false
    | some e ↦
        if is_status_400 (get "statusCode" meta) then is_already_exists (get "type" e) else false
  ]
]

unfoldable pub missing_alias_actions : Bool → Bool → List AliasAction
missing_alias_actions read write =
    (if read then [] else add messages_read_alias messages_physical_index false ∷ [])
    ++ (if write then [] else add messages_write_alias messages_physical_index true ∷ [])

module _ {W : Type 0} (indices : Indices W) where
  unfoldable pub create_messages_index : Io W (Unit {0})
  create_messages_index =
      try_catch (indices.create messages_physical_index)
        λ error. if is_resource_already_exists_error error then pure tt else throw error

  unfoldable pub ensure_aliases : Io W (Unit {0})
  unfolding missing_alias_actions
  ensure_aliases = do
    read ← indices.exists_alias messages_read_alias
    write ← indices.exists_alias messages_write_alias
    elim (missing_alias_actions read write) [
      | [] ↦ pure tt
      | action ∷ actions ↦ indices.update_aliases (action ∷ actions)
    ]

  abbrev created_unless : Bool → Io W (Unit {0})
  created_unless exists = if exists then pure tt else create_messages_index

  unfoldable pub ensure_messages_index : Io W (Unit {0})
  unfolding create_messages_index ensure_aliases
  ensure_messages_index = do
    exists ← indices.exists messages_physical_index
    created_unless exists
    ensure_aliases

  -- `runtime` is the setting `app.runtime`; `warn` writes the warning.
  unfoldable pub on_module_init : String → (Exception → W → W) → Io W (Unit {0})
  unfolding ensure_messages_index
  on_module_init runtime warn =
      try_catch ensure_messages_index
        λ error. if str_eq runtime "api" then act (warn error) else throw error
