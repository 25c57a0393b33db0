-- ===== src/Cli/EsReindex.antt =====
-- apps/cli/src/services/es-reindex.service.ts. The Elasticsearch client is a parameter.
pub mod Versions
pub mod Aliases
pub mod Swap
use Prim.Native.String.{◌++◌ as append}
use message_management_api.Prelude.{
  ℕ, suc, ◌+◌, ltb, ◌==◌, String, Bool, true, false, not, Option, none, some, List, [], ◌∷◌, ◌++◌,
  length, map, is_empty, if◌then◌else◌,
}
use message_management_api.Json.{Json, as_record, as_number, get, is_natural}
use message_management_api.Effects.{
  Io, pure, throw, try_catch, ◌>>=◌, ◌>>◌, Exception, failure, value, Result, ok, err, plain_error,
}
use message_management_api.Runtime.{Runtime}
use message_management_api.Search.EsMessageSearch.{messages_read_alias, messages_write_alias}
use message_management_api.Search.IndexManager.{AliasAction, remove, add}
use message_management_api.Application.ListMessages.{lift}
use Versions.{normalize_target_index}

pub record EsReindexInput : Type 0 where
  pub dry_run : Bool
  pub target_index : Option String

pub record EsReindexResult : Type 0 where
  pub aliases_swapped : Bool
  pub previous_write_indices : List String
  pub source_count : ℕ
  pub source_indices : List String
  pub target_count : Option ℕ
  pub target_index : String

-- The calls of the client; `reindex source target` answers the number of failures it reports.
pub record EsClient (W : Type 0) : Type 0 where
  pub get_alias : String → Io W (List String)
  pub count : String → Io W ℕ
  pub exists : String → Io W Bool
  pub create : String → Io W (Unit {0})
  pub reindex : String → String → Io W ℕ
  pub update_aliases : List AliasAction → Io W (Unit {0})

-- `meta?.statusCode === 404` on what was thrown.
abbrev is_status_404 : Option Json → Bool
is_status_404 meta = elim (as_record meta) [
  | none ↦ false
  | some fields ↦ elim (as_number (get "statusCode" fields)) [
    | none ↦ false
    | some n ↦ is_natural 404 n
  ]
]

unfoldable pub is_elasticsearch_not_found : Exception → Bool
unfolding get
is_elasticsearch_not_found (failure name message meta) = is_status_404 meta
is_elasticsearch_not_found (value v) = elim (as_record (some v)) [
  | none ↦ false
  | some fields ↦ is_status_404 (get "meta" fields)
]
is_elasticsearch_not_found _ = false

abbrev pub remove_all : String → List String → List AliasAction
remove_all alias [] = []
remove_all alias (index ∷ indices) = remove alias index ∷ remove_all alias indices

unfoldable pub build_alias_swap_actions : List String → List String → String → List AliasAction
build_alias_swap_actions previous_read previous_write target =
    remove_all messages_read_alias previous_read
    ++ (remove_all messages_write_alias previous_write
        ++ (add messages_read_alias target false ∷ add messages_write_alias target true ∷ []))

module _ {W : Type 0} (r : Runtime) (client : EsClient W) where
  unfoldable pub get_alias_indices : String → Io W (List String)
  unfolding is_elasticsearch_not_found
  get_alias_indices alias =
      try_catch (do indices ← client.get_alias alias; pure (r.sort_texts indices))
        λ error. if is_elasticsearch_not_found error then pure [] else throw error

  abbrev pub require : Bool → String → Io W (Unit {0})
  require test message = if test then pure tt else throw (plain_error message)

  -- The part that is not reached in a dry run.
  unfoldable pub apply_reindex :
      List String → List String → String → ℕ → Bool → Io W EsReindexResult
  unfolding build_alias_swap_actions
  apply_reindex sources previous_write target source_count target_exists = do
    require (not target_exists) (append "Target index already exists: " target)
    client.create target
    failures ← client.reindex messages_read_alias target
    require (failures == 0)
        (append "Elasticsearch reindex reported " (append (r.decimal failures) " failures."))
    target_count ← client.count target
    require (target_count == source_count) (
        append "Reindex count verification failed: source=" (
          append (r.decimal source_count)
            (append ", target=" (append (r.decimal target_count) "."))))
    client.update_aliases (build_alias_swap_actions sources previous_write target)
    pure (record {
      aliases_swapped = true;
      previous_write_indices = previous_write;
      source_count = source_count;
      source_indices = sources;
      target_count = some target_count;
      target_index = target;
    })

  unfoldable pub reindex : EsReindexInput → Io W EsReindexResult
  unfolding get_alias_indices apply_reindex
  reindex input = do
    sources ← get_alias_indices messages_read_alias
    previous_write ← get_alias_indices messages_write_alias
    require (not (length sources == 0))
        (append "Alias " (append messages_read_alias " does not point at any index."))
    target ← lift (normalize_target_index r input.target_index sources)
    source_count ← client.count messages_read_alias
    target_exists ← client.exists target
    if input.dry_run
        then pure (record {
          aliases_swapped = false;
          previous_write_indices = previous_write;
          source_count = source_count;
          source_indices = sources;
          target_count = none;
          target_index = target;
        })
        else apply_reindex sources previous_write target source_count target_exists
