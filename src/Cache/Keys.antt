-- ===== src/Cache/Keys.antt =====
-- lcloud/cache.py: the namespace of a key, and the key helpers.
use Prim.Native.Char.{code}
use Prim.Native.String.{◌++◌}
use lcloud.Base.{ℕ, String, ◌≡◌, refl, Option, none, some, ◌==◌, if◌then◌else◌}
use lcloud.Base.Text.{show}

-- `key.split(":", 1)[0]`; none where the key has no colon.
unfoldable pub before_colon : String → Option String
before_colon String.[] = none
before_colon (String.◌∷◌ c s) =
    let rest = before_colon s in
    if code c == b':' then some "" else elim rest [ none ↦ none | some t ↦ some (String.◌∷◌ c t) ]

-- `_namespace`
unfoldable pub namespace_of : String → String
unfolding before_colon
namespace_of key = elim (before_colon key) [ none ↦ "default" | some s ↦ s ]

unfoldable pub k_json_public_key : String → String
k_json_public_key public_key = "json_public_key:" ++ public_key

unfoldable pub k_json_collection : ℕ → String
k_json_collection collection_id = "json_collection:id:" ++ show collection_id

-- `f"json_doc:{collection_id}:"`, which `invalidate_json_collection` deletes by
unfoldable pub doc_prefix : ℕ → String
doc_prefix collection_id = "json_doc:" ++ (show collection_id ++ ":")

unfoldable pub k_json_document : ℕ → String → String
k_json_document collection_id doc_id = "json_doc:" ++ (show collection_id ++ (":" ++ doc_id))

unfoldable pub list_prefix : ℕ → String
list_prefix collection_id = "json_list:" ++ (show collection_id ++ ":")

unfoldable pub k_json_list : ℕ → ℕ → ℕ → String
k_json_list collection_id limit offset =
    "json_list:" ++ (show collection_id ++ (":" ++ (show limit ++ (":" ++ show offset))))

unfoldable pub query_prefix : ℕ → String
query_prefix collection_id = "json_query:" ++ (show collection_id ++ ":")

ns_test : namespace_of "json_doc:3:a" ≡ "json_doc"
unfolding namespace_of
ns_test = refl

unfoldable pub k_user_me : ℕ → String
k_user_me user_id = "me:" ++ show user_id

unfoldable pub k_user_quota : ℕ → String
k_user_quota user_id = "quota:" ++ show user_id

unfoldable pub k_user_clouds : ℕ → String → String
k_user_clouds user_id role = "clouds:" ++ (role ++ (":" ++ show user_id))

-- `f"files:cloud={cloud_id}:"`, which `invalidate_files_in_cloud` deletes by
unfoldable pub files_prefix : ℕ → String
files_prefix cloud_id = "files:cloud=" ++ (show cloud_id ++ ":")

unfoldable pub k_files_in_cloud : ℕ → ℕ → String → ℕ → ℕ → String
k_files_in_cloud cloud_id user_id role limit offset =
    "files:cloud="
    ++ (show cloud_id
        ++ (":"
            ++ (role
                ++ (":" ++ (show user_id ++ (":l=" ++ (show limit ++ (":o=" ++ show offset))))))))

unfoldable pub k_json_database_key : String → String
k_json_database_key database_key = "json_database:key:" ++ database_key

unfoldable pub k_json_storage_key : String → String
k_json_storage_key storage_key = "json_storage_key:" ++ storage_key

-- `database_id` is a number or a text: the text that it prints as.
unfoldable pub k_json_collection_name : ℕ → String → String → String
k_json_collection_name owner_user_id database_id name =
    "json_collection:name:" ++ (show owner_user_id ++ (":" ++ (database_id ++ (":" ++ name))))

-- `stable_hash` of the query is given.
unfoldable pub k_json_query : ℕ → String → String
k_json_query collection_id hash = "json_query:" ++ (show collection_id ++ (":" ++ hash))

abbrev pub k_json_meta : String
k_json_meta = "json_meta:v1"
