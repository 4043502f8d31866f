-- ===== src/Cache/Invalidators.antt =====
-- The invalidators of lcloud/cache.py, on the one cache of the process.
pub mod Laws
use lcloud.Base.{ℕ, String, Option, none, some}
use lcloud.Cache.{TtlCache, delete_key, delete_prefix, delete_namespace}
use lcloud.Cache.Keys.{
  k_user_quota, k_user_me, k_user_clouds, files_prefix, k_json_document, k_json_collection,
  doc_prefix, list_prefix, query_prefix,
}

module _ {V : Type 0} where
  unfoldable pub invalidate_user_quota : ℕ → TtlCache V → TtlCache V
  invalidate_user_quota user_id c = delete_key (k_user_quota user_id) c

  unfoldable pub invalidate_user_me : ℕ → TtlCache V → TtlCache V
  invalidate_user_me user_id c = delete_key (k_user_me user_id) c

  unfoldable pub invalidate_user_clouds : ℕ → TtlCache V → TtlCache V
  invalidate_user_clouds user_id c =
      let c = delete_key (k_user_clouds user_id "user") c in
      let c = delete_key (k_user_clouds user_id "admin") c in (delete_prefix "clouds:admin:" c).1

  unfoldable pub invalidate_files_in_cloud : ℕ → TtlCache V → TtlCache V
  invalidate_files_in_cloud cloud_id c = (delete_prefix (files_prefix cloud_id) c).1

  unfoldable pub invalidate_json_database : Option ℕ → TtlCache V → TtlCache V
  invalidate_json_database none c =
      let (_, c) = delete_namespace "json_meta" c in
      let (_, c) = delete_namespace "json_database" c in (delete_namespace "json_collection" c).1
  invalidate_json_database (some database_id) c =
      let (_, c) = delete_namespace "json_meta" c in (delete_prefix "json_collection:name:" c).1

  unfoldable pub invalidate_json_public_keys : TtlCache V → TtlCache V
  invalidate_json_public_keys c = (delete_namespace "json_public_key" c).1

  unfoldable pub invalidate_json_storage_keys : TtlCache V → TtlCache V
  invalidate_json_storage_keys c = (delete_namespace "json_storage_key" c).1

  unfoldable pub invalidate_json_document : ℕ → String → TtlCache V → TtlCache V
  invalidate_json_document collection_id doc_id c =
      let c = delete_key (k_json_document collection_id doc_id) c in
      let (_, c) = delete_prefix (list_prefix collection_id) c in
      (delete_prefix (query_prefix collection_id) c).1

  unfoldable pub invalidate_json_collection : ℕ → TtlCache V → TtlCache V
  invalidate_json_collection collection_id c =
      let c = delete_key (k_json_collection collection_id) c in
      let (_, c) = delete_prefix (doc_prefix collection_id) c in
      let (_, c) = delete_prefix (list_prefix collection_id) c in
      (delete_prefix (query_prefix collection_id) c).1
