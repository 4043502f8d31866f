-- ===== src/Tests/Storage.antt =====
-- Files that are uploaded and deleted, at fixed inputs.
use lcloud.Base.{
  ap, find_if, ℕ, zero, suc, ◌+◌, ◌≤◌, String, ◌≡◌, refl, Bool, true, false, ◌&&◌, Option, none,
  some, List, [], ◌∷◌, ◌++◌, arith, ◌==◌, ltb, leb, if◌then◌else◌, length, map, ◌↔◌,
}
use lcloud.Base.Int.{ℤ, pos, negsuc}
use lcloud.Base.Bytes.{Bytes}
use lcloud.Cache
use lcloud.RateLimiter.{RateLimiter}
use lcloud.Storage.Rows.{UserRow, CloudRow, File, live_bytes}
use lcloud.Storage.Session.{Answer, World, Env, CurrentUser, Body}
use lcloud.Storage.Compression.{Codecs, Pillow, caught, not_run}
use lcloud.Storage.Captions.{Ed25519}
use lcloud.Storage.Upload.{Libs, Form}
use lcloud.Storage.Requests.{Request, upload, share, follow, serve_all}
use lcloud.Storage.Rows.{FileShare}
use lcloud.Storage.Session.{Context, context}
use lcloud.Storage.Shares.Limits.{AreLimited}
use lcloud.Storage.Shares.Followed.{followed, serve_all-followed}
use lcloud.Storage.PublicKeys.{cached_context}
use lcloud.Storage.PublicFiles.{public_upload_file}
use lcloud.Storage.PublicFiles.Cached.{is_ok, public_upload_file-cached}
use lcloud.Storage.Tags.{Tag, FileTag, Tags, ok, set_file_tags, is_tagged, has_id}
use lcloud.Storage.Tags.Assigned.{set_file_tags-is_tagged}
use lcloud.Storage.Versions.{list_versions}
use lcloud.Storage.Versions.Whole.{AreVersions, earlier, here, has}
use lcloud.Storage.Versions.Runs.{list_versions-serve_all}
use lcloud.Storage.Captions.{canonical_payload, verify_lc2_payload}
use lcloud.Storage.Captions.Signed.{
  IsSigned, canonical_payload-injective, verify_lc2_payload-IsSigned,
}
use lcloud.Cache.Keys.{k_json_storage_key}
use lcloud.Base.Bytes.{big_endian}
use lcloud.Storage.Rules.{core}
use lcloud.Storage.Quota.Bounds.{WithinQuota}
use lcloud.Storage.Quota.Runs.{serve_all-WithinQuota}

abbrev repeat : ℕ → Bytes
repeat zero = []
repeat (suc n) = 7 ∷ repeat n

-- Libraries that encode nothing and take every signature.
abbrev libs : Libs
libs = record {
  codecs = record {
    lower = λ s. s;
    has_alpha = λ b. caught;
    save = λ format b. caught;
    ffmpeg_available = false;
    run_ffmpeg = λ b. not_run;
  };
  ed25519 = record { verify = λ k p s. true; sign = λ p. repeat 64; verify_key = repeat 32 };
  sha256 = λ b. repeat 32;
}

abbrev rate : RateLimiter
rate = record { capacity = 20; refill = 60; buckets = [] }

abbrev alice : CurrentUser
alice = record { id = 1; is_admin = false; pubkey = repeat 32 }

abbrev user_row : UserRow
user_row = record {
  id = 1;
  role = "user";
  pubkey = repeat 32;
  suspended_at = none;
  storage_used_bytes = pos 0;
  storage_quota_bytes = 10;
}

abbrev cloud_row : CloudRow
cloud_row = record {
  id = 1;
  chat_id = negsuc 99;
  owner_id = 1;
  owner_user_id = some 1;
  name = "photos";
  about = none;
  created_at = 0;
}

abbrev world : World
world = record {
  users = user_row ∷ [];
  clouds = cloud_row ∷ [];
  files = [];
  shares = [];
  keys = [];
  databases = [];
  cache = Cache.create 60 100 100000 true;
  read_rate = rate;
  write_rate = rate;
  messages = [];
  marked = negsuc 99 ∷ [];
}

abbrev at : ℕ → Env
at n = record {
  now = n;
  unix = n;
  tick = n;
  client_ip = "10.0.0.1";
  new_name = λ i. "file";
  new_key = λ taken. "lstore_key";
  new_token = "token";
  estimate_size = λ b. 10;
  public_key_ttl = 60;
  second = 1;
  max_file_bytes = 8;
  is_started = true;
  is_admin_authorized = true;
  sent_message = some n;
  is_edited = true;
  is_deleted = true;
  new_chat = none;
  is_cleared = true;
  admin_owner = some 1;
}

abbrev form : Bytes → Form
form bytes = record {
  filename = some "a.bin";
  content_type = none;
  chunks = bytes ∷ [];
  client_sha256 = none;
  signature = none;
  ts = none;
  compress = true;
}

-- The second file has the first one's name; the third has no room.
abbrev requests : List (Env × Request)
requests =
    (at 1, upload alice 1 (form (repeat 3)))
    ∷ (at 2, upload alice 1 (form (repeat 4)))
    ∷ (at 3, upload alice 1 (form (repeat 5)))
    ∷ []

totals : World → List (ℤ × ℕ)
totals w = (elim w.users [ [] ↦ pos 0 | u ∷ _ ↦ u.storage_used_bytes ], live_bytes 1 w.files) ∷ []

start : WithinQuota (core world)
unfolding live_bytes
start id u e = ground arith

serve_all-WithinQuota_example : WithinQuota (core (serve_all libs requests world))
serve_all-WithinQuota_example = serve_all-WithinQuota libs requests world start

-- What a file that is replaced took is in the total still.
leak_test : totals (serve_all libs requests world) ≡ (pos 7, 4) ∷ []
unfolding totals serve_all lcloud.Storage.Requests.serve live_bytes
    lcloud.Storage.Upload.upload_file lcloud.Storage.Session.◌>>=◌
    lcloud.Storage.Session.ensure_userbot_authorized lcloud.Storage.Session.guard
    lcloud.Storage.Session.get_cloud_for_user lcloud.Storage.Upload.stream_to_temp
    lcloud.Storage.Upload.read_chunks lcloud.Storage.Upload.check_fields
    lcloud.Storage.Quota.assert_can_store lcloud.Storage.Quota.get_used_and_quota
    lcloud.Base.Int.◌+ℤ◌ lcloud.Storage.Compression.compression_pass
    lcloud.Storage.Compression.is_compressible_mime
    lcloud.Storage.Compression.is_compressible_video_mime lcloud.Storage.Upload.send
    lcloud.Storage.Upload.upload_file_to_cloud lcloud.Storage.Upload.send_file
    lcloud.Storage.Session.modify lcloud.Storage.Captions.file_signature_payload
    lcloud.Base.Bytes.pack_i64 lcloud.Storage.Captions.build_lc1_caption
    lcloud.Storage.Upload.edit_message lcloud.Storage.Upload.find_previous
    lcloud.Storage.Upload.insert_file lcloud.Storage.Upload.account_upload
    lcloud.Storage.Quota.increment_used lcloud.Storage.Upload.file_row
    lcloud.Storage.Quota.add_and_read lcloud.Storage.Rows.add_used
    lcloud.Storage.Session.modify_cache lcloud.Storage.Rows.mark_deleted
leak_test = refl

-- A link that may be followed once more, and is asked for twice.
abbrev link : FileShare
link = record {
  id = 1;
  file_id = 1;
  owner_user_id = 1;
  token = "token";
  created_at = 1;
  expires_at = none;
  max_downloads = some 2;
  download_count = 1;
  revoked_at = none;
}

abbrev link_world : World
link_world = record world { shares = link ∷ [] }

abbrev link_requests : List (Env × Request)
link_requests =
    (at 1, upload alice 1 (form (repeat 3))) ∷ (at 3, follow "token") ∷ (at 4, follow "token") ∷ []

serve_all-followed_example :
    (followed "token" libs link_requests link_world + 1 ≤ 2)
    × AreLimited (serve_all libs link_requests link_world).shares
serve_all-followed_example =
    serve_all-followed libs link_requests link_world "token" link 2
      ((omega arith, tt), (omega arith, tt)) refl refl

abbrev scope : Context
scope = record {
  key = record {
    id = 1;
    database_id = none;
    owner_user_id = 1;
    cloud_id = 1;
    allow_upload = true;
    allow_list = true;
    allow_download = true;
    allow_delete = false;
    max_file_bytes = none;
  };
  cloud = record { id = 1; chat_id = negsuc 99; owner_id = some 1; owner_user_id = some 1 };
  user = record { id = 1; suspended_at = none };
}

cached_world : World
cached_world = record world {
  cache =
      Cache.set (k_json_storage_key "lstore_k") (context (cached_context scope)) 10 (some 60)
        (some "json_storage_key") 1 world.cache;
}

cached_scope :
    (Cache.get (k_json_storage_key "lstore_k") 2 cached_world.cache).0
    ≡ some (context (cached_context scope))
unfolding cached_world Cache.get Cache.set Cache.evict_locked Cache.evict_rounds Cache.put_entry
    Cache.pop_found lcloud.Base.Assoc.lookup lcloud.Cache.Entries.first_key lcloud.Base.Text.len
    k_json_storage_key Cache.get_enabled
cached_scope = refl

public_upload_file-cached_example :
    let (r, w) = public_upload_file libs (at 2) "lstore_k" (form (repeat 3)) cached_world in
    (is_ok r ≡ false) × (core w ≡ core cached_world)
public_upload_file-cached_example =
    public_upload_file-cached libs (at 2) "lstore_k" (form (repeat 3)) scope cached_world
      cached_scope

-- A file that is uploaded twice.
abbrev uploads : List (Env × Request)
uploads = (at 1, upload alice 1 (form (repeat 3))) ∷ (at 2, upload alice 1 (form (repeat 4))) ∷ []

abbrev version : ℕ → Option ℕ → ℕ → Option ℕ → File
version id replaces size ended = record {
  id = id;
  cloud_id = 1;
  message_id = id;
  owner_id = 1;
  owner_user_id = some 1;
  replaces_file_id = replaces;
  original_name = "a.bin";
  mime = "application/octet-stream";
  size_bytes = size;
  sha256 = repeat 32;
  signature = repeat 64;
  compressed = false;
  original_size_bytes = none;
  uploaded_at = id;
  deleted_at = ended;
}

abbrev first_version : File
first_version = version 1 none 3 (some 2)

abbrev second_version : File
second_version = version 2 (some 1) 4 none

uploaded_files : (serve_all libs uploads world).files ≡ first_version ∷ second_version ∷ []
unfolding serve_all lcloud.Storage.Requests.serve lcloud.Storage.Upload.upload_file
    lcloud.Storage.Session.◌>>=◌ lcloud.Storage.Session.ensure_userbot_authorized
    lcloud.Storage.Session.guard lcloud.Storage.Session.get_cloud_for_user
    lcloud.Storage.Upload.stream_to_temp lcloud.Storage.Upload.read_chunks
    lcloud.Storage.Upload.check_fields lcloud.Storage.Quota.assert_can_store
    lcloud.Storage.Quota.get_used_and_quota lcloud.Base.Int.◌+ℤ◌
    lcloud.Storage.Compression.compression_pass lcloud.Storage.Compression.is_compressible_mime
    lcloud.Storage.Compression.is_compressible_video_mime lcloud.Storage.Upload.send
    lcloud.Storage.Upload.upload_file_to_cloud lcloud.Storage.Upload.send_file
    lcloud.Storage.Session.modify lcloud.Storage.Captions.file_signature_payload
    lcloud.Base.Bytes.pack_i64 lcloud.Storage.Captions.build_lc1_caption
    lcloud.Storage.Upload.edit_message lcloud.Storage.Upload.find_previous
    lcloud.Storage.Upload.insert_file lcloud.Storage.Upload.account_upload
    lcloud.Storage.Quota.increment_used lcloud.Storage.Upload.file_row
    lcloud.Storage.Quota.add_and_read lcloud.Storage.Rows.add_used
    lcloud.Storage.Session.modify_cache lcloud.Storage.Rows.mark_deleted
uploaded_files = refl

list_versions-serve_all_example :
    let w = serve_all libs uploads world in
    (rows : List File) × ((list_versions alice 2 w ≡ (Answer.ok rows, w))
      × (AreVersions w.files second_version rows × (has first_version rows ≡ true)))
list_versions-serve_all_example =
    list_versions-serve_all libs uploads world alice 2 second_version first_version tt
      (ap (find_if (λ (f : File). f.id == 2)) uploaded_files) refl
      (earlier first_version
        (here 1 first_version (ap (find_if (λ (f : File). f.id == 1)) uploaded_files)))

signed_bytes : Bytes
signed_bytes = repeat 32 ++ big_endian 8 300 ++ repeat 32

is_payload : canonical_payload (repeat 32) 300 (repeat 32) ≡ some signed_bytes
unfolding signed_bytes canonical_payload lcloud.Base.Bytes.pack_u64
is_payload = refl

canonical_payload-injective_example :
    (repeat 32 ≡ repeat 32) × (◌≡◌ {A = ℕ} 300 300) × (repeat 32 ≡ repeat 32)
canonical_payload-injective_example =
    canonical_payload-injective (repeat 32) (repeat 32) (repeat 32) (repeat 32) 300 300 signed_bytes
      is_payload is_payload

verify_lc2_payload-IsSigned_example :
    (verify_lc2_payload libs.ed25519 500 (repeat 32) (repeat 32) (repeat 64) (pos 300) ≡ none)
    ↔ IsSigned libs.ed25519 500 (repeat 32) (repeat 32) (repeat 64) (pos 300)
verify_lc2_payload-IsSigned_example =
    verify_lc2_payload-IsSigned libs.ed25519 500 (repeat 32) (repeat 32) (repeat 64) (pos 300)
      (omega arith)

abbrev tag : ℕ → String → Tag
tag id name = record {
  id = id;
  owner_id = 1;
  name = name;
  color = "#fff";
  icon = "star";
  bg_color = "#000";
  created_at = 0;
}

-- The first file has the tag 1; the second the tags 1 and 2.
abbrev tagged : List FileTag → Tags
tagged rows = record {
  files = version 1 none 3 none ∷ second_version ∷ [];
  tags = tag 1 "a" ∷ tag 2 "b" ∷ tag 3 "c" ∷ [];
  file_tags = rows;
}

abbrev file_tag : ℕ → ℕ → FileTag
file_tag file_id tag_id = record { file_id = file_id; tag_id = tag_id }

abbrev old_tags : List FileTag
old_tags = file_tag 1 1 ∷ file_tag 2 1 ∷ file_tag 2 2 ∷ []

abbrev new_tags : List FileTag
new_tags = file_tag 2 1 ∷ file_tag 2 2 ∷ file_tag 1 2 ∷ file_tag 1 3 ∷ []

set_tags_test :
    set_file_tags 1 1 (3 ∷ 2 ∷ 3 ∷ []) (tagged old_tags) ≡ (ok (2 ∷ 3 ∷ []), tagged new_tags)
unfolding set_file_tags lcloud.Storage.Tags.missing_tags lcloud.Storage.Tags.sorted_set
    lcloud.Storage.Tags.retagged lcloud.Storage.Tags.without_others has_id
    lcloud.Storage.Tags.added_tags is_tagged
set_tags_test = refl

set_file_tags-is_tagged_example :
    is_tagged 1 3 new_tags ≡ (if 1 == 1 then has_id 3 (3 ∷ 2 ∷ 3 ∷ []) else is_tagged 1 3 old_tags)
set_file_tags-is_tagged_example =
    set_file_tags-is_tagged 1 1 (3 ∷ 2 ∷ 3 ∷ []) (2 ∷ 3 ∷ []) (tagged old_tags) (tagged new_tags) 1
      3 set_tags_test
