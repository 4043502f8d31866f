-- ===== src/Storage.antt =====
-- The storage of files: lcloud/api/v2_files.py, storage_public.py, shares.py, versions.py, v2_clouds.py and tags.py,
-- with lcloud/auth/storage_quota.py.
pub mod Rows
pub mod Session
pub mod Quota
pub mod Compression
pub mod Captions
pub mod Upload
pub mod Files
pub mod PublicKeys
pub mod PublicFiles
pub mod Shares
pub mod Clouds
pub mod Tags
pub mod SignIn
pub mod Versions
pub mod Requests
pub mod Rules
