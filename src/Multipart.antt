-- ===== src/Multipart.antt =====
-- src/rclone_kit/s3: the pieces of a multipart upload, the state that a run saves and resumes, and
-- the server-side merge of uploaded parts.
pub mod Pieces
pub mod Chunker
pub mod MergeState
pub mod Merge
pub mod Resumable
pub mod InfoJson
pub mod UploadState
