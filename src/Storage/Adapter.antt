-- ===== src/Storage/Adapter.antt =====
-- `ObjectStorageAdapter` of backend/app/infrastructure/storage/object_storage_adapter.py.
-- The boto3 client is a parameter: five calls that change its state and may raise. A call through
-- `asyncio.to_thread` gives its caller what the call itself gives.
use ai_developer_copilot_pla.Prelude.{ℕ, Bool, true, false, ◌||◌, List, ◌++◌, if◌then◌else◌}
use ai_developer_copilot_pla.Text.{Text, codes, eq_text}
use ai_developer_copilot_pla.Exn.{Exn, object_storage, boto_core, client, is_exception}
use ai_developer_copilot_pla.Exec.{Exec, pure, raise, ◌>>◌, try_except}

abbrev pub Bytes : Type 0
Bytes = List ℕ

-- The calls of the boto3 client, each with the bucket first.
pub record S3Client (S : Type 0) : Type 0 where
  pub put_object : Text → Text → Bytes → Text → Exec S (Unit {0})
  pub get_object : Text → Text → Exec S Bytes
  pub delete_object : Text → Text → Exec S (Unit {0})
  pub head_object : Text → Text → Exec S (Unit {0})
  pub head_bucket : Text → Exec S (Unit {0})

-- What `except (BotoCoreError, ClientError) as exc` raises in its place; any other exception
-- passes.
abbrev pub storage_failure : Text → Text → Text → Exn → Exn
storage_failure label operation key (boto_core text) =
    object_storage (record { message = label ++ text; operation = operation; key = key })
storage_failure label operation key (client code text) =
    object_storage (record { message = label ++ text; operation = operation; key = key })
storage_failure label operation key e = e

abbrev pub default_content_type : Text
default_content_type = codes "application/octet-stream"

module _ {S : Type 0} (s3 : S3Client S) (bucket : Text) where
  unfoldable pub upload_file : Text → Bytes → Text → Exec S (Unit {0})
  upload_file key body content_type =
      try_except (s3.put_object bucket key body content_type)
        (λ exc. raise (storage_failure (codes "Upload failed: ") (codes "upload") key exc))

  unfoldable pub download_file : Text → Exec S Bytes
  download_file key =
      try_except (s3.get_object bucket key)
        (λ exc. raise (storage_failure (codes "Download failed: ") (codes "download") key exc))

  unfoldable pub delete_object : Text → Exec S (Unit {0})
  delete_object key =
      try_except (s3.delete_object bucket key)
        (λ exc. raise (storage_failure (codes "Delete failed: ") (codes "delete") key exc))

  -- The handler of `_head`: a missing object is an answer.
  abbrev pub missing_is_false : Exn → Exec S Bool
  missing_is_false (client code text) =
      if eq_text code (codes "404") || eq_text code (codes "NoSuchKey")
      then pure false
      else raise (client code text)
  missing_is_false e = raise e

  abbrev pub head : Text → Exec S Bool
  head key = try_except (do s3.head_object bucket key; pure true) missing_is_false

  unfoldable pub object_exists : Text → Exec S Bool
  object_exists key =
      try_except (head key)
        (λ exc. raise (storage_failure (codes "Existence check failed: ") (codes "head") key exc))

  -- `except Exception: return False`.
  abbrev pub exception_is_false : Exn → Exec S Bool
  exception_is_false e = if is_exception e then pure false else raise e

  unfoldable pub ping : Exec S Bool
  ping = try_except (do s3.head_bucket bucket; pure true) exception_is_false
