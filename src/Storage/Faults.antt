-- ===== src/Storage/Faults.antt =====
-- What the methods of the storage adapter raise.
use ai_developer_copilot_pla.Prelude.{◌≡◌, Bool, true, false, ◌||◌, ◌↔◌, arith}
use ai_developer_copilot_pla.Text.{Text, codes, eq_text}
use ai_developer_copilot_pla.Exn.{Exn, Result, ok, raised, boto_core, client, is_exception}
use ai_developer_copilot_pla.Storage.Adapter.{
  S3Client, Bytes, storage_failure, upload_file, download_file, delete_object, object_exists, ping,
}

-- An exception of botocore.
abbrev pub is_boto : Exn → Bool
is_boto (boto_core text) = true
is_boto (client code text) = true
is_boto e = false

-- botocore's two codes for an object that is not there.
abbrev pub is_missing : Exn → Bool
is_missing (client code text) = eq_text code (codes "404") || eq_text code (codes "NoSuchKey")
is_missing e = false

-- The result of a method is no exception of botocore.
abbrev pub NoBoto {ℓ} : {A : Type ℓ} → Result A → Type 0
NoBoto (ok a) = Unit
NoBoto (raised e) = is_boto e ≡ false

storage_failure-NoBoto :
    (label operation key : Text) (e : Exn) → is_boto (storage_failure label operation key e) ≡ false
storage_failure-NoBoto label operation key e = ground arith

module _ {S : Type 0} (s3 : S3Client S) (bucket key : Text) (s : S) where
  upload_file-NoBoto :
      (body : Bytes) (content_type : Text)
      → NoBoto (upload_file s3 bucket key body content_type s).0
  unfolding upload_file
  upload_file-NoBoto body content_type = ground arith

  download_file-NoBoto : NoBoto (download_file s3 bucket key s).0
  unfolding download_file
  download_file-NoBoto = ground arith

  delete_object-NoBoto : NoBoto (delete_object s3 bucket key s).0
  unfolding delete_object
  delete_object-NoBoto = ground arith

  object_exists-NoBoto : NoBoto (object_exists s3 bucket key s).0
  unfolding object_exists
  object_exists-NoBoto = ground arith

  ping-NoBoto : NoBoto (ping s3 bucket s).0
  unfolding ping
  ping-NoBoto = ground arith

  -- No method of the adapter lets an exception of botocore out, whatever the client raises.
  methods-NoBoto :
      (body : Bytes) (content_type : Text)
      → NoBoto (upload_file s3 bucket key body content_type s).0
        × NoBoto (download_file s3 bucket key s).0
        × NoBoto (delete_object s3 bucket key s).0
        × NoBoto (object_exists s3 bucket key s).0
        × NoBoto (ping s3 bucket s).0
  methods-NoBoto body content_type = (
    upload_file-NoBoto body content_type,
    download_file-NoBoto,
    delete_object-NoBoto,
    object_exists-NoBoto,
    ping-NoBoto,
  )

  -- `object_exists` answers `True` exactly where `HeadObject` succeeds, and `False` exactly where
  -- it raises a `ClientError` with the code `404` or `NoSuchKey`.
  object_exists_iff :
      (((object_exists s3 bucket key s).0 ≡ ok true) ↔ ((s3.head_object bucket key s).0 ≡ ok tt))
      × (((object_exists s3 bucket key s).0 ≡ ok false)
          ↔ ((e : Exn) × ((s3.head_object bucket key s).0 ≡ raised e) × (is_missing e ≡ true)))
  unfolding object_exists
  object_exists_iff = (ground arith, ground arith)

  -- `ping` answers `True` exactly where `HeadBucket` succeeds, `False` exactly where that raises a
  -- subclass of `Exception`, and raises exactly what is no such subclass.
  pub ping_iff :
      (((ping s3 bucket s).0 ≡ ok true) ↔ ((s3.head_bucket bucket s).0 ≡ ok tt))
      × (((ping s3 bucket s).0 ≡ ok false)
          ↔ ((e : Exn) × ((s3.head_bucket bucket s).0 ≡ raised e) × (is_exception e ≡ true)))
      × ((e : Exn)
          → ((ping s3 bucket s).0 ≡ raised e)
            ↔ (((s3.head_bucket bucket s).0 ≡ raised e) × (is_exception e ≡ false)))
  unfolding ping
  ping_iff = (ground arith, ground arith, λ e. ground arith)
