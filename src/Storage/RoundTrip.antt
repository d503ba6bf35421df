-- ===== src/Storage/RoundTrip.antt =====
-- What the adapter promises over a bucket that keeps what is put into it.
use ai_developer_copilot_pla.Prelude.{◌≡◌, ◌≢◌, true, false, List, arith}
use ai_developer_copilot_pla.Text.{Text, codes, Lacks}
use ai_developer_copilot_pla.Exn.{ok, raised, client}
use ai_developer_copilot_pla.Storage.Keys.{storage_path}
use ai_developer_copilot_pla.Storage.Isolation.{storage_path-tenant}
use ai_developer_copilot_pla.Storage.Adapter.{
  S3Client, Bytes, upload_file, download_file, delete_object, object_exists,
}

-- S3's documented behaviour: reads after a write see the write, other objects are left alone, and
-- `HeadObject` of a deleted object fails with the code 404.
pub record IsConsistent {S : Type 0} (s3 : S3Client S) (bucket : Text) : Type 0 where
  pub get-put :
      (key content_type : Text) (body : Bytes) (s : S)
      → (s3.put_object bucket key body content_type s).0 ≡ ok tt
      → (s3.get_object bucket key (s3.put_object bucket key body content_type s).1).0 ≡ ok body
  pub head-put :
      (key content_type : Text) (body : Bytes) (s : S)
      → (s3.put_object bucket key body content_type s).0 ≡ ok tt
      → (s3.head_object bucket key (s3.put_object bucket key body content_type s).1).0 ≡ ok tt
  pub get-put_ne :
      (key j content_type : Text) (body : Bytes) (s : S)
      → key ≢ j
      → (s3.get_object bucket j (s3.put_object bucket key body content_type s).1).0
        ≡ (s3.get_object bucket j s).0
  pub head-delete :
      (key : Text) (s : S)
      → (s3.delete_object bucket key s).0 ≡ ok tt
      → (text : Text) × ((s3.head_object bucket key (s3.delete_object bucket key s).1).0
          ≡ raised (client (codes "404") text))

module _ {S : Type 0} (s3 : S3Client S) (bucket : Text) (c : IsConsistent s3 bucket) (s : S) where
  -- Over a consistent bucket, after an upload that succeeds the download of the key returns the
  -- uploaded bytes, and the object exists.
  download_file-upload_file :
      (key content_type : Text) (body : Bytes)
      → (upload_file s3 bucket key body content_type s).0 ≡ ok tt
      → let t = (upload_file s3 bucket key body content_type s).1 in
        ((download_file s3 bucket key t).0 ≡ ok body)
        × ((object_exists s3 bucket key t).0 ≡ ok true)
  unfolding upload_file download_file object_exists
  download_file-upload_file key content_type body h =
      ground (arith, c.get-put key content_type body s, c.head-put key content_type body s)

  -- Over a consistent bucket, after a deletion that succeeds the object does not exist.
  object_exists-delete_object :
      (key : Text)
      → (delete_object s3 bucket key s).0 ≡ ok tt
      → (object_exists s3 bucket key (delete_object s3 bucket key s).1).0 ≡ ok false
  unfolding delete_object object_exists
  object_exists-delete_object key h = ground (arith, c.head-delete key s)

  -- Over a consistent bucket, an upload under one tenant's path, successful or not, leaves what
  -- every other tenant downloads as it was, if neither tenant id holds a slash.
  download_file-upload_file_tenant :
      (t u r r' : Text) (ps qs : List Text) (content_type : Text) (body : Bytes)
      → Lacks b'/' t
      → Lacks b'/' u
      → t ≢ u
      → (download_file s3 bucket
          (storage_path u r' qs)
          (upload_file s3 bucket (storage_path t r ps) body content_type s).1).0
        ≡ (download_file s3 bucket (storage_path u r' qs) s).0
  unfolding upload_file download_file
  download_file-upload_file_tenant t u r r' ps qs content_type body ht hu ne = ground (
    arith,
    c.get-put_ne (storage_path t r ps) (storage_path u r' qs) content_type body s
        (λ e. ne (storage_path-tenant t u r r' ps qs ht hu e)),
  )
