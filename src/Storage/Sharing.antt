-- ===== src/Storage/Sharing.antt =====
-- Tenants that share one bucket.
use ai_developer_copilot_pla.Prelude.{
  ◌≡◌, ◌≢◌, refl, ◌∙◌, sym, ap, Option, none, some, true, List, [], ◌∷◌, All,
}
use ai_developer_copilot_pla.Text.{Text, Lacks, eq_text_ne}
use ai_developer_copilot_pla.Exn.{ok}
use ai_developer_copilot_pla.Storage.Keys.{storage_path}
use ai_developer_copilot_pla.Storage.Isolation.{storage_path-tenant}
use ai_developer_copilot_pla.Storage.Adapter.{
  S3Client, Bytes, upload_file, download_file, object_exists,
}
use ai_developer_copilot_pla.Storage.Store.{
  Store, write, Call, key_of, Answer, Serves, uploads, upload_fails, downloads, nothing_to_download,
  deletes, delete_fails, tells,
}
use ai_developer_copilot_pla.Storage.Calls.{
  IsStore, perform, perform_all, perform-Serves, present_is_read, upload-present,
}

write_elsewhere : (key j : Text) (x : Option Bytes) (v : Store) → key ≢ j → write key x v j ≡ v j
write_elsewhere key j x v ne = rw (eq_text_ne key j ne)

-- A call has no effect on other keys than its own.
Serves-elsewhere :
    (v w : Store) (c : Call) (a : Answer) (j : Text) → Serves v w c a → key_of c ≢ j → w j ≡ v j
Serves-elsewhere v w c a j (uploads key type bytes e) ne =
    ap (λ (x : Store). x j) e ∙ write_elsewhere key j (some bytes) v ne
Serves-elsewhere v w c a j (upload_fails key type bytes x e) ne = e j ne
Serves-elsewhere v w c a j (downloads key bytes h e) ne = ap (λ (x : Store). x j) e
Serves-elsewhere v w c a j (nothing_to_download key x h e) ne = ap (λ (y : Store). y j) e
Serves-elsewhere v w c a j (deletes key e) ne =
    ap (λ (x : Store). x j) e ∙ write_elsewhere key j none v ne
Serves-elsewhere v w c a j (delete_fails key x e) ne = e j ne
Serves-elsewhere v w c a j (tells key b h e) ne = ap (λ (x : Store). x j) e

-- A call for an object of a tenant other than `t`.
pub record IsForeign (t : Text) (c : Call) : Type 0 where
  pub tenant : Text
  pub repository : Text
  pub parts : List Text
  pub path : key_of c ≡ storage_path tenant repository parts
  pub no_slash : Lacks b'/' tenant
  pub other : t ≢ tenant

foreign_key :
    (t r : Text) (ps : List Text) (c : Call)
    → Lacks b'/' t
    → IsForeign t c
    → key_of c ≢ storage_path t r ps
foreign_key t r ps c ht f e =
    f.other
      (storage_path-tenant t f.tenant r f.repository ps f.parts ht f.no_slash (sym e ∙ f.path))

module _ {S : Type 0} (s3 : S3Client S) (bucket : Text) (view : S → Store)
    (h : IsStore s3 bucket view) (t r : Text) (ps : List Text) (ht : Lacks b'/' t) where
  foreign_calls :
      (calls : List Call) (s : S)
      → All (IsForeign t) calls
      → view (perform_all s3 bucket calls s).1 (storage_path t r ps) ≡ view s (storage_path t r ps)
  unfolding perform_all
  foreign_calls [] s f = refl
  foreign_calls (c ∷ calls) s (f, rest) =
      let (a, u) = perform s3 bucket c s in
      foreign_calls calls u rest
      ∙ Serves-elsewhere (view s) (view u) c a (storage_path t r ps)
          (perform-Serves s3 bucket view h c s) (foreign_key t r ps c ht f)

  -- Over a bucket that is a store whose reads are delivered, and if no tenant id holds a slash: after
  -- an upload under a tenant's path that returns, and any calls of other tenants behind it, uploads
  -- and deletions too, returning or raising, the tenant downloads what it uploaded, and the object
  -- exists.
  pub uploaded_stays :
      (content_type : Text) (bytes : Bytes) (s : S)
      → (upload_file s3 bucket (storage_path t r ps) bytes content_type s).0 ≡ ok tt
      → (calls : List Call) → All (IsForeign t) calls
      → let after = (upload_file s3 bucket (storage_path t r ps) bytes content_type s).1 in
        let behind = (perform_all s3 bucket calls after).1 in
        ((download_file s3 bucket (storage_path t r ps) behind).0 ≡ ok bytes)
        × ((object_exists s3 bucket (storage_path t r ps) behind).0 ≡ ok true)
  uploaded_stays content_type bytes s worked calls f =
      let after = (upload_file s3 bucket (storage_path t r ps) bytes content_type s).1 in
      present_is_read s3 bucket view h (storage_path t r ps) bytes
        (perform_all s3 bucket calls after).1
        (foreign_calls calls after f
          ∙ upload-present s3 bucket view h (storage_path t r ps) content_type bytes s worked)
