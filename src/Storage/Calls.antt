-- ===== src/Storage/Calls.antt =====
-- The methods of the adapter over a bucket, and that they are a store.
use ai_developer_copilot_pla.Prelude.{
  ◌≡◌, ◌≢◌, ◌∙◌, ap, none, some, Option-cases, true, false, List, [], ◌∷◌, inl, inr,
}
use ai_developer_copilot_pla.Text.{Text, codes, eq_text_refl}
use ai_developer_copilot_pla.Exn.{Result, ok, raised, client, Result-cases}
use ai_developer_copilot_pla.Storage.Adapter.{
  S3Client, Bytes, upload_file, download_file, delete_object, object_exists,
}
use ai_developer_copilot_pla.Storage.Store.{
  Store, write, Call, upload, download, delete, exists, Answer, done, body, found, failed, Serves,
  uploads, upload_fails, downloads, nothing_to_download, deletes, delete_fails, tells, History,
  none_left, one_more,
}

-- S3 behind a network that delivers every read: an object is what was put last, a read changes
-- nothing, `HeadObject` of a missing object fails with the code 404, `GetObject` with some
-- `ClientError`, and a write that fails touches no object but its own.
pub record IsStore {S : Type 0} (s3 : S3Client S) (bucket : Text) (view : S → Store) : Type 0 where
  pub put :
      (key content_type : Text) (bytes : Bytes) (s : S)
      → (s3.put_object bucket key bytes content_type s).0 ≡ ok tt
      → view (s3.put_object bucket key bytes content_type s).1 ≡ write key (some bytes) (view s)
  pub put_other :
      (key content_type j : Text) (bytes : Bytes) (s : S)
      → key ≢ j
      → view (s3.put_object bucket key bytes content_type s).1 j ≡ view s j
  pub get_present :
      (key : Text) (bytes : Bytes) (s : S)
      → view s key ≡ some bytes
      → (s3.get_object bucket key s).0 ≡ ok bytes
  pub get_missing :
      (key : Text) (s : S)
      → view s key ≡ none
      → (code text : Text) × ((s3.get_object bucket key s).0 ≡ raised (client code text))
  pub get_keeps : (key : Text) (s : S) → view (s3.get_object bucket key s).1 ≡ view s
  pub remove :
      (key : Text) (s : S)
      → (s3.delete_object bucket key s).0 ≡ ok tt
      → view (s3.delete_object bucket key s).1 ≡ write key none (view s)
  pub remove_other :
      (key j : Text) (s : S) → key ≢ j → view (s3.delete_object bucket key s).1 j ≡ view s j
  pub head_present :
      (key : Text) (bytes : Bytes) (s : S)
      → view s key ≡ some bytes
      → (s3.head_object bucket key s).0 ≡ ok tt
  pub head_missing :
      (key : Text) (s : S)
      → view s key ≡ none
      → (text : Text) × ((s3.head_object bucket key s).0 ≡ raised (client (codes "404") text))
  pub head_keeps : (key : Text) (s : S) → view (s3.head_object bucket key s).1 ≡ view s

abbrev pub answer : {A : Type 0} → (A → Answer) → Result A → Answer
answer f (ok a) = f a
answer f (raised e) = failed e

module _ {S : Type 0} (s3 : S3Client S) (bucket : Text) where
  -- The method that a call names.
  abbrev pub perform : Call → S → Answer × S
  perform (upload key bytes content_type) s =
      let (r, t) = upload_file s3 bucket key bytes content_type s in (answer (λ x. done) r, t)
  perform (download key) s = let (r, t) = download_file s3 bucket key s in (answer body r, t)
  perform (delete key) s = let (r, t) = delete_object s3 bucket key s in (answer (λ x. done) r, t)
  perform (exists key) s = let (r, t) = object_exists s3 bucket key s in (answer found r, t)

  unfoldable pub perform_all : List Call → S → List (Call × Answer) × S
  perform_all [] s = ([], s)
  perform_all (c ∷ calls) s =
      let (a, t) = perform c s in let (rest, u) = perform_all calls t in ((c, a) ∷ rest, u)

  module _ (view : S → Store) (h : IsStore s3 bucket view) where
    pub perform-Serves :
        (c : Call) (s : S) → Serves (view s) (view (perform c s).1) c (perform c s).0
    unfolding upload_file download_file delete_object object_exists
    perform-Serves (upload key bytes type) s =
        elim (Result-cases (s3.put_object bucket key bytes type s).0) [
          | inl (tt, k) ↦ rw k (uploads key type bytes (h.put key type bytes s k))
          | inr (e, k) ↦ rw k (upload_fails key type bytes _ (λ j. h.put_other key type j bytes s))
        ]
    perform-Serves (download key) s = elim (Option-cases (view s key)) [
      | inl missing ↦
          let (code, text, e) = h.get_missing key s missing in
          rw e (nothing_to_download key _ missing (h.get_keeps key s))
      | inr (bytes, there) ↦
          rw (h.get_present key bytes s there) (downloads key bytes there (h.get_keeps key s))
    ]
    perform-Serves (delete key) s = elim (Result-cases (s3.delete_object bucket key s).0) [
      | inl (tt, k) ↦ rw k (deletes key (h.remove key s k))
      | inr (e, k) ↦ rw k (delete_fails key _ (λ j. h.remove_other key j s))
    ]
    perform-Serves (exists key) s = elim (Option-cases (view s key)) [
      | inl missing ↦
          let (text, e) = h.head_missing key s missing in
          rw e (tells key false (rw missing) (h.head_keeps key s))
      | inr (bytes, there) ↦
          rw (h.head_present key bytes s there) (tells key true (rw there) (h.head_keeps key s))
    ]

    -- Over a bucket that is a store whose reads are delivered: whatever calls are made, in any order,
    -- and whichever writes raise, the answers are those of a store of objects that is written and
    -- read one call after the other.
    pub perform_all-History :
        (calls : List Call) (s : S)
        → History (view s) (perform_all calls s).0 (view (perform_all calls s).1)
    unfolding perform_all
    perform_all-History [] s = none_left (view s)
    perform_all-History (c ∷ calls) s =
        one_more (perform-Serves c s) (perform_all-History calls (perform c s).1)

    -- What the store holds under a key is what is read there.
    pub present_is_read :
        (key : Text) (bytes : Bytes) (s : S)
        → view s key ≡ some bytes
        → ((download_file s3 bucket key s).0 ≡ ok bytes)
          × ((object_exists s3 bucket key s).0 ≡ ok true)
    unfolding download_file object_exists
    present_is_read key bytes s there =
        (rw (h.get_present key bytes s there), rw (h.head_present key bytes s there))

    pub upload-present :
        (key content_type : Text) (bytes : Bytes) (s : S)
        → (upload_file s3 bucket key bytes content_type s).0 ≡ ok tt
        → view (upload_file s3 bucket key bytes content_type s).1 key ≡ some bytes
    unfolding upload_file
    upload-present key type bytes s worked =
        elim (Result-cases (s3.put_object bucket key bytes type s).0) [
          | inl (tt, k) ↦
              rw k (ap (λ (v : Store). v key) (h.put key type bytes s k) ∙ rw (eq_text_refl key))
          | inr (e, k) ↦ cc
        ]
