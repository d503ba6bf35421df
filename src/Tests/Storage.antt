-- ===== src/Tests/Storage.antt =====
-- The storage adapter over a bucket in memory.
use mathlib.Core.Path.{fun_ext}
use ai_developer_copilot_pla.Prelude.{
  ◌≡◌, ◌≢◌, refl, arith, List, [], ◌∷◌, true, false, Option, none, some, if◌then◌else◌, inl, inr,
  Bool-cases,
}
use ai_developer_copilot_pla.Text.{Text, codes, eq_text, eq_text_refl, eq_text_sound, eq_text_ne}
use ai_developer_copilot_pla.Exn.{Result, ok, raised, client, timed_out}
use ai_developer_copilot_pla.Storage.Keys.{storage_path}
use ai_developer_copilot_pla.Storage.Adapter.{
  S3Client, Bytes, upload_file, download_file, delete_object, object_exists, default_content_type,
}
use ai_developer_copilot_pla.Storage.Store.{
  Store, write, Call, upload, download, delete, exists, key_of, done, found, History,
}
use ai_developer_copilot_pla.Storage.Calls.{IsStore, perform_all, perform_all-History}
use ai_developer_copilot_pla.Storage.Sharing.{IsForeign, uploaded_stays}
use ai_developer_copilot_pla.Storage.RoundTrip.{IsConsistent}

abbrev Objects : Type 0
Objects = List (Text × Bytes)

abbrev lookup : Text → Objects → Option Bytes
lookup key [] = none
lookup key ((j, body) ∷ objects) = if eq_text j key then some body else lookup key objects

abbrev without : Text → Objects → Objects
without key [] = []
without key ((j, body) ∷ objects) =
    let rest = without key objects in if eq_text j key then rest else (j, body) ∷ rest

abbrev body_or_raise : Option Bytes → Result Bytes
body_or_raise none = raised (client (codes "NoSuchKey") [])
body_or_raise (some body) = ok body

abbrev head_or_raise : Option Bytes → Result (Unit {0})
head_or_raise none = raised (client (codes "404") [])
head_or_raise (some body) = ok tt

-- One bucket, whatever its name.
abbrev memory : S3Client Objects
memory = record {
  put_object = λ bucket key body content_type objects. (ok tt, (key, body) ∷ objects);
  get_object = λ bucket key objects. (body_or_raise (lookup key objects), objects);
  delete_object = λ bucket key objects. (ok tt, without key objects);
  head_object = λ bucket key objects. (head_or_raise (lookup key objects), objects);
  head_bucket = λ bucket objects. (ok tt, objects);
}

lookup-without : (key : Text) (objects : Objects) → lookup key (without key objects) ≡ none
lookup-without key [] = refl
lookup-without key ((j, body) ∷ objects) = ground (arith, lookup-without key objects)

memory-IsConsistent : IsConsistent memory (codes "bucket")
memory-IsConsistent = record {
  get-put = λ key content_type body s h. rw (eq_text_refl key);
  head-put = λ key content_type body s h. rw (eq_text_refl key);
  get-put_ne = λ key j content_type body s ne. rw (eq_text_ne key j ne);
  head-delete = λ key s h. ([], rw (lookup-without key s));
}

abbrev path : Text
path = storage_path (codes "acme") (codes "r") (codes "a" ∷ [])

abbrev other_path : Text
other_path = storage_path (codes "bcme") (codes "r") (codes "a" ∷ [])

abbrev objects : Objects
objects = (other_path, 7 ∷ []) ∷ []

abbrev uploaded : Objects
uploaded = (upload_file memory (codes "bucket") path (1 ∷ 2 ∷ []) default_content_type objects).1

-- The same bucket behind a network that does not answer.
abbrev unreachable : S3Client Objects
unreachable = record memory {
  get_object = λ bucket key objects. (raised (client (codes "500") []), objects);
  head_object = λ bucket key objects. (raised (client (codes "NoSuchKey") []), objects);
  head_bucket = λ bucket objects. (raised timed_out, objects);
}

lookup-without_ne :
    (key j : Text) (objects : Objects) → key ≢ j → lookup j (without key objects) ≡ lookup j objects
lookup-without_ne key j [] ne = refl
lookup-without_ne key j ((k, body) ∷ objects) ne = elim (Bool-cases (eq_text k key)) [
  | inl same ↦
      rw (same, eq_text_sound k key same, eq_text_ne key j ne) (lookup-without_ne key j objects ne)
  | inr other ↦ rw (other, lookup-without_ne key j objects ne)
]

lookup-without-write :
    (key : Text) (objects : Objects) (j : Text)
    → lookup j (without key objects) ≡ write key none (λ i. lookup i objects) j
lookup-without-write key objects j = elim (Bool-cases (eq_text key j)) [
  | inl same ↦ rw (same, ← eq_text_sound key j same) (lookup-without key objects)
  | inr other ↦ rw other (lookup-without_ne key j objects (λ e. cc (rw e at other, eq_text_refl j)))
]

abbrev contents : Objects → Store
contents objects key = lookup key objects

memory-IsStore : IsStore memory (codes "bucket") contents
memory-IsStore = record {
  put = λ key content_type bytes s h. refl;
  put_other = λ key content_type j bytes s ne. rw (eq_text_ne key j ne);
  get_present = λ key bytes s h. rw h;
  get_missing = λ key s h. (codes "NoSuchKey", [], rw h);
  get_keeps = λ key s. refl;
  remove = λ key s h. fun_ext (lookup-without-write key s);
  remove_other = λ key j s ne. lookup-without_ne key j s ne;
  head_present = λ key bytes s h. rw h;
  head_missing = λ key s h. ([], rw h);
  head_keeps = λ key s. refl;
}

-- What another tenant does.
abbrev others : List Call
others =
    upload other_path (9 ∷ []) default_content_type ∷ delete other_path ∷ exists other_path ∷ []

abbrev history : List Call
history = upload path (1 ∷ []) default_content_type ∷ download path ∷ delete path ∷ others

perform_all_test :
    (perform_all memory (codes "bucket") (delete path ∷ exists path ∷ []) objects).0
    ≡ (delete path, done) ∷ (exists path, found false) ∷ []
unfolding perform_all delete_object object_exists storage_path
perform_all_test = refl

perform_all-History_example :
    History
      (contents objects)
      (perform_all memory (codes "bucket") history objects).0
      (contents (perform_all memory (codes "bucket") history objects).1)
perform_all-History_example =
    perform_all-History memory (codes "bucket") contents memory-IsStore history objects

foreign : (c : Call) → key_of c ≡ other_path → IsForeign (codes "acme") c
foreign c e = record {
  tenant = codes "bcme";
  repository = codes "r";
  parts = codes "a" ∷ [];
  path = e;
  no_slash = omega arith;
  other = λ x. ground arith;
}

uploaded_stays_example :
    ((download_file memory
        (codes "bucket")
        path
        (perform_all memory (codes "bucket") others uploaded).1).0
      ≡ ok (1 ∷ 2 ∷ []))
    × ((object_exists memory
          (codes "bucket")
          path
          (perform_all memory (codes "bucket") others uploaded).1).0
        ≡ ok true)
uploaded_stays_example =
    uploaded_stays memory (codes "bucket") contents memory-IsStore (codes "acme") (codes "r")
      (codes "a" ∷ []) (omega arith) default_content_type (1 ∷ 2 ∷ []) objects
      (unfold upload_file in refl) others (foreign _ refl, (foreign _ refl, (foreign _ refl, tt)))
