-- ===== src/Storage/Store.antt =====
-- What the adapter promises: a store of objects under keys.
use ai_developer_copilot_pla.Prelude.{
  ◌≡◌, ◌≢◌, Option, none, some, Bool, true, false, if◌then◌else◌, List, [], ◌∷◌,
}
use ai_developer_copilot_pla.Text.{Text, eq_text}
use ai_developer_copilot_pla.Exn.{Exn}
use ai_developer_copilot_pla.Storage.Adapter.{Bytes}

abbrev pub Store : Type 0
Store = Text → Option Bytes

-- The store with one object written, or deleted.
abbrev pub write : Text → Option Bytes → Store → Store
write key x v j = if eq_text key j then x else v j

abbrev pub is_there : Option Bytes → Bool
is_there none = false
is_there (some body) = true

-- The calls of the four methods; `content_type` has no bearing on what is read.
pub data Call : Type 0 where
  upload : Text → Bytes → Text → Call
  download : Text → Call
  delete : Text → Call
  exists : Text → Call

abbrev pub key_of : Call → Text
key_of (upload key body content_type) = key
key_of (download key) = key
key_of (delete key) = key
key_of (exists key) = key

pub data Answer : Type 0 where
  done : Answer
  body : Bytes → Answer
  found : Bool → Answer
  failed : Exn → Answer

-- One call, from a store to a store. A write that raises may or may not have reached the store, so
-- that nothing is known of its own key. A download raises exactly where there is no object.
pub data Serves (v w : Store) : Call → Answer → Type 0 where
  uploads :
      (key content_type : Text) (bytes : Bytes)
      → w ≡ write key (some bytes) v
      → Serves v w (upload key bytes content_type) done
  upload_fails :
      (key content_type : Text) (bytes : Bytes) (e : Exn)
      → ((j : Text) → key ≢ j → w j ≡ v j)
      → Serves v w (upload key bytes content_type) (failed e)
  downloads :
      (key : Text) (bytes : Bytes)
      → v key ≡ some bytes
      → w ≡ v
      → Serves v w (download key) (body bytes)
  nothing_to_download :
      (key : Text) (e : Exn) → v key ≡ none → w ≡ v → Serves v w (download key) (failed e)
  deletes : (key : Text) → w ≡ write key none v → Serves v w (delete key) done
  delete_fails :
      (key : Text) (e : Exn)
      → ((j : Text) → key ≢ j → w j ≡ v j)
      → Serves v w (delete key) (failed e)
  tells : (key : Text) (b : Bool) → b ≡ is_there (v key) → w ≡ v → Serves v w (exists key) (found b)

-- A sequence of calls with their answers.
pub data History : Store → List (Call × Answer) → Store → Type 0 where
  none_left : (v : Store) → History v [] v
  one_more :
      {v w x : Store} {c : Call} {a : Answer} {rest : List (Call × Answer)}
      → Serves v w c a
      → History w rest x
      → History v ((c, a) ∷ rest) x
