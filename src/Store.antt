-- ===== src/Store.antt =====
-- crates/openwave-runtime/src/store.rs: the saved files, each replaced as a whole.
pub mod Disk
pub mod Written
pub mod Keeps
pub mod Crash
pub mod Edit
pub mod Synced
pub mod Examples
use openwave.Prelude.{
  ℕ, String, Bool, true, false, not, Option, none, some, List, [], ◌∷◌, ◌==◌, string_instance,
  if◌then◌else◌,
}
use Prim.Native.String.{◌++◌ as append}
use openwave.Prelude.Dict.{Dict, get}
use openwave.Prelude.Action.{Action, ◌>>=◌, ◌>>◌, lift, outcome}
use openwave.Model.{OperationError, Result, ok, err, fail, corrupt_store, io}
use openwave.Model
use openwave.Store.Disk.{
  File, regular, special, Fate, Io, metadata, create_dir, create_file, write_all, flush, sync_all,
  persist, discard, has_parent,
}

-- A file that is written but not yet in place, and the value that it will be read as.
pub record Prepared (T : Type 0) : Type 0 where
  pub temporary : String
  pub value : T

-- `Stored<T>`; its functions `decode` and `encode` are parameters below.
pub record Stored (T : Type 0) : Type 0 where
  pub path : String
  pub value : T
  pub unreadable : Option OperationError

abbrev pub refuse_kind : {B : Type 0} → String → Option (File B) → Result (Unit {0})
refuse_kind path none = ok tt
refuse_kind path (some (regular bytes)) = ok tt
refuse_kind path (some (special r)) = fail io (append "Refusing nonregular state file: " path)

-- On an early return the temporary file is dropped, which removes it.
abbrev pub dropped : {B A : Type 0} → String → Result A × Io B → Result A × Io B
dropped temporary (ok a, s) = (ok a, s)
dropped temporary (err e, s) = (err e, (discard temporary s).1)

unfoldable pub dropping : {B A : Type 0} → String → Action (Io B) A → Action (Io B) A
dropping temporary a s = dropped temporary (a s)

module _ {B : Type 0} (empty : B) where
  -- `temporary` is the name that tempfile draws.
  unfoldable pub prepare_atomic : String → String → B → Action (Io B) (Unit {0})
  unfolding dropping
  prepare_atomic path temporary bytes = do
    found ← metadata path
    regular_or_absent ← lift (refuse_kind path found)
    parent ← lift (if has_parent path then ok tt else fail Model.invalid "State path has no parent")
    directory ← create_dir
    created ← create_file temporary empty
    dropping temporary (write_all temporary bytes >> flush >> sync_all)

  -- The error of `persist` holds the file, and drops it.
  unfoldable pub persist_or_drop : String → String → Action (Io B) (Unit {0})
  unfolding dropping
  persist_or_drop temporary path = dropping temporary (persist temporary path)

  unfoldable pub atomic_write : String → String → B → Action (Io B) (Unit {0})
  unfolding prepare_atomic persist_or_drop
  atomic_write path temporary bytes = do
    prepared ← prepare_atomic path temporary bytes
    persist_or_drop temporary path

-- `read_error`
unfoldable pub read_error : String → OperationError → OperationError
read_error path e = record {
  code = corrupt_store;
  message = append path (append " is read-only: " e.message);
}

abbrev pub require_writable : {T : Type 0} → Stored T → Result (Unit {0})
require_writable store = elim store.unreadable [ none ↦ ok tt | some e ↦ err e ]

abbrev pub writable : {T : Type 0} → Stored T → Bool
writable store = elim store.unreadable [ none ↦ true | some e ↦ false ]

-- `V` are serde_json's values: `print` is `to_vec_pretty` and the final line feed, and `parse` is
-- `from_slice`.
pub record Codec (V B T : Type 0) : Type 0 where
  pub print : V → Result B
  pub parse : B → Result V
  pub decode : V → Result T
  pub encode : T → Result V

module _ {V B T : Type 0} (empty : B) (cd : Codec V B T) where
  open cd use {print, parse, decode, encode}

  unfoldable pub prepare : Stored T → String → T → Action (Io B) (Prepared T)
  unfolding prepare_atomic
  prepare store temporary value = do
    writable ← lift (require_writable store)
    encoded ← lift (encode value)
    normal ← lift (decode encoded)
    again ← lift (encode normal)
    bytes ← lift (print again)
    written ← prepare_atomic empty store.path temporary bytes
    lift (ok (record { temporary = temporary; value = normal }))

  -- The file is in place before the value is taken over.
  unfoldable pub publish : Stored T → Prepared T → Action (Io B) (Stored T)
  unfolding persist_or_drop
  publish store prepared = do
    placed ← persist_or_drop empty prepared.temporary store.path
    lift (ok (record store { value = prepared.value }))

  unfoldable pub replace : Stored T → String → T → Action (Io B) (Stored T)
  unfolding prepare publish
  replace store temporary value = do
    prepared ← prepare store temporary value
    publish store prepared

  abbrev pub decoded : B → Result T
  decoded bytes = Model.◌>>=◌ (parse bytes) decode

  abbrev read_back : Option B → Result (Option T)
  read_back none = ok none
  read_back (some bytes) = Model.◌>>=◌ (decoded bytes) (λ t. ok (some t))

  -- What `fs::read` and the decoding give: nothing for a file that is not there, or is a link to
  -- nothing.
  abbrev pub loaded : Result (Option (File B)) → Result (Option T)
  loaded (err e) = err e
  loaded (ok none) = ok none
  loaded (ok (some (special r))) = Model.◌>>=◌ r read_back
  loaded (ok (some (regular bytes))) = read_back (some bytes)

  -- The default of a store that is seeded is written at once.
  unfoldable pub seed : String → String → T → Action (Io B) (Unit {0})
  unfolding atomic_write
  seed path temporary fallback = do
    encoded ← lift (encode fallback)
    bytes ← lift (print encoded)
    atomic_write empty path temporary bytes

  abbrev pub seeded : Stored T → Result (Unit {0}) × Io B → Stored T × Io B
  seeded store (ok u, s) = (store, s)
  seeded store (err e, s) = (record store { unreadable = some (read_error store.path e) }, s)

  abbrev pub settle : Bool → String → Stored T → Result (Option T) → Io B → Stored T × Io B
  settle seeds temporary store (ok (some value)) s = (record store { value = value }, s)
  settle true temporary store (ok none) s = seeded store (seed store.path temporary store.value s)
  settle false temporary store (ok none) s = (store, s)
  settle seeds temporary store (err e) s =
      (record store { unreadable = some (read_error store.path e) }, s)

  unfoldable pub load : String → String → T → Bool → Io B → Stored T × Io B
  unfolding seed read_error
  load path temporary fallback seeds s =
      let (found, s') = metadata path s in
      settle seeds temporary (record { path = path; value = fallback; unreadable = none })
        (loaded found) s'
