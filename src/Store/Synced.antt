-- ===== src/Store/Synced.antt =====
-- The value of a store in memory is the one that its file was written from
-- (crates/openwave-runtime/src/store.rs).
use openwave.Prelude.{
  String, Bool, false, none, some, List, [], ◌∷◌, ◌==◌, ◌≡◌, ◌⊎◌, inl, inr, refl, All, sym, ◌∙◌,
  subst, string_instance,
}
use openwave.Prelude.Dict.{get}
use openwave.Model.{Result, ok, err, >>=-eq-ok}
use openwave.Model
use openwave.Store.Disk.{Disk, Io, operate, metadata}
use openwave.Store.{Stored, Codec, replace, load, settle, decoded, read_error}
use openwave.Store.Written.{normal}
use openwave.Prelude.Search.{In, here, later}
use openwave.Store.Edit.{IsBacked, IsBacked-same, Leaves, replace-Leaves}

-- The edits that are asked for one after the other, each with the name of its temporary file; one
-- that fails leaves the store as it is. `seen` begins anew with every edit.
abbrev kept_or_new : {B T : Type 0} → Stored T → Result (Stored T) × Io B → Stored T × Io B
kept_or_new store (ok next, s) = (next, s)
kept_or_new store (err e, s) = (store, s)

module _ {V B T : Type 0} (empty : B) (cd : Codec V B T) where
  open cd use {print, parse, decode, encode}

  unfoldable pub run_edits : List (String × T) → Stored T → Io B → Stored T × Io B
  run_edits [] store s = (store, s)
  run_edits ((name, value) ∷ edits) store s =
      let (store', s') =
        kept_or_new store (replace empty cd store name value (record s { seen = [] })) in
      run_edits edits store' s'

  -- The store and its file are as before.
  abbrev pub IsUntouched : Stored T → Disk B → Stored T → Disk B → Type 0
  IsUntouched old before store d = (store ≡ old) × (get old.path d ≡ get old.path before)

  -- The value is one that an edit asked for, as it is read back.
  abbrev pub IsAsked : List (String × T) → Stored T → Type 0
  IsAsked edits store =
      (edit : String × T) × In edit edits × (normal empty cd edit.1 ≡ ok store.value)

  abbrev Fits : List (String × T) → Stored T → Disk B → Stored T → Disk B → Type 0
  Fits edits old before store d =
      IsUntouched old before store d ⊎ (IsBacked empty cd store d × IsAsked edits store)

  kept-Fits :
      (store : Stored T) (name : String) (value : T) (d : Disk B) (edits : List (String × T))
      (p : Result (Stored T) × Io B)
      → Leaves empty cd store value d p
      → Fits ((name, value) ∷ edits) store d (kept_or_new store p).0 (kept_or_new store p).1.disk
        × ((kept_or_new store p).0.path ≡ store.path)
  kept-Fits store name value d edits (ok next, t) h =
      (inr (h.0, ((name, value), here refl, h.1)), h.2)
  kept-Fits store name value d edits (err e, t) h = (inl (refl, h), refl)

  later-IsAsked :
      (edit : String × T) (edits : List (String × T)) (store : Stored T)
      → IsAsked edits store
      → IsAsked (edit ∷ edits) store
  later-IsAsked edit edits store (asked, i, n) = (asked, later i, n)

  -- The edits that follow a first one.
  follow-Fits :
      (edit : String × T) (edits : List (String × T)) (old mid store : Stored T)
      (before d d' : Disk B)
      → mid.path ≡ old.path
      → Fits (edit ∷ edits) old before mid d
      → Fits edits mid d store d'
      → Fits (edit ∷ edits) old before store d'
  follow-Fits edit edits old mid store before d d' e f (inr (backed, asked)) =
      inr (backed, later-IsAsked edit edits store asked)
  follow-Fits edit edits old mid store before d d' e (inl (same, file)) (inl (same', file')) =
      inl (same' ∙ same, subst (λ path. get path d' ≡ get path d) e file' ∙ file)
  follow-Fits edit edits old mid store before d d' e (inr (backed, asked)) (inl (same, file)) =
      inr (
        subst (λ x. IsBacked empty cd x d') (sym same)
            (IsBacked-same empty cd mid d d' file backed),
        subst (IsAsked (edit ∷ edits)) (sym same) asked,
      )

  run_edits-Fits :
      (edits : List (String × T)) (store : Stored T) (s : Io B)
      → All (λ e. (e.0 == store.path) ≡ false) edits
      → Fits edits store s.disk (run_edits edits store s).0 (run_edits edits store s).1.disk
  unfolding run_edits
  run_edits-Fits [] store s a = inl (refl, refl)
  run_edits-Fits ((name, value) ∷ edits) store s a =
      let p = replace empty cd store name value (record s { seen = [] }) in
      let (one, path) =
        kept-Fits store name value s.disk edits p
          (replace-Leaves empty cd store name value s.disk s.fates a.0) in
      let next = kept_or_new store p in
      follow-Fits (name, value) edits store next.0 (run_edits edits next.0 next.1).0 s.disk
        next.1.disk (run_edits edits next.0 next.1).1.disk path one
        (run_edits-Fits edits next.0 next.1
          (subst (λ q. All (λ e. (e.0 == q) ≡ false) edits) (sym path) a.1))

  -- What a restart makes of what the file is read as.
  abbrev pub reloaded : String → T → Result T → Stored T
  reloaded path fallback (ok t) = record { path = path; value = t; unreadable = none }
  reloaded path fallback (err e) = record {
    path = path;
    value = fallback;
    unreadable = some (read_error path e);
  }

  settle-reloaded :
      (path temporary : String) (fallback : T) (seeds : Bool) (found : Result T) (s : Io B)
      → (settle empty cd seeds temporary
          (record { path = path; value = fallback; unreadable = none })
          (Model.◌>>=◌ found (λ t. ok (some t)))
          s).0
        ≡ reloaded path fallback found
  settle-reloaded path temporary fallback seeds (ok t) s = refl
  settle-reloaded path temporary fallback seeds (err e) s = refl

  load_backed :
      (store : Stored T) (d : Disk B) (fallback : T) (seeds : Bool) (temporary : String)
      → (h : IsBacked empty cd store d)
      → (load empty cd store.path temporary fallback seeds
          (record { disk = d; seen = []; fates = [] })).0
        ≡ reloaded store.path fallback (decoded empty cd h.bytes)
  unfolding load metadata operate
  load_backed store d fallback seeds temporary h =
      rw h.holds (settle-reloaded store.path temporary fallback seeds (decoded empty cd h.bytes) _)

  -- What a restart finds of a store that its file backs.
  abbrev pub Restarts : Stored T → Disk B → T → Bool → String → Type 0
  Restarts store d fallback seeds temporary =
      (saved : IsBacked empty cd store d) × ((load empty cd store.path temporary fallback seeds
          (record { disk = d; seen = []; fates = [] })).0
        ≡ reloaded store.path fallback (decoded empty cd saved.bytes))

  -- After any edits, whatever operations of theirs fail, either the store and its file are as they
  -- were, or the value in memory is one that an edit asked for, as it is read back from its encoding,
  -- the store is writable, and the file holds just what this value is encoded and printed as. A
  -- restart that can read that file then gets what its bytes are decoded as, or the fallback in a
  -- store that is read-only where they cannot be decoded. The names of the temporary files are not
  -- that of the store; nothing is assumed of the codec.
  pub load-run_edits :
      (edits : List (String × T)) (store : Stored T) (s : Io B) (fallback : T) (seeds : Bool)
      (temporary : String)
      → All (λ e. (e.0 == store.path) ≡ false) edits
      → let after = run_edits edits store s in
        IsUntouched store s.disk after.0 after.1.disk
        ⊎ (IsAsked edits after.0 × Restarts after.0 after.1.disk fallback seeds temporary)
  load-run_edits edits store s fallback seeds temporary a =
      let after = run_edits edits store s in
      elim (run_edits-Fits edits store s a) [
        | inl same ↦ inl same
        | inr (saved, asked) ↦
            inr (asked, (saved, load_backed after.0 after.1.disk fallback seeds temporary saved))
      ]
