-- ===== src/Store/Edit.antt =====
-- What one edit of a store (crates/openwave-runtime/src/store.rs) leaves in memory and in its file.
use openwave.Prelude.{
  String, false, none, some, List, [], ◌∷◌, ◌==◌, ◌≡◌, refl, sym, ◌∙◌, subst, beq_refl,
  string_instance,
}
use openwave.Prelude.Dict.{get, remove, get-insert, get-remove}
use openwave.Prelude.Action.{continue, ◌>>=◌, lift}
use openwave.Model.{Result, ok, err, >>=-eq-ok}
use openwave.Store.Disk.{
  regular, Disk, Fate, done, failed, Io, enact, operate, nothing, untorn, renamed, persist, discard,
}
use openwave.Store.{
  Prepared, Stored, dropped, dropping, persist_or_drop, Codec, prepare, publish, replace,
}
use openwave.Store.Written.{normal, IsPrepared, Ensures-prepare}
use openwave.Store.Crash.{Untouched, prepare-Keeps}

module _ {V B T : Type 0} (empty : B) (cd : Codec V B T) where
  open cd use {print, parse, decode, encode}

  -- The file holds what the value is encoded and printed as.
  pub record IsBacked (store : Stored T) (d : Disk B) : Type 0 where
    pub writable : store.unreadable ≡ none
    pub encoded : V
    pub bytes : B
    pub encodes : encode store.value ≡ ok encoded
    pub prints : print encoded ≡ ok bytes
    pub holds : get store.path d ≡ some (regular bytes)

  pub IsBacked-same :
      (store : Stored T) (d d' : Disk B)
      → get store.path d' ≡ get store.path d
      → IsBacked store d
      → IsBacked store d'
  IsBacked-same store d d' e h = record {
    writable = h.writable;
    encoded = h.encoded;
    bytes = h.bytes;
    encodes = h.encodes;
    prints = h.prints;
    holds = e ∙ h.holds;
  }

  enact-remove :
      (name path : String) (fates : List (Fate B)) (s : Io B)
      → (name == path) ≡ false
      → get path (enact nothing (remove name) untorn fates s).1.disk ≡ get path s.disk
  enact-remove name path [] s a = get-remove path name s.disk ∙ rw a refl
  enact-remove name path (done ∷ fates) s a = get-remove path name s.disk ∙ rw a refl
  enact-remove name path (failed e torn ∷ fates) s a = refl

  -- The file after a step that succeeded is the new one, after one that failed the old one.
  abbrev Placed : String → String → Io B → Result (Unit {0}) × Io B → Type 0
  Placed name path s (ok u, t) = get path t.disk ≡ get name s.disk
  Placed name path s (err e, t) = get path t.disk ≡ get path s.disk

  renamed-path :
      (name path : String) (b : B) (d : Disk B)
      → get name d ≡ some (regular b)
      → get path (renamed path (get name d) (remove name d)) ≡ get name d
  renamed-path name path b d h =
      rw h (get-insert path path (regular b) (remove name d) ∙ rw (beq_refl path) refl)

  enact-Placed :
      (name path : String) (s : Io B) (fates : List (Fate B)) (b : B)
      → (name == path) ≡ false
      → get name s.disk ≡ some (regular b)
      → Placed name path s (
          dropped name
            (enact nothing (λ d. renamed path (get name d) (remove name d)) untorn fates s))
  unfolding discard operate
  enact-Placed name path s [] b a h = renamed-path name path b s.disk h
  enact-Placed name path s (done ∷ fates) b a h = renamed-path name path b s.disk h
  enact-Placed name path s (failed e torn ∷ fates) b a h = enact-remove name path fates _ a

  persist_or_drop-Placed :
      (name path : String) (s : Io B) (b : B)
      → (name == path) ≡ false
      → get name s.disk ≡ some (regular b)
      → Placed name path s (persist_or_drop empty name path s)
  unfolding persist_or_drop dropping persist operate
  persist_or_drop-Placed name path s b a h = enact-Placed name path s s.fates b a h

  -- What an edit leaves: a store that its file backs, with the value that was asked for as it is read
  -- back, or the file as it was.
  abbrev pub Leaves : Stored T → T → Disk B → Result (Stored T) × Io B → Type 0
  Leaves store value d (ok next, t) =
      IsBacked next t.disk × (normal empty cd value ≡ ok next.value) × (next.path ≡ store.path)
  Leaves store value d (err e, t) = get store.path t.disk ≡ get store.path d

  published-Leaves :
      (store : Stored T) (name : String) (value : T) (x : Prepared T) (d : Disk B) (s : Io B)
      (p : Result (Unit {0}) × Io B)
      → IsPrepared empty cd store name value x s
      → get store.path s.disk ≡ get store.path d
      → Placed name store.path s p
      → Leaves store value d (continue p (λ u. lift (ok (record store { value = x.value }))))
  unfolding lift
  published-Leaves store name value x d s (ok u, t) v h q =
      let (w, e1, e2) = >>=-eq-ok (encode x.value) print v.printed in
      (
        record {
          writable = v.writable;
          encoded = w;
          bytes = v.bytes;
          encodes = e1;
          prints = e2;
          holds = q ∙ v.holds;
        },
        v.normalized,
        refl,
      )
  published-Leaves store name value x d s (err e, t) v h q = q ∙ h

  publish-Leaves :
      (store : Stored T) (name : String) (value : T) (x : Prepared T) (d : Disk B) (s : Io B)
      → (name == store.path) ≡ false
      → IsPrepared empty cd store name value x s
      → get store.path s.disk ≡ get store.path d
      → Leaves store value d (publish empty cd store x s)
  unfolding publish ◌>>=◌
  publish-Leaves store name value x d s a v h =
      subst
        (λ n. Leaves store value d (
          continue (persist_or_drop empty n store.path s)
            (λ u. lift (ok (record store { value = x.value })))))
        (sym v.named)
        (published-Leaves store name value x d s (persist_or_drop empty name store.path s) v h
          (persist_or_drop-Placed name store.path s v.bytes a v.holds))

  continue-Leaves :
      (store : Stored T) (name : String) (value : T) (d : Disk B) (p : Result (Prepared T) × Io B)
      → (name == store.path) ≡ false
      → get store.path p.1.disk ≡ get store.path d
      → ((x : Prepared T) → p.0 ≡ ok x → IsPrepared empty cd store name value x p.1)
      → Leaves store value d (continue p (publish empty cd store))
  continue-Leaves store name value d (err e, s) a h k = h
  continue-Leaves store name value d (ok x, s) a h k =
      publish-Leaves store name value x d s a (k x refl) h

  pub replace-Leaves :
      (store : Stored T) (name : String) (value : T) (d : Disk B) (fates : List (Fate B))
      → (name == store.path) ≡ false
      → Leaves store value d
          (replace empty cd store name value (record { disk = d; seen = []; fates = fates }))
  unfolding replace ◌>>=◌
  replace-Leaves store name value d fates a =
      let s : Io B = record { disk = d; seen = []; fates = fates } in
      let fresh : Untouched name d d = record { elsewhere = λ j e. refl } in
      let kept = (prepare-Keeps empty cd store.path name a value d store).at s (tt, fresh) in
      continue-Leaves store name value d (prepare empty cd store name value s) a
        (kept.1.elsewhere store.path a) ((Ensures-prepare empty cd store name value).at s)
