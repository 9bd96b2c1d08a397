-- ===== src/Store/Written.antt =====
-- What a store that was prepared (crates/openwave-runtime/src/store.rs) has written, and where.
use openwave.Prelude.{
  String, Option, none, some, List, [], ◌∷◌, ◌≡◌, refl, ◌∙◌, ap, subst, beq_refl, string_instance,
}
use openwave.Prelude.Dict.{get, get-insert}
use openwave.Prelude.Action.{Action, ◌>>◌, lift}
use openwave.Prelude.Action.Ensures.{Ensures, Ensures-bind, Ensures-then, Ensures-lift_bind}
use openwave.Model.{OperationError, Result, ok, err, ok_inj, fail, invalid}
use openwave.Model
use openwave.Store.Disk.{
  regular, Fate, done, failed, Io, enact, operate, nothing, same, untorn, write_all, flush,
  sync_all,
}
use openwave.Store.{Prepared, Stored, dropped, dropping, prepare_atomic, Codec, prepare}

pub enact-disk :
    {A B : Type 0} (answer : _) (change : _) (tear : _) (fates : List (Fate B)) (s : Io B) (x : A)
    → (enact answer change tear fates s).0 ≡ ok x
    → (enact answer change tear fates s).1.disk ≡ change s.disk
enact-disk answer change tear [] s x h = refl
enact-disk answer change tear (done ∷ fates) s x h = refl
enact-disk answer change tear (failed e torn ∷ fates) s x h = absurd (cc)

module _ {B : Type 0} where
  abbrev Holds : String → B → Unit {0} → Io B → Type 0
  Holds name bytes u s = get name s.disk ≡ some (regular bytes)

  Ensures-write : (name : String) (bytes : B) → Ensures (Holds name bytes) (write_all name bytes)
  unfolding write_all operate
  Ensures-write name bytes = record {
    at = λ s x h.
        ap (get name) (enact-disk nothing _ _ s.fates s x h)
        ∙ get-insert name name (regular bytes) s.disk
        ∙ rw (beq_refl name) refl;
  }

  flush-disk : (s : Io B) (x : Unit {0}) → (flush s).0 ≡ ok x → (flush s).1.disk ≡ s.disk
  unfolding flush operate
  flush-disk s x h = enact-disk nothing same untorn s.fates s x h

  sync_all-disk : (s : Io B) (x : Unit {0}) → (sync_all s).0 ≡ ok x → (sync_all s).1.disk ≡ s.disk
  unfolding sync_all operate
  sync_all-disk s x h = enact-disk nothing same untorn s.fates s x h

  Ensures-synced :
      (name : String) (bytes : B)
      → Ensures (Holds name bytes) (write_all name bytes >> flush >> sync_all)
  Ensures-synced name bytes =
      Ensures-then _
        (Ensures-then _ (Ensures-write name bytes)
          (λ u s v h e. ap (get name) (flush-disk s v e) ∙ h))
        (λ u s v h e. ap (get name) (sync_all-disk s v e) ∙ h)

  dropped-Ensures :
      {A : Type 0} (Q : A → Io B → Type 0) (name : String) (p : Result A × Io B)
      → ((x : A) → p.0 ≡ ok x → Q x p.1)
      → (x : A) → (dropped name p).0 ≡ ok x
      → Q x (dropped name p).1
  dropped-Ensures Q name (ok y, s) h x e = h x e
  dropped-Ensures Q name (err y, s) h x e = absurd (cc)

  Ensures-dropping :
      {A : Type 0} {Q : A → Io B → Type 0} (name : String) {a : Action (Io B) A}
      → Ensures Q a
      → Ensures Q (dropping name a)
  unfolding dropping
  Ensures-dropping {Q} name {a} h = record {
    at = λ s x e. dropped-Ensures Q name (a s) (h.at s) x e;
  }

  pub Ensures-prepare_atomic :
      (empty : B) (path name : String) (bytes : B)
      → Ensures (Holds name bytes) (prepare_atomic empty path name bytes)
  unfolding prepare_atomic
  Ensures-prepare_atomic empty path name bytes = Ensures-bind _ λ found. Ensures-bind _ λ kind.
      Ensures-bind _ λ parent.
        Ensures-bind _
          λ directory. Ensures-bind _ λ created. Ensures-dropping name (Ensures-synced name bytes)

module _ {V B T : Type 0} (empty : B) (cd : Codec V B T) where
  open cd use {print, decode, encode}

  -- The bytes that a value is saved as.
  abbrev pub saved : T → Result B
  saved value = Model.◌>>=◌ (encode value) print

  -- A value is read back from its own encoding before it is saved.
  abbrev pub normal : T → Result T
  normal value = Model.◌>>=◌ (encode value) decode

  writable_open :
      (o : Option OperationError) (w : Unit {0})
      → (elim o [ none ↦ ok tt | some e ↦ err e ]) ≡ ok w
      → o ≡ none
  writable_open none w h = refl
  writable_open (some e) w h = absurd (cc)

  pub record IsPrepared (store : Stored T) (name : String) (value : T) (p : Prepared T) (s : Io B)
      : Type 0 where
    pub writable : store.unreadable ≡ none
    pub named : p.temporary ≡ name
    pub normalized : normal value ≡ ok p.value
    pub bytes : B
    pub printed : saved p.value ≡ ok bytes
    pub holds : get name s.disk ≡ some (regular bytes)

  pub Ensures-prepare :
      (store : Stored T) (name : String) (value : T)
      → Ensures (IsPrepared store name value) (prepare empty cd store name value)
  unfolding prepare lift
  Ensures-prepare store name value = Ensures-lift_bind _ λ w writable.
      Ensures-lift_bind _ λ encoded e1. Ensures-lift_bind _ λ norm e2.
        Ensures-lift_bind _ λ again e3. Ensures-lift_bind _ λ bytes e4.
          Ensures-then _ (Ensures-prepare_atomic empty store.path name bytes) (λ u s p h e.
            subst (λ q. IsPrepared store name value q s) (ok_inj e)
              (record {
                writable = writable_open store.unreadable w writable;
                named = refl;
                normalized = rw (e1, e2) refl;
                bytes = bytes;
                printed = rw (e3, e4) refl;
                holds = h;
              }))
