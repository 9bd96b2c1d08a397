-- ===== src/Store/Crash.antt =====
-- A process that ends anywhere in `replace` (crates/openwave-runtime/src/store.rs) leaves a whole
-- file.
use openwave.Prelude.{
  String, false, some, List, [], ◌∷◌, ◌==◌, ◌≡◌, ◌⊎◌, inl, inr, refl, All, sym, ◌∙◌, subst,
  beq_refl, string_instance,
}
use openwave.Prelude.Dict.{get, insert, remove, get-insert, get-remove}
use openwave.Prelude.Action.{continue, ◌>>=◌}
use openwave.Model.{Result, ok, err}
use openwave.Store.Disk.{
  File, regular, Disk, Fate, Io, operate, nothing, metadata, create_dir, create_file, write_all,
  flush, sync_all, renamed, persist, discard,
}
use openwave.Store.{
  Prepared, Stored, dropping, prepare_atomic, persist_or_drop, Codec, prepare, publish, replace,
}
use openwave.Store.Written.{saved, normal, IsPrepared, Ensures-prepare}
use openwave.Store.Keeps.{
  Always, Keeps, enact-Always, Keeps-operate, continue-Always, Keeps-bind, Keeps-lift,
  dropped-Always, Keeps-dropping,
}

-- Only the temporary file differs from the disk before.
module _ {B : Type 0} (name : String) (before : Disk B) where
  pub record Untouched (d : Disk B) : Type 0 where
    pub elsewhere : (j : String) → (name == j) ≡ false → get j d ≡ get j before

  insert-Untouched : (f : File B) (d : Disk B) → Untouched d → Untouched (insert name f d)
  insert-Untouched f d h = record {
    elsewhere = λ j e. get-insert j name f d ∙ rw e (h.elsewhere j e);
  }

  remove-Untouched : (d : Disk B) → Untouched d → Untouched (remove name d)
  remove-Untouched d h = record { elsewhere = λ j e. get-remove j name d ∙ rw e (h.elsewhere j e) }

  Keeps-discard : Keeps Untouched (discard name)
  unfolding discard
  Keeps-discard = Keeps-operate _ _ _ _ remove-Untouched (λ b d h. h)

  prepare_atomic-Keeps :
      (empty : B) (path : String) (bytes : B)
      → Keeps Untouched (prepare_atomic empty path name bytes)
  unfolding prepare_atomic metadata create_dir create_file write_all flush sync_all
  prepare_atomic-Keeps empty path bytes =
      Keeps-bind (Keeps-operate _ _ _ _ (λ d h. h) (λ b d h. h)) λ found.
        Keeps-bind (Keeps-lift _) λ kind. Keeps-bind (Keeps-lift _) λ parent.
          Keeps-bind (Keeps-operate _ _ _ _ (λ d h. h) (λ b d h. h)) λ directory.
            Keeps-bind (Keeps-operate _ _ _ _ (insert-Untouched (regular empty)) (λ b d h. h))
              λ created. Keeps-dropping name Keeps-discard (
                Keeps-bind
                  (Keeps-bind
                    (Keeps-operate _ _ _ _ (insert-Untouched (regular bytes))
                      (λ b d h. insert-Untouched (regular b) d h))
                    (λ u. Keeps-operate _ _ _ _ (λ d h. h) (λ b d h. h)))
                  (λ u. Keeps-operate _ _ _ _ (λ d h. h) (λ b d h. h)))

module _ {V B T : Type 0} (empty : B) (cd : Codec V B T) where
  -- The old file or a whole new one stands at the path, and no other file has changed.
  pub record IsWhole (path name : String) (value : T) (before d : Disk B) : Type 0 where
    pub at_path :
        (get path d ≡ get path before)
        ⊎ ((t : T) × (b : B) × (normal empty cd value ≡ ok t)
            × (saved empty cd t ≡ ok b)
            × (get path d ≡ some (regular b)))
    pub elsewhere :
        (j : String) → (name == j) ≡ false → (path == j) ≡ false → get j d ≡ get j before

  module _ (path name : String) (apart : (name == path) ≡ false) (value : T) (before : Disk B) where
    Untouched-IsWhole : (d : Disk B) → Untouched name before d → IsWhole path name value before d
    Untouched-IsWhole d h = record {
      at_path = inl (h.elsewhere path apart);
      elsewhere = λ j e f. h.elsewhere j e;
    }

    All-IsWhole :
        (ds : List (Disk B))
        → All (Untouched name before) ds
        → All (IsWhole path name value before) ds
    All-IsWhole [] h = tt
    All-IsWhole (d ∷ ds) h = (Untouched-IsWhole d h.0, All-IsWhole ds h.1)

    discard-IsWhole : Keeps (IsWhole path name value before) (discard name)
    unfolding discard
    discard-IsWhole =
        Keeps-operate _ _ _ _
          (λ d h. record {
            at_path =
                let e : get path (remove name d) ≡ get path d =
                  get-remove path name d ∙ rw apart refl in
                elim h.at_path [
                  | inl old ↦ inl (e ∙ old)
                  | inr (t, b, n, p, new) ↦ inr (t, b, n, p, e ∙ new)
                ];
            elsewhere = λ j a c. get-remove j name d ∙ rw a (h.elsewhere j a c);
          })
          (λ b d h. h)

    placed-IsWhole :
        (t : T) (b : B) (d : Disk B)
        → normal empty cd value ≡ ok t
        → saved empty cd t ≡ ok b
        → get name d ≡ some (regular b)
        → Untouched name before d
        → IsWhole path name value before (renamed path (get name d) (remove name d))
    placed-IsWhole t b d n p e h = rw e (record {
      at_path =
          inr (
            t,
            b,
            n,
            p,
            get-insert path path (regular b) (remove name d) ∙ rw (beq_refl path) refl,
          );
      elsewhere = λ j a c.
          get-insert j path (regular b) (remove name d)
          ∙ rw c (get-remove j name d ∙ rw a (h.elsewhere j a));
    })

    persist-IsWhole :
        (t : T) (b : B) (s : Io B)
        → normal empty cd value ≡ ok t
        → saved empty cd t ≡ ok b
        → get name s.disk ≡ some (regular b)
        → Always (Untouched name before) s
        → Always (IsWhole path name value before) (persist name path s).1
    unfolding persist operate
    persist-IsWhole t b s n p e h =
        enact-Always (IsWhole path name value before) nothing _ _ s.fates s
          (placed-IsWhole t b s.disk n p e h.1) (λ torn. Untouched-IsWhole s.disk h.1)
          (All-IsWhole s.seen h.0, Untouched-IsWhole s.disk h.1)

    publish-IsWhole :
        (store : Stored T) (p : Prepared T) (s : Io B)
        → store.path ≡ path
        → IsPrepared empty cd store name value p s
        → Always (Untouched name before) s
        → Always (IsWhole path name value before) (publish empty cd store p s).1
    unfolding publish persist_or_drop dropping ◌>>=◌
    publish-IsWhole store p s e v h =
        continue-Always (IsWhole path name value before) _ _
          (dropped-Always (IsWhole path name value before) p.temporary
            (persist p.temporary store.path s)
            (subst (λ n. Keeps (IsWhole path name value before) (discard n)) (sym v.named)
              discard-IsWhole)
            (subst (λ n. Always (IsWhole path name value before) (persist n store.path s).1)
              (sym v.named)
              (subst (λ q. Always (IsWhole path name value before) (persist name q s).1) (sym e)
                (persist-IsWhole p.value v.bytes s v.normalized v.printed v.holds h))))
          (λ u. Keeps-lift _)

    pub prepare-Keeps :
        (store : Stored T) → Keeps (Untouched name before) (prepare empty cd store name value)
    unfolding prepare
    prepare-Keeps store = Keeps-bind (Keeps-lift _) λ w. Keeps-bind (Keeps-lift _) λ encoded.
        Keeps-bind (Keeps-lift _) λ norm. Keeps-bind (Keeps-lift _) λ again.
          Keeps-bind (Keeps-lift _) λ bytes.
            Keeps-bind (prepare_atomic-Keeps name before empty store.path bytes) λ u. Keeps-lift _

    continue-IsWhole :
        (store : Stored T) (p : Result (Prepared T) × Io B)
        → store.path ≡ path
        → Always (Untouched name before) p.1
        → ((x : Prepared T) → p.0 ≡ ok x → IsPrepared empty cd store name value x p.1)
        → Always (IsWhole path name value before) (continue p (publish empty cd store)).1
    continue-IsWhole store (err e, s) q h k = (All-IsWhole s.seen h.0, Untouched-IsWhole s.disk h.1)
    continue-IsWhole store (ok x, s) q h k = publish-IsWhole store x s q (k x refl) h

  -- Wherever `replace` is cut off, and whatever operations fail, a restart finds the old file or a
  -- whole new one at the store's path: the one of the value as it is read back. No other file but
  -- the temporary one differs.
  pub replace_crash_safe :
      (store : Stored T) (name : String) (value : T) (before : Disk B) (fates : List (Fate B))
      → (name == store.path) ≡ false
      → Always
          (IsWhole store.path name value before)
          (replace empty cd store name value
            (record { disk = before; seen = before ∷ []; fates = fates })).1
  unfolding replace ◌>>=◌
  replace_crash_safe store name value before fates apart =
      let s : Io B = record { disk = before; seen = before ∷ []; fates = fates } in
      let fresh : Untouched name before before = record { elsewhere = λ j e. refl } in
      continue-IsWhole store.path name apart value before store
        (prepare empty cd store name value s) refl
        ((prepare-Keeps store.path name apart value before store).at s ((fresh, tt), fresh))
        ((Ensures-prepare empty cd store name value).at s)
