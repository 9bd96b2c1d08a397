-- ===== src/Protocol/Config/Blocks.antt =====
-- crates/openwave-core/src/protocol.rs: the blocks that are read are the blocks that are written.
use openwave.Prelude.{
  ℕ, zero, suc, ◌-◌, ◌≤◌, String, true, some, List, [], ◌∷◌, ◌++◌, ◌==◌, ◌≡◌, refl, ap, sym, subst,
  ◌∙◌, length, length-append, nat_instance, arith, Bool-cases, inl, inr, nat_eq_iff,
}
use openwave.Prelude.Bytes.{zeros}
use openwave.Model.{ok, ok_inj, >>=-eq-ok}
use openwave.Profiles.{ProfileId, LegacyProfile, profile}
use openwave.Profiles.Table.{is_laid_out, profile_layout}
use openwave.Protocol.{exact_length}
use openwave.Protocol.Config.{
  ConfigBuffer, decode, decode_dock, decode_legacy, config_len_of, take, as_bytes, blocks,
}
use openwave.Protocol.Config.Readback.{IsSized}

take-append : (bs more : List ℕ) → take (length bs) (bs ++ more) ≡ bs
unfolding take
take-append [] more = refl
take-append (b ∷ bs) more = ap (λ xs. b ∷ xs) (take-append bs more)

take_all : (bs : List ℕ) (n : ℕ) → length bs ≡ n → take n bs ≡ bs
unfolding take
take_all [] zero h = refl
take_all [] (suc n) h = refl
take_all (b ∷ bs) zero h = absurd (omega (arith, h))
take_all (b ∷ bs) (suc n) h = ap (λ xs. b ∷ xs) (take_all bs n (omega (arith, h)))

exact_length-ok :
    (bs : List ℕ) (n : ℕ) (block : String) (u : Unit {0})
    → exact_length bs n block ≡ ok u
    → length bs ≡ n
unfolding exact_length
exact_length-ok bs n block u h = elim (Bool-cases (length bs == n)) [
  | inl e ↦ (nat_eq_iff (length bs) n).0 e
  | inr e ↦ absurd (cc (rw e at h))
]

length-zeros : (n : ℕ) → length (zeros n) ≡ n
length-zeros zero = refl
length-zeros (suc n) = ap suc (length-zeros n)

laid_out-le : (p : LegacyProfile) → is_laid_out (some p) ≡ true → p.config_len ≤ 38
laid_out-le p h = ground arith

config_len-le :
    (id : ProfileId) (p : LegacyProfile) → (profile id).legacy ≡ some p → p.config_len ≤ 38
config_len-le id p h = laid_out-le p (subst (λ o. is_laid_out o ≡ true) h (profile_layout id).1)

-- What a block of a legacy device is decoded to has the arrays' lengths, is of that device, and
-- is written back as that block, under the device's request value.
pub decode-blocks :
    (id : ProfileId) (block : List ℕ) (c : ConfigBuffer) (p : LegacyProfile)
    → (profile id).legacy ≡ some p
    → decode id block ≡ ok c
    → (c.profile ≡ id) × IsSized c × (blocks c ≡ (p.wvalue_config, block) ∷ [])
unfolding decode blocks as_bytes
decode-blocks id block c p layout h =
    let run : decode_legacy id (some p) block ≡ ok c = rw layout at h in
    let (u, hu, e) = >>=-eq-ok (exact_length block p.config_len "config") _ run in
    let exact : length block ≡ p.config_len = exact_length-ok block p.config_len "config" u hu in
    let small = config_len-le id p layout in
    subst (λ x. (x.profile ≡ id) × IsSized x × (blocks x ≡ (p.wvalue_config, block) ∷ []))
      (ok_inj e)
      (
        refl,
        record {
          bytes =
              length-append block (zeros (38 - length block))
              ∙ omega (arith, length-zeros (38 - length block), exact, small);
          headphones = refl;
          monitor = refl;
        },
        rw layout (
            ap (λ bs. (p.wvalue_config, bs) ∷ [])
              (subst (λ o. take (config_len_of o) (block ++ zeros (38 - length block)) ≡ block)
                (sym layout) (taken exact))),
      )
  where
    taken :
        length block ≡ p.config_len → take p.config_len (block ++ zeros (38 - length block)) ≡ block
    taken exact =
        subst (λ n. take n (block ++ zeros (38 - length block)) ≡ block) exact
          (take-append block (zeros (38 - length block)))

-- The Dock's three blocks are written back as they were read, and have the arrays' lengths.
pub decode_dock-blocks :
    (settings hp mon : List ℕ) (c : ConfigBuffer)
    → decode_dock settings hp mon ≡ ok c
    → IsSized c × (blocks c ≡ (4, settings) ∷ (5, hp) ∷ (1, mon) ∷ [])
unfolding decode_dock blocks as_bytes profile
decode_dock-blocks settings hp mon c h =
    let (a, ha, r) = >>=-eq-ok (exact_length settings 38 "settings") _ h in
    let (b, hb, r2) = >>=-eq-ok (exact_length hp 2 "headphones") _ r in
    let (d, hd, r3) = >>=-eq-ok (exact_length mon 6 "monitor") _ r2 in
    subst (λ x. IsSized x × (blocks x ≡ (4, settings) ∷ (5, hp) ∷ (1, mon) ∷ [])) (ok_inj r3)
      (
        record {
          bytes = exact_length-ok settings 38 "settings" a ha;
          headphones = exact_length-ok hp 2 "headphones" b hb;
          monitor = exact_length-ok mon 6 "monitor" d hd;
        },
        ap (λ bs. (4, bs) ∷ (5, hp) ∷ (1, mon) ∷ [])
            (take_all settings 38 (exact_length-ok settings 38 "settings" a ha)),
      )
