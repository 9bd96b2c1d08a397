-- ===== src/Store/Examples.antt =====
-- A concrete store for crates/openwave-runtime/src/store.rs: numbers that are read up to 100.
use openwave.Prelude.{
  ℕ, min, String, false, none, some, List, [], ◌∷◌, ◌≡◌, ◌⊎◌, refl, string_instance,
}
use openwave.Prelude.Action.{◌>>=◌, lift}
use openwave.Prelude.Dict.{get, insert, remove}
use openwave.Model.{ok, io}
use openwave.Store.Disk.{
  regular, Disk, Fate, done, failed, Io, metadata, create_dir, create_file, write_all, flush,
  sync_all, persist, discard, operate,
}
use openwave.Store.{
  Stored, Codec, replace, prepare, publish, prepare_atomic, persist_or_drop, dropping,
}
use openwave.Store.Keeps.{Always}
use openwave.Store.Crash.{IsWhole, replace_crash_safe}
use openwave.Store.Synced.{run_edits, IsUntouched, IsAsked, Restarts, load-run_edits}

abbrev percent : Codec ℕ ℕ ℕ
percent = record {
  print = λ v. ok v;
  parse = λ b. ok b;
  decode = λ v. ok (min v 100);
  encode = λ t. ok t;
}

abbrev before : Disk ℕ
before = ("ui-state.json", regular 40) ∷ []

abbrev store : Stored ℕ
store = record { path = "ui-state.json"; value = 40; unreadable = none }

-- The write is torn, after which the file is removed.
abbrev torn : List (Fate ℕ)
torn = done ∷ done ∷ done ∷ failed (record { code = io; message = "no space" }) 7 ∷ []

replace_crash_safe_example :
    Always
      (IsWhole 0 percent "ui-state.json" ".openwave-1" 250 before)
      (replace 0 percent store ".openwave-1" 250
        (record { disk = before; seen = before ∷ []; fates = torn })).1
replace_crash_safe_example = replace_crash_safe 0 percent store ".openwave-1" 250 before torn refl

torn_write :
    (replace 0 percent store ".openwave-1" 250
      (record { disk = before; seen = []; fates = torn })).1.disk
    ≡ before
unfolding replace prepare prepare_atomic publish dropping metadata create_dir create_file write_all
    flush sync_all persist discard operate ◌>>=◌ lift get insert remove
torn_write = refl

abbrev edits : List (String × ℕ)
edits = (".openwave-1", 250) ∷ (".openwave-2", 60) ∷ []

abbrev start : Io ℕ
start = record { disk = before; seen = []; fates = torn }

load-run_edits_example :
    let after = run_edits 0 percent edits store start in
    IsUntouched 0 percent store before after.0 after.1.disk
    ⊎ (IsAsked 0 percent edits after.0
        × Restarts 0 percent after.0 after.1.disk 5 false ".openwave-3")
load-run_edits_example =
    load-run_edits 0 percent edits store start 5 false ".openwave-3" (refl, (refl, tt))

-- The first edit fails, and the second is taken.
second_edit : (run_edits 0 percent edits store start).0.value ≡ 60
unfolding run_edits replace prepare prepare_atomic publish persist_or_drop dropping metadata
    create_dir create_file write_all flush sync_all persist discard operate ◌>>=◌ lift get insert
    remove
second_edit = refl

second_edit_saved :
    get "ui-state.json" (run_edits 0 percent edits store start).1.disk ≡ some (regular 60)
unfolding run_edits replace prepare prepare_atomic publish persist_or_drop dropping metadata
    create_dir create_file write_all flush sync_all persist discard operate ◌>>=◌ lift get insert
    remove
second_edit_saved = refl
