-- ===== src/Store/Disk.antt =====
-- The file system that crates/openwave-runtime/src/store.rs works on. Every operation may fail, and
-- the process may end after any of them: `seen` holds the disks that a restart could find.
use openwave.Prelude.{
  String, Bool, false, not, ◌||◌, Option, none, some, List, [], ◌∷◌, string_instance, nat_eq,
}
use Prim.Native.Char.{code}
use Prim.Native.String.String.{[] as empty_text, ◌∷◌ as cons}
use openwave.Prelude.Dict.{Dict, get, insert, remove}
use openwave.Prelude.Action.{Action}
use openwave.Model.{OperationError, Result, ok, err}

-- A file that is not regular is read as a link's target or a device gives it: an error, or nothing
-- where a link leads nowhere (`NotFound`).
pub data File (B : Type 0) : Type 0 where
  regular : B → File B
  special : Result (Option B) → File B

abbrev pub Disk : Type 0 → Type 0
Disk B = Dict String (File B)

-- What becomes of the next operation; a write that fails leaves some bytes behind.
pub data Fate (B : Type 0) : Type 0 where
  done : Fate B
  failed : OperationError → B → Fate B

-- The latest disk stands first in `seen`; after the last fate every operation is done.
pub record Io (B : Type 0) : Type 0 where
  pub disk : Disk B
  pub seen : List (Disk B)
  pub fates : List (Fate B)

abbrev pub enact :
    {A B : Type 0}
    → (Disk B → A)
    → (Disk B → Disk B)
    → (B → Disk B → Disk B)
    → List (Fate B)
    → Io B
    → Result A × Io B
enact answer change tear [] s =
    (ok (answer s.disk), record { disk = change s.disk; seen = change s.disk ∷ s.seen; fates = [] })
enact answer change tear (done ∷ fates) s = (
  ok (answer s.disk),
  record { disk = change s.disk; seen = change s.disk ∷ s.seen; fates = fates },
)
enact answer change tear (failed e torn ∷ fates) s =
    (err e, record { disk = tear torn s.disk; seen = tear torn s.disk ∷ s.seen; fates = fates })

unfoldable pub operate :
    {A B : Type 0} → (Disk B → A) → (Disk B → Disk B) → (B → Disk B → Disk B) → Action (Io B) A
operate answer change tear s = enact answer change tear s.fates s

abbrev pub same : {A : Type 0} → A → A
same a = a

abbrev pub untorn : {B D : Type 0} → B → D → D
untorn torn d = d

abbrev pub nothing : {D : Type 0} → D → Unit {0}
nothing d = tt

-- What stands at a path; `fs::read` and `symlink_metadata` find no file where there is none.
unfoldable pub metadata : {B : Type 0} → String → Action (Io B) (Option (File B))
metadata path = operate (get path) same untorn

unfoldable pub create_dir : {B : Type 0} → Action (Io B) (Unit {0})
create_dir = operate nothing same untorn

unfoldable pub create_file : {B : Type 0} → String → B → Action (Io B) (Unit {0})
create_file name bytes = operate nothing (insert name (regular bytes)) untorn

unfoldable pub write_all : {B : Type 0} → String → B → Action (Io B) (Unit {0})
write_all name bytes =
    operate nothing (insert name (regular bytes)) (λ torn. insert name (regular torn))

unfoldable pub flush : {B : Type 0} → Action (Io B) (Unit {0})
flush = operate nothing same untorn

unfoldable pub sync_all : {B : Type 0} → Action (Io B) (Unit {0})
sync_all = operate nothing same untorn

abbrev pub renamed : {B : Type 0} → String → Option (File B) → Disk B → Disk B
renamed path none d = d
renamed path (some file) d = insert path file d

-- `rename`: the file stands at its new path at once.
unfoldable pub persist : {B : Type 0} → String → String → Action (Io B) (Unit {0})
persist name path = operate nothing (λ d. renamed path (get name d) (remove name d)) untorn

-- A temporary file is removed as well as it can be.
unfoldable pub discard : {B : Type 0} → String → Action (Io B) (Unit {0})
discard name = operate nothing (remove name) untorn

-- A path has a parent unless it is empty or the root.
abbrev pub has_parent : String → Bool
has_parent empty_text = false
has_parent (cons c s) = not (nat_eq (code c) 47) || has_parent s
