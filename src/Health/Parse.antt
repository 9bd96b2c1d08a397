-- ===== src/Health/Parse.antt =====
-- crates/openwave-core/src/health.rs: the readers of pw-top, of a playback status and of mutes.
pub mod Latest
pub mod Examples
use Prim.Native.Char.{code}
use Prim.Native.String.String.{[] as empty, ◌∷◌ as cons}
use openwave.Prelude.{
  ℕ, zero, suc, String, Bool, true, false, Option, none, some, List, [], ◌∷◌, ◌==◌, get_elem?,
  nat_instance, string_instance, nat_eq, if◌then◌else◌,
}
use openwave.Prelude.Dict.{Dict, get as find_key, insert}
use openwave.Prelude.Decimal.{parse_uint, u32_max, u64_max}
use openwave.Prelude.Json.{Json, ◌>>?◌, as_array, as_str, as_bool, member}
use openwave.Model.{Result, ok, err, fail, unavailable, ok_or, ◌>>=◌}
use openwave.Routing.Claims.{is_space, split_whitespace}
use openwave.Health.Sink.{PlaybackState, running, xrun, other, PlaybackStatus}

-- The pieces between the line feeds.
abbrev pieces : String → String × List String
pieces empty = ("", [])
pieces (cons c s) =
    let (line, more) = pieces s in
    if nat_eq (code c) 10 then ("", line ∷ more) else (cons c line, more)

abbrev without_return : String → String
without_return empty = empty
without_return (cons c empty) = if nat_eq (code c) 13 then empty else cons c empty
without_return (cons c (cons d s)) = cons c (without_return (cons d s))

abbrev ended : String → List String → List String
ended last [] = if last == "" then [] else last ∷ []
ended line (next ∷ more) = without_return line ∷ ended next more

-- `str::lines`
abbrev pub lines : String → List String
lines s = let (line, more) = pieces s in ended line more

abbrev pub drop {ℓ} : {A : Type ℓ} → ℕ → List A → List A
drop zero l = l
drop (suc n) [] = []
drop (suc n) (a ∷ l) = drop n l

-- `Iterator::last`
abbrev pub last? {ℓ} : {A : Type ℓ} → List A → Option A
last? [] = none
last? (a ∷ []) = some a
last? (a ∷ b ∷ l) = last? (b ∷ l)

pub record XrunCount : Type 0 where
  pub node_id : ℕ  -- u32
  pub node_name : String
  pub count : ℕ  -- u64

-- A row of pw-top: `next`, `next`, `nth(6)` and `last` of its fields.
unfoldable pub row : String → Option XrunCount
row line =
    let fields = split_whitespace line in
    (get_elem? fields 1 >>? parse_uint u32_max) >>? λ id.
    (get_elem? fields 8 >>? parse_uint u64_max) >>? λ count. last? (drop 9 fields) >>? λ name.
    some (record { node_id = id; node_name = name; count = count })

abbrev pub note_row : Dict ℕ XrunCount → Option XrunCount → Dict ℕ XrunCount
note_row counts none = counts
note_row counts (some r) = insert r.node_id r counts

unfoldable pub read_rows : Dict ℕ XrunCount → List String → Dict ℕ XrunCount
read_rows counts [] = counts
read_rows counts (line ∷ rest) = read_rows (note_row counts (row line)) rest

unfoldable pub parse_pw_top : String → Dict ℕ XrunCount
unfolding read_rows row
parse_pw_top text = read_rows [] (lines text)

-- `str::trim`
abbrev trim_start : String → String
trim_start empty = empty
trim_start (cons c s) =
    let rest = trim_start s in elim (is_space (code c)) [ true ↦ rest | false ↦ cons c s ]

abbrev trim_end : String → String
trim_end empty = empty
trim_end (cons c s) =
    let rest = trim_end s in
    if rest == "" then (if is_space (code c) then "" else cons c "") else cons c rest

abbrev pub trim : String → String
trim s = trim_end (trim_start s)

-- `split_once(':')`
abbrev pub split_colon : String → Option (String × String)
split_colon empty = none
split_colon (cons c s) =
    let later = split_colon s in
    if nat_eq (code c) 58
    then some ("", s)
    else elim later [ none ↦ none | some (before, after) ↦ some (cons c before, after) ]

abbrev pub state_of : String → PlaybackState
state_of value = if value == "RUNNING" then running else if value == "XRUN" then xrun else other

pub record Fields : Type 0 where
  pub pointer : Option ℕ
  pub state : Option PlaybackState

abbrev pub note_field : Fields → Option (String × String) → Fields
note_field f none = f
note_field f (some (key, value)) =
    if trim key == "hw_ptr"
    then record f { pointer = parse_uint u64_max (trim value) }
    else if trim key == "state"
    then record f { state = some (state_of (trim value)) }
    else f

unfoldable pub read_fields : Fields → List String → Fields
read_fields f [] = f
read_fields f (line ∷ rest) = read_fields (note_field f (split_colon line)) rest

unfoldable pub parse_playback_status : String → Result PlaybackStatus
unfolding read_fields
parse_playback_status text = do
  let f = read_fields (record { pointer = none; state = none }) (lines text)
  pointer ← ok_or f.pointer unavailable "Missing ALSA playback pointer"
  state ← ok_or f.state unavailable "Missing ALSA playback state"
  ok (record { hw_ptr = pointer; state = state })

module _ (js : Json) where
  open js use {V}

  abbrev is_listed : Option Bool → Bool
  is_listed none = false
  is_listed (some b) = true

  -- `insert` overwrites a name that is listed already, which is an error.
  unfoldable pub note_mute : Dict String Bool → V → Result (Dict String Bool)
  note_mute mutes entry = do
    name ← ok_or (member js "name" entry >>? as_str js) unavailable "Missing Pulse node name"
    mute ← ok_or (member js "mute" entry >>? as_bool js) unavailable "Unknown Pulse mute"
    if name == ""
        then fail unavailable "Ambiguous Pulse node name"
        else if is_listed (find_key name mutes)
        then fail unavailable "Ambiguous Pulse node name"
        else ok (insert name mute mutes)

  unfoldable pub read_mutes : Dict String Bool → List V → Result (Dict String Bool)
  unfolding note_mute
  read_mutes mutes [] = ok mutes
  read_mutes mutes (entry ∷ rest) = do next ← note_mute mutes entry; read_mutes next rest

  unfoldable pub parse_mutes : V → Result (Dict String Bool)
  unfolding read_mutes
  parse_mutes value = do
    entries ← ok_or (as_array js value) unavailable "Invalid Pulse mute listing"
    read_mutes [] entries
