-- ===== src/Recovery/Session.antt =====
-- crates/openwave-runtime/src/recovery.rs: `Commands` as a parameter, and the steps that run them.
-- A session joins the world that the commands act on, the log of the commands that were run, the
-- latest first, and the obligation of `Restoration`.
use openwave.Prelude.{
  ℕ, String, Bool, true, false, Option, none, some, List, [], ◌∷◌, any, not, string_instance,
  if◌then◌else◌,
}
use Prim.Native.String.{◌++◌ as append}
use openwave.Prelude.Json.{Json, as_array, as_object}
use openwave.Model.{Result, ok, err, fail, unavailable, cancelled, NodeIdentity}
use openwave.Prelude.Action.{Action, ◌>>=◌, lift, is_ok}
use openwave.Recovery.Discovery.{CardTarget}

-- `from_slice` is serde_json's, whose error is known by its text.
pub record Commands (js : Json) : Type 1 where
  pub World : Type 0
  pub Bytes : Type 0
  pub run : String → List String → ℕ → Bool → World → Result Bytes × World
  pub cancelled : World → Bool × World
  pub wait : ℕ → World → World
  pub from_slice : Bytes → Result js.V

-- Nanoseconds.
abbrev pub command_timeout : ℕ
command_timeout = 5000000000

abbrev pub one_second : ℕ
one_second = 1000000000

pub data Obligation : Type 0 where
  card : CardTarget → Obligation
  sink : String → NodeIdentity → Obligation

pub record Call : Type 0 where
  pub program : String
  pub args : List String
  pub restoration : Bool
  pub succeeded : Bool

pub record Session (World : Type 0) : Type 0 where
  pub world : World
  pub log : List Call
  pub pending : Option Obligation

-- `map_err`
abbrev pub describe : {A : Type 0} → String → Result A → Result A
describe prefix (ok a) = ok a
describe prefix (err e) = fail unavailable (append prefix e.message)

module _ (js : Json) (cs : Commands js) where
  open js use {V}
  open cs use {World, Bytes, run, from_slice, wait}

  -- `Commands::run`, which the log records.
  unfoldable pub call : String → List String → Bool → Action (Session World) Bytes
  call program args restoration s =
      let (r, w) = run program args command_timeout restoration s.world in
      (
        r,
        record s {
          world = w;
          log =
              record {
                program = program;
                args = args;
                restoration = restoration;
                succeeded = is_ok r;
              }
              ∷ s.log;
        },
      )

  unfoldable pub pause : ℕ → Action (Session World) (Unit {0})
  pause time s = (ok tt, record s { world = wait time s.world })

  unfoldable pub check_cancel : Action (Session World) (Unit {0})
  check_cancel s =
      let (stop, w) = cs.cancelled s.world in
      (if stop then fail cancelled "Health collection cancelled" else ok tt, record s { world = w })

  unfoldable pub json_command : String → List String → Bool → Action (Session World) V
  json_command program args restoration = do
    output ← call program args restoration
    lift (describe (append "Invalid " (append program " JSON: ")) (from_slice output))

  abbrev pub is_object : V → Bool
  is_object entry = elim (as_object js entry) [ none ↦ false | some m ↦ true ]

  abbrev entries_of : Option (List V) → Result (List V)
  entries_of none = fail unavailable "Invalid Pulse listing"
  entries_of (some entries) =
      if any (λ entry. not (is_object entry)) entries
      then fail unavailable "Invalid Pulse listing entry"
      else ok entries

  unfoldable pub listing : String → Bool → Action (Session World) (List V)
  listing kind restoration = do
    value ← json_command "pactl" ("--format=json" ∷ "list" ∷ kind ∷ []) restoration
    lift (entries_of (as_array js value))
