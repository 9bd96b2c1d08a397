-- ===== src/Recovery/Steps.antt =====
-- crates/openwave-runtime/src/recovery.rs: cycling a card, recycling a sink, and restoring what a
-- remedy changed.
pub mod Ledger
pub mod Quiet
pub mod Payment
pub mod Resolved
pub mod Owed
pub mod Outcome
pub mod Examples
use openwave.Prelude.{
  ℕ, String, Bool, true, false, not, Option, none, some, List, [], ◌∷◌, ◌==◌, string_instance,
  if◌then◌else◌,
}
use Prim.Native.String.{◌++◌ as append}
use text.Mathlib.Text.{starts_with}
use openwave.Prelude.Json.{Json, ◌>>?◌, as_str, member}
use openwave.Model.{
  Result, ok, err, OperationError, fail, unavailable, identity, ok_or, NodeIdentity, identity_eq,
}
use openwave.Health.Graph.{parse_health_graph, says}
use openwave.Recovery.Discovery.{
  identity_error, exactly, CardTarget, target_eq, scalar, unique, graph_identity, pulse_serial,
  shown_profile, active_profile,
}
use openwave.Prelude.Action.{is_ok, Action, continue, ◌>>=◌, ◌>>◌, lift, outcome}
use openwave.Recovery.Session.{
  Commands, Obligation, card, sink, Session, describe, one_second, call, pause, check_cancel,
  json_command, listing,
}

abbrev pub changed_identity : {A : Type 0} → Result A
changed_identity = fail identity identity_error

-- An identity that is not the one that was asked for is an error.
abbrev pub same_identity : NodeIdentity → NodeIdentity → Result (Unit {0})
same_identity found wanted = if identity_eq found wanted then ok tt else changed_identity

abbrev pub same_text : Option String → String → Result (Unit {0})
same_text found wanted = if says wanted found then ok tt else changed_identity

-- `kind` in `resolve_card`
unfoldable pub card_kind : String → Result String
card_kind name =
    if starts_with name "alsa_input."
    then ok "sources"
    else if starts_with name "alsa_output."
    then ok "sinks"
    else changed_identity

unfoldable pub finish : Result (Unit {0}) → Result (Unit {0}) → Result (Unit {0})
finish (ok u) (ok v) = ok tt
finish (err e) (ok v) = err e
finish (ok u) (err e) = fail unavailable (append "Audio restoration failed: " e.message)
finish (err e) (err r) =
    fail unavailable (append e.message (append "; audio restoration failed: " r.message))

-- `filter(|s| !s.is_empty())` of the card's name
abbrev card_name_of : Option String → Option String
card_name_of o = o >>? λ s. if s == "" then none else some s

-- `is_pending`
unfoldable pub is_pending : Option Obligation → Bool
is_pending none = false
is_pending (some debt) = true

module _ (js : Json) (cs : Commands js) where
  open js use {V}
  open cs use {World}

  unfoldable pub read_graph : Bool → Action (Session World) V
  read_graph restoration = do
    graph ← json_command js cs "pw-dump" [] restoration
    parsed ← lift (parse_health_graph js graph)
    lift (ok graph)

  unfoldable pub validate_node : String → NodeIdentity → Bool → Action (Session World) V
  unfolding read_graph
  validate_node name wanted restoration = do
    graph ← read_graph restoration
    found ← lift (graph_identity js graph "PipeWire:Interface:Node" "node.name" name)
    lift (same_identity found wanted) >> lift (ok graph)

  unfoldable pub validate_sink : String → NodeIdentity → Bool → Action (Session World) (Unit {0})
  unfolding validate_node
  validate_sink name wanted restoration = do
    graph ← validate_node name wanted restoration
    sinks ← listing js cs "sinks" restoration
    found ← lift (unique js sinks "name" name)
    lift (same_text (pulse_serial js found) wanted.object_serial)

  unfoldable pub resolve_card : String → NodeIdentity → Action (Session World) CardTarget
  unfolding validate_node
  resolve_card name wanted = do
    kind ← lift (card_kind name)
    graph ← validate_node name wanted false
    nodes ← listing js cs kind false
    node ← lift (unique js nodes "name" name)
    same ← lift (same_text (pulse_serial js node) wanted.object_serial)
    index ← lift (exactly (member js "card" node >>? scalar js))
    cards ← listing js cs "cards" false
    found ← lift (unique js cards "index" index)
    card_name ← lift (exactly (card_name_of (member js "name" found >>? as_str js)))
    named ← lift (unique js cards "name" card_name)
    profile ← lift (
        ok_or (active_profile (shown_profile js found)) unavailable
          "Card has no active profile to restore")
    card_identity ←
        lift (graph_identity js graph "PipeWire:Interface:Device" "device.name" card_name)
    lift (
        ok
          (record { name = card_name; index = index; identity = card_identity; profile = profile }))

  -- The program pactl, whose answer is not read.
  unfoldable pub command : List String → Bool → Action (Session World) (Unit {0})
  command args restoration = do answer ← call js cs "pactl" args restoration; lift (ok tt)

  unfoldable pub restore_card : CardTarget → Action (Session World) (Unit {0})
  unfolding read_graph
  restore_card target = do
    graph ← read_graph true
    found ← lift (graph_identity js graph "PipeWire:Interface:Device" "device.name" target.name)
    same ← lift (same_identity found target.identity)
    cards ← listing js cs "cards" true
    one ← lift (unique js cards "name" target.name)
    same_index ← lift (same_text (member js "index" one >>? scalar js) target.index)
    command ("set-card-profile" ∷ target.name ∷ target.profile ∷ []) true

  unfoldable pub resume : Obligation → Action (Session World) (Unit {0})
  unfolding restore_card validate_sink
  resume (card target) = restore_card target
  resume (sink name wanted) =
      validate_sink name wanted true >> command ("suspend-sink" ∷ name ∷ "0" ∷ []) true

  abbrev pub settle : Result (Unit {0}) × Session World → Result (Unit {0}) × Session World
  settle (ok u, s) = (ok tt, record s { pending = none })
  settle (err e, s) = (err e, s)

  -- `Restoration::restore_with` of what is pending.
  unfoldable pub restore_pending : Option Obligation → Action (Session World) (Unit {0})
  unfolding resume
  restore_pending none s = (ok tt, s)
  restore_pending (some debt) s =
      let (r, s') = resume debt s in settle (describe "Audio restoration remains owed: " r, s')

  unfoldable pub restore_with : Action (Session World) (Unit {0})
  unfolding restore_pending
  restore_with s = restore_pending s.pending s

  unfoldable pub require_clear : Action (Session World) (Unit {0})
  unfolding is_pending
  require_clear s = (
    if is_pending s.pending
        then fail unavailable "Cannot begin recovery while audio restoration remains owed"
        else ok tt,
    s,
  )

  unfoldable pub owe : Obligation → Action (Session World) (Unit {0})
  owe debt s = (ok tt, record s { pending = some debt })

  -- The remedy of a card, from the obligation on.
  unfoldable pub switch_off : CardTarget → Action (Session World) (Unit {0})
  unfolding owe restore_with finish
  switch_off target = do
    owed ← owe (card target)
    changed ← outcome (command ("set-card-profile" ∷ target.name ∷ "off" ∷ []) false)
    restored ← outcome restore_with
    lift (finish changed restored)

  unfoldable pub cycle_card_with : String → NodeIdentity → Action (Session World) (Unit {0})
  unfolding require_clear resolve_card switch_off
  cycle_card_with name wanted = do
    clear ← require_clear
    first ← check_cancel js cs
    target ← resolve_card name wanted
    again ← resolve_card name wanted
    same ← lift (if target_eq again target then ok tt else changed_identity)
    second ← check_cancel js cs
    switch_off target

  -- `wait` only where the command succeeded.
  unfoldable pub wait_if : Bool → Action (Session World) (Unit {0})
  wait_if true = pause js cs one_second
  wait_if false = lift (ok tt)

  unfoldable pub suspend : String → NodeIdentity → Action (Session World) (Unit {0})
  unfolding owe restore_with finish wait_if
  suspend name wanted = do
    owed ← owe (sink name wanted)
    changed ← outcome (command ("suspend-sink" ∷ name ∷ "1" ∷ []) false)
    waited ← wait_if (is_ok changed)
    restored ← outcome restore_with
    lift (finish changed restored)

  unfoldable pub recycle_sink_with : String → NodeIdentity → Action (Session World) (Unit {0})
  unfolding require_clear validate_sink suspend
  recycle_sink_with name wanted = do
    clear ← require_clear
    output ← lift (if starts_with name "alsa_output." then ok tt else changed_identity)
    first ← check_cancel js cs
    valid ← validate_sink name wanted false
    second ← check_cancel js cs
    suspend name wanted
