-- ===== src/Routing/Examples.antt =====
-- Concrete sources and outputs for crates/openwave-core/src/routing.rs.
use openwave.Prelude.{
  ℕ, ◌≤◌, String, Bool, true, false, Option, none, some, ◌≡◌, ◌≢◌, refl, List, [], ◌∷◌, arith,
  string_instance, bool_instance, str_eq_iff,
}
use openwave.Prelude.Int.{ℤ, pos}
use openwave.Prelude.Dict.{get, modify, contains, keys}
use openwave.Prelude.Search.{here, later, min_by, least}
use openwave.Model.{ok}
use openwave.Sources.{Source, Sources, StreamSnapshot, OutputSnapshot, app}
use openwave.Routing.Mutes
use openwave.Routing.Mutes.Exclusive
use openwave.Routing.Mutes.Replay
use openwave.Routing.Groups
use openwave.Routing.Groups.Switch
use openwave.Routing.Groups.Cyclic
use openwave.Routing.Groups.Names
use openwave.Routing.Output
use openwave.Routing.Output.Choice
use openwave.Routing.Output.Automatic
use openwave.Routing.Claims
use openwave.Routing.Claims.Once
use openwave.Routing.Claims.Winner

abbrev row : String → String → Bool → Source ℤ Bool
row name group muted = record {
  id = name;
  kind = app;
  name = name;
  icon_name = "";
  match_app_names = [];
  node_name = "";
  level = pos 1;
  muted = muted;
  protected = false;
  group = group;
  fx = none;
  extra = [];
}

-- Two rows of one group, the first open, and a row of its own.
abbrev rows : Sources ℤ Bool
rows =
    ("game", row "game" "mic" false)
    ∷ ("chat", row "chat" "mic" true)
    ∷ ("music", row "music" "" false)
    ∷ []

abbrev chat_open : Sources ℤ Bool
chat_open =
    ("game", row "game" "mic" true)
    ∷ ("chat", row "chat" "mic" false)
    ∷ ("music", row "music" "" false)
    ∷ []

abbrev to_chat : List Mutes.MuteChange
to_chat = record { source = "game"; muted = true } ∷ record { source = "chat"; muted = false } ∷ []

rows-IsDistinct : Exclusive.IsDistinct rows
rows-IsDistinct k = ground (
  arith,
  str_eq_iff "game" k,
  str_eq_iff "chat" k,
  str_eq_iff "music" k,
  str_eq_iff "game" "chat",
  str_eq_iff "game" "music",
  str_eq_iff "chat" "music",
)

rows-IsExclusive : Exclusive.IsExclusive rows
rows-IsExclusive g =
    ground (arith, str_eq_iff "mic" g, str_eq_iff "" g, str_eq_iff g "", str_eq_iff "mic" "")

set_source_muted-IsExclusive_example : Exclusive.IsExclusive chat_open
unfolding Mutes.set_source_muted Mutes.mute_peers get modify
set_source_muted-IsExclusive_example =
    Exclusive.set_source_muted-IsExclusive rows "chat" false {r = (chat_open, to_chat)}
      rows-IsDistinct rows-IsExclusive refl

replay-set_source_muted_example : Replay.replay to_chat rows ≡ chat_open
unfolding Mutes.set_source_muted Mutes.mute_peers get modify
replay-set_source_muted_example =
    Replay.replay-set_source_muted rows "chat" false {r = (chat_open, to_chat)} rows-IsDistinct refl

switch_opens_next_example :
    (after : Sources ℤ Bool) × (sw : Groups.GroupSwitch) × (s : Source ℤ Bool)
    × (Groups.switch_group rows "mic" ≡ ok (some (after, sw)))
    × (Cyclic.cyclic_next (Groups.members "mic" rows) ≡ some (sw.source, s.muted))
    × (get sw.source after ≡ some (Mutes.set_muted false s))
    × (Exclusive.open_count "mic" after ≡ 1)
unfolding Groups.members
switch_opens_next_example = Switch.switch_opens_next rows "mic" refl rows-IsDistinct (omega arith)

source_groups_names_example :
    (contains "mic" (Groups.source_groups rows) ≡ true)
    × Names.IsAscending (Groups.source_groups rows)
unfolding Groups.members
source_groups_names_example = Names.source_groups_names rows "mic"

abbrev output : String → ℕ → Bool → OutputSnapshot Bool
output name priority wave = record {
  identity = record { server_cookie = 7; object_serial = name };
  node_id = 3;
  node_name = name;
  name = name;
  priority = pos priority;
  is_wave = wave;
  properties = [];
}

abbrev speakers : OutputSnapshot Bool
speakers = output "speakers" 900 false

abbrev headphones : OutputSnapshot Bool
headphones = output "headphones" 100 true

abbrev screen : OutputSnapshot Bool
screen = output "screen" 500 false

abbrev outputs : List (OutputSnapshot Bool)
outputs = speakers ∷ headphones ∷ []

abbrev plain : List (OutputSnapshot Bool)
plain = screen ∷ speakers ∷ []

resolve_output_never_unreachable_example :
    Output.resolve_output_with_wave "auto" outputs none none ≢ ok Output.unreachable
resolve_output_never_unreachable_example =
    Choice.resolve_output_never_unreachable "auto" outputs none none

monitored_output-IsOnly_example : Choice.IsOnly "speakers" outputs speakers
unfolding Output.resolve_output_with_wave Output.decide Output.exact Output.named
    Output.eligible_output Output.validate_output_choice
monitored_output-IsOnly_example =
    Choice.monitored_output-IsOnly "speakers" outputs none none speakers refl

automatic_prefers_wave_example : Output.wave_output headphones ≡ true
unfolding Output.resolve_output_with_wave Output.decide Output.decide_automatic Output.automatic
    Output.exact Output.named Output.eligible_output Output.validate_output_choice min_by least
automatic_prefers_wave_example =
    Automatic.automatic_prefers_wave outputs (some "speakers") none headphones headphones
      (later (here refl)) refl refl

-- Two application sources that list one name in two spellings, which `fold` makes the same.
abbrev listing : String → List String → Source ℤ Bool
listing id names = record (row id "" false) { match_app_names = names }

abbrev listed : Sources ℤ Bool
listed =
    ("web", listing "web" ("firefox" ∷ [])) ∷ ("browser", listing "browser" (" firefox" ∷ [])) ∷ []

abbrev same_text : String → String
same_text s = s

abbrev is_true : Bool → Option Bool
is_true b = some b

abbrev firefox : StreamSnapshot
firefox = record {
  identity = record { server_cookie = 7; object_serial = "90" };
  node_id = 90;
  node_name = "Firefox";
  app_name = "firefox";
  binary = "/usr/bin/firefox";
  sink = none;
  pulse_index = none;
}

bindings-least_owner_example :
    get "firefox" (Claims.matcher same_text is_true listed).bindings ≡ some "browser"
unfolding Claims.normalize_identity
bindings-least_owner_example = Winner.bindings-least_owner same_text is_true listed "firefox" refl

abbrev matched : Claims.NormalizedMatcher
matched = Claims.matcher same_text is_true listed

claimed_once_example :
    (Once.claimed firefox.identity (
        Claims.claim_normalized matched
          (Claims.normalized same_text firefox ∷ Claims.normalized same_text firefox ∷ []))
      ≤ 1)
    × (keys (
          Claims.claim_normalized matched
            (Claims.normalized same_text firefox ∷ Claims.normalized same_text firefox ∷ []))
        ≡ "web" ∷ "browser" ∷ [])
unfolding Claims.matcher
claimed_once_example =
    Once.claimed_once matched
      (Claims.normalized same_text firefox ∷ Claims.normalized same_text firefox ∷ [])
      firefox.identity
