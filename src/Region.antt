-- ===== src/Region.antt =====
-- region/region.go and region/replication.go: where a region's services are, and which regions an
-- organization's data may go to. A region and a mode are strings.
pub mod Laws
use platform_kit.Common.{
  Bool, true, false, ◌||◌, Option, none, some, List, [], ◌∷◌, ◌++◌, ◌==◌, if◌then◌else◌, any, Str,
  lit, str_eq, is_empty, Dict, lookup, insert,
}

abbrev pub Table : Type 0
Table = Dict (Dict Str)

abbrev pub services : Option (Dict Str) → Dict Str
services none = []
services (some d) = d

-- StaticLocator.Add
unfoldable pub add : (region service url : Str) → Table → Table
unfolding insert lookup
add region service url tbl = insert region (insert service url (services (lookup region tbl))) tbl

-- StaticLocator.Resolve; `none` is ErrRegionNotConfigured.
abbrev pub resolve_in : Str → Option (Dict Str) → Option Str
resolve_in service none = none
resolve_in service (some d) = lookup service d

unfoldable pub resolve : (region service : Str) → Table → Option Str
unfolding lookup
resolve region service tbl = resolve_in service (lookup region tbl)

abbrev pub isolated : Str
isolated = lit "isolated"

abbrev pub best_effort : Str
best_effort = lit "best_effort"

abbrev pub strict_mirror : Str
strict_mirror = lit "strict_mirror"

unfoldable pub mode_is_valid : Str → Bool
unfolding str_eq
mode_is_valid m = str_eq m isolated || str_eq m best_effort || str_eq m strict_mirror

pub record ReplicationPolicy : Type 0 where
  pub org_id : Str
  pub home_region : Str
  pub peer_regions : List Str
  pub mode : Str

pub data Denial : Type 0 where
  allowed : Denial
  no_policy : Denial
  isolated_to_home : Denial
  not_a_peer : Denial
  unknown_mode : Denial

-- AllowsRegion: `allowed` is the nil error.
unfoldable pub allows_region : Option ReplicationPolicy → Str → Denial
allows_region none target = no_policy
allows_region (some p) target =
    if str_eq target p.home_region
    then allowed
    else if str_eq p.mode isolated
    then isolated_to_home
    else if str_eq p.mode best_effort || str_eq p.mode strict_mirror
    then (if any (λ peer. str_eq peer target) p.peer_regions then allowed else not_a_peer)
    else unknown_mode

-- strings.ReplaceAll(s, "-", "_")
abbrev underscored : Str → Str
underscored [] = []
underscored (c ∷ s) = (if c == b'-' then b'_' else c) ∷ underscored s

unfoldable pub kafka_mirror_topic_prefix : Str → Str
kafka_mirror_topic_prefix source = if is_empty source then [] else underscored source ++ lit "."
