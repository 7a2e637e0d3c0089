-- ===== src/Stats/Stat.antt =====
-- pkg/stats/interface_counters.go: the labelled counters that a backend reports (common.Stat).
use pasarguard_node.Prelude.{String, List, [], ◌∷◌, ◌++◌, ◌&&◌, nat_beq, if◌then◌else◌}
use pasarguard_node.Int64.{Int64, slt}

pub record Stat : Type 0 where
  pub name : String
  pub direction : String
  pub link : String
  pub value : Int64

-- One direction of a pair of counters, left out unless it is positive.
unfoldable pub direction_stat : String → String → String → Int64 → List Stat
direction_stat direction name link value =
    if slt 0 value
    then record { name = name; direction = direction; link = link; value = value } ∷ []
    else []

-- buildDeltaStats
unfoldable pub build_delta_stats : String → String → Int64 → Int64 → List Stat
unfolding direction_stat
build_delta_stats name link rx tx =
    if nat_beq rx 0 && nat_beq tx 0
    then []
    else direction_stat "uplink" name link rx ++ direction_stat "downlink" name link tx
