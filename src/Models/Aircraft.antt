-- ===== src/Models/Aircraft.antt =====
-- `PilotType` of internal/models/pilot.go, a byte, with the speed limits of
-- internal/models/validation.go.
use flybeeper_com_map_fanet.Prelude.{ℕ, if◌then◌else◌, ◌==◌}

abbrev pub paraglider : ℕ
paraglider = 1

abbrev pub hangglider : ℕ
hangglider = 2

abbrev pub balloon : ℕ
balloon = 3

abbrev pub glider : ℕ
glider = 4

abbrev pub powered : ℕ
powered = 5

abbrev pub helicopter : ℕ
helicopter = 6

abbrev pub uav : ℕ
uav = 7

-- In whole km/h.
unfoldable pub max_speed_by_type : ℕ → ℕ
max_speed_by_type type =
    if type == paraglider
    then 80
    else if type == hangglider
    then 120
    else if type == powered
    then 1000
    else if type == glider
    then 300
    else if type == balloon
    then 60
    else if type == helicopter
    then 300
    else if type == uav
    then 100
    else 100
