-- ===== src/Realms/RouteTests.antt =====
-- A connection with one route, in a page that can be read.
use darktide_mods.Base.{refl, arith, ◌==◌, none, some, if◌then◌else◌, ltb}
use darktide_mods.InternalUtils.Memory.{Memory}
use darktide_mods.InternalUtils.Ranges.{Query}
use darktide_mods.InternalUtils.Ranges.Committed.{IsQuery}
use darktide_mods.Realms.Routes.{resolve_peer_reply_route}
use darktide_mods.Realms.Routes.Reads.{Ends}
use darktide_mods.Realms.Routes.Ends.{IsRoute, resolve_peer_reply_route-Ends}

abbrev one_page : Query
one_page a =
    if ltb a 4096
    then none
    else if ltb a 8192
    then some record { base = 4096; size = 4096; state = 4096; protect = 4 }
    else none

one_page-IsQuery : IsQuery one_page
one_page-IsQuery = record {
  holds = λ a r e. ground (arith, e);
  alike = λ a b r e low high. (r, ground (arith, e, low, high), refl, refl);
}

-- The transport at 4608, its one route at 5120, of peer 9 and family 23.
abbrev game_memory : Memory
game_memory a =
    if a == 4185
    then 18
    else if a == 4736
    then 1
    else if a == 4740
    then 4
    else if a == 4745
    then 20
    else if a == 5120
    then 9
    else if a == 5128
    then 23
    else 0

resolve_peer_reply_route_example :
    Ends
      (IsRoute one_page game_memory 4096 9)
      (resolve_peer_reply_route one_page game_memory 4096 9)
resolve_peer_reply_route_example =
    resolve_peer_reply_route-Ends one_page one_page-IsQuery game_memory 9 4096
