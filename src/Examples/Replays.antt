-- ===== src/Examples/Replays.antt =====
-- A replay of that spool whose second send fails, and a round of collection behind it.
use metalwatch.Base.{◌≢◌, Bool, true, false, some, List, [], ◌∷◌}
use metalwatch.Spool.Replay.{backlog}
use metalwatch.Stream.{drain, unfinished}
use metalwatch.Stream.Rounds.{Prefix}
use metalwatch.Stream.Replay.{drain-at_least_once}
use metalwatch.Stream.Collect.{Session}
use metalwatch.Examples.Memory.{memory, numbers}
use metalwatch.Examples.Queues.{queue}

-- The view and the deletion of the broken entry succeed, then the first send; the second fails.
abbrev fate : List Bool
fate = true ∷ true ∷ true ∷ false ∷ true ∷ []

abbrev session : Session memory numbers
session = record { spool = some queue; connected = true; sent = []; outcomes = fate }

drain-at_least_once_example :
    Prefix memory numbers (backlog memory numbers queue) [] (drain memory numbers queue [] fate)
    × ((drain memory numbers queue [] fate).result ≢ unfinished)
drain-at_least_once_example = drain-at_least_once memory numbers queue [] fate
