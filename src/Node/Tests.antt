-- ===== src/Node/Tests.antt =====
-- The reports about a node that goes away twice and comes back once.
use tunploy.Common.{◌≡◌, true, false, List, [], ◌∷◌}
use tunploy.Common.Text.{codes}
use tunploy.Node.{went_offline, came_online, Session, refused, dropped, new_loop, run, is_online}
use tunploy.Node.Reports.{TakesTurns, run-TakesTurns}

abbrev sessions : List Session
sessions =
    dropped (codes "docker") 1 (2 ∷ []) 3
    ∷ refused (codes "no route") 4
    ∷ refused (codes "no route") 9
    ∷ dropped (codes "docker") 20 [] 30
    ∷ refused (codes "no route") 31
    ∷ []

run-TakesTurns_example :
    let end = run sessions (new_loop (codes "berlin") 0) in
    TakesTurns false end.conn.events end.conn.reported_down
    × (is_online end.conn.status.state ≡ true → end.conn.reported_down ≡ false)
    × (end.conn.events
        ≡ went_offline (codes "berlin") (codes "no route")
          ∷ came_online (codes "berlin")
          ∷ went_offline (codes "berlin") (codes "no route")
          ∷ [])
    × (end.waits ≡ 5_000_000_000 ∷ 10_000_000_000 ∷ 5_000_000_000 ∷ [])
run-TakesTurns_example = run-TakesTurns (codes "berlin") 0 sessions
