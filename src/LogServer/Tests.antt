-- ===== src/LogServer/Tests.antt =====
-- Instances for the hook of nwep/src/logserver.rs.
use nwep_rs.Base.{ℕ, ◌≡◌, ◌⊎◌, true, false, none, some, List, [], ◌∷◌, ◌++◌}
use nwep_rs.Lifecycle.{Handle, replay, fresh}
use nwep_rs.LogServer.{drop, Op, appends, dispatches, perform_all}
use nwep_rs.LogServer.Hooks.{made, perform_all-follows, drop_lem}

abbrev hooked : List Op
hooked = appends ∷ dispatches ∷ appends ∷ []

perform_all-follows_example :
    (h : Handle) × (replay fresh (perform_all made hooked).1 ≡ some h)
    × (h.is_open ≡ true)
    × (h.installed ≡ (perform_all made hooked).0.hook)
perform_all-follows_example = perform_all-follows hooked

drop_lem_example :
    let (s, events) = perform_all made hooked in
    ((h : Handle) × (s.hook ≡ none)
      × (replay fresh (events ++ drop s) ≡ some h)
      × (h.is_open ≡ false))
    ⊎ ((b : ℕ) × (s.hook ≡ some b) × (replay fresh (events ++ drop s) ≡ none))
drop_lem_example = drop_lem hooked
