-- ===== src/Cache/Tests.antt =====
-- An instance for the caches that clients of nwep/src/client.rs share.
use nwep_rs.Base.{pos, ◌≡◌, refl, false, some, List, [], ◌∷◌}
use nwep_rs.Lifecycle.{contains}
use nwep_rs.Cache.Shared.{
  Op, makes_cache, opens_client, sets, slot_at, perform_all, empty, perform, set_cache, drop_rc,
}
use nwep_rs.Cache.Lifetime.{perform_all-attached}

-- A client is given a cache, and then another one; the program keeps neither.
abbrev two_caches : List Op
two_caches =
    opens_client
    ∷ makes_cache
    ∷ sets 0 (some 0) (pos 0)
    ∷ makes_cache
    ∷ sets 0 (some 1) (pos 0)
    ∷ []

second_attached : (slot_at 0 (perform_all two_caches empty).clients).attached ≡ some 1
unfolding perform_all perform set_cache drop_rc
second_attached = refl

first_freed : (perform_all two_caches empty).freed ≡ 0 ∷ []
unfolding perform_all perform set_cache drop_rc
first_freed = refl

perform_all-attached_example :
    ((slot_at 0 (perform_all two_caches empty).clients).held ≡ some 1)
    × (contains 1 (perform_all two_caches empty).freed ≡ false)
perform_all-attached_example = perform_all-attached two_caches 0 1 second_attached
