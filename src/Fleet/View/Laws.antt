-- ===== src/Fleet/View/Laws.antt =====
-- The presentation helpers of internal/fleet/view.go.
use grex.Base.{◌≡◌, false, some, Str, lookup, arith}
use grex.Fleet.Types.{Agent}
use grex.Fleet.View.{attr, display_name_of, is_empty}

-- A name is shown for every agent that has an id.
pub display_name-nonempty :
    (a : Agent) → is_empty a.instance_uid ≡ false → is_empty (display_name_of a) ≡ false
unfolding display_name_of
display_name-nonempty a h = ground arith

-- An identifying attribute shadows a non-identifying one of the same key.
pub attr_shadows : (a : Agent) (key v : Str) → lookup key a.identifying ≡ some v → attr a key ≡ v
unfolding attr
attr_shadows a key v h = rw h
