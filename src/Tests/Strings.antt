-- ===== src/Tests/Strings.antt =====
-- The string routines on small buffers.
use os_lab.Prelude.{◌≡◌, refl, false, some, [], ◌∷◌}
use os_lab.Misc.{matches_one}

no_match : matches_one 97 (98 ∷ 0 ∷ []) ≡ some false
unfolding matches_one
no_match = refl
