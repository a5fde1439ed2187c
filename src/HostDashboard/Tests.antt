-- ===== src/HostDashboard/Tests.antt =====
-- A container is selected, its panel enlarged, and it is replaced.
use wiremap.Base.{◌≡◌, refl, true, none, some, [], ◌∷◌, codes}
use wiremap.HostDashboard.{Event, mounted, run}

replaced :
    (run
      (Event.select (some (codes "a")) ∷ Event.toggled ∷ Event.replaced b'b' [] ∷ [])
      mounted).panel_expanded
    ≡ true
unfolding run mounted
replaced = refl

closes :
    (run
      (Event.select (some (codes "a")) ∷ Event.toggled ∷ Event.closed ∷ Event.toggled ∷ [])
      mounted).selected_container_id
    ≡ none
unfolding run mounted
closes = refl
