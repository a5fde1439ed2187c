-- ===== src/Resizing/Tests.antt =====
-- A drag of the handle, and the theorems at it.
use wiremap.Base.{◌≡◌, ◌≤◌, refl, false, none, some, List, [], ◌∷◌, codes}
use wiremap.Resizing.{Input, load_panel_width, max_width, min_width, mounted, run, step}
use wiremap.Resizing.Width.{mounted-IsWidth, mounted-released}
use wiremap.Format.{decimal}

-- The handle is held at 900, and goes left until it is stopped.
abbrev drag : List Input
drag = Input.pressed 900 ∷ Input.moved 700 ∷ Input.moved 0 ∷ Input.moved 100 ∷ []

drag_width : (run drag (mounted (some (codes "500px")))).width ≡ 1100
unfolding run mounted
drag_width = refl

too_wide : load_panel_width (some (codes "1201")) ≡ 480
unfolding load_panel_width
too_wide = refl

mounted-IsWidth_example :
    (min_width ≤ (run drag (mounted none)).width) × ((run drag (mounted none)).width ≤ max_width)
mounted-IsWidth_example = mounted-IsWidth none drag

mounted-released_example : mounted (step Input.released (run drag (mounted none))).stored ≡ record {
  width = (run drag (mounted none)).width;
  expanded = false;
  stored = some (decimal (run drag (mounted none)).width);
  held = false;
  start_x = 0;
}
mounted-released_example = mounted-released none drag (unfold run mounted in refl)
