-- ===== src/HostDashboard/Selecting.antt =====
-- The panel fills the page only for a container.
use wiremap.Base.{◌≡◌, refl, true, List, [], ◌∷◌, arith, if_elim}
use wiremap.HostDashboard.{Event, HostDashboard, is_selected, mounted, run, step}

abbrev pub IsFilled : HostDashboard → Type 0
IsFilled s = s.panel_expanded ≡ true → is_selected s.selected_container_id ≡ true

step-IsFilled : (e : Event) (s : HostDashboard) → IsFilled s → IsFilled (step e s)
unfolding step
step-IsFilled (Event.select id) s h =
    if_elim IsFilled (is_selected id) _ _ (λ e q. e) (λ e q. absurd (ground (arith, q)))
step-IsFilled (Event.replaced c id) s h =
    if_elim IsFilled (is_selected s.selected_container_id) _ _ (λ e q. refl) (λ e. h)
step-IsFilled Event.closed s h =
    if_elim IsFilled (is_selected s.selected_container_id) _ _ (λ e q. absurd (ground (arith, q)))
      (λ e. h)
step-IsFilled Event.toggled s h =
    if_elim IsFilled (is_selected s.selected_container_id) _ _ (λ e q. e) (λ e. h)
step-IsFilled (Event.view_chosen m) s h = h

run-IsFilled : (es : List Event) (s : HostDashboard) → IsFilled s → IsFilled (run es s)
unfolding run
run-IsFilled [] s h = h
run-IsFilled (e ∷ es) s h = run-IsFilled es (step e s) (step-IsFilled e s h)

-- However containers are selected, replaced and closed, the side panel fills the page only while a
-- container is selected.
pub mounted-IsFilled : (es : List Event) → IsFilled (run es mounted)
unfolding mounted
mounted-IsFilled es = run-IsFilled es mounted (λ q. absurd (ground (arith, q)))
