-- ===== src/Dashboard/Filled.antt =====
-- The canvas is never blank: where the dashboard has no placeholder it shows a node.
use wiremap.Base.{
  ◌≡◌, ◌≢◌, refl, sym, ◌∙◌, inl, inr, ◌⊎◌, Bool, true, false, not, ◌&&◌, ◌||◌, Option, none, some,
  List, [], ◌∷◌, ◌++◌, Text, codes, arith, Bool-cases, ltb, length, eq_of_some, not_none-some,
  if◌then◌else◌, text_eq, same_text,
}
use wiremap.Route.{KubeRoute, is_truthy}
use wiremap.Navigation.{last?, root_view, root_view_by, view}
use wiremap.KubeTypes.{KubeGraph, KubeKind, KubeRoot, KubeView}
use wiremap.Polling.{KubeTopology, topology_loading}
use wiremap.Objects.{loading}
use wiremap.Dashboard.{Dashboard}
use wiremap.Dashboard.Shown.{
  Loaded, error, error_or, find_kind, graph, is_kind, is_loading, is_none, kind_name, list_graph,
  listing, placeholder, shown_graph, visible, when_empty,
}

if-none :
    {A : Type 0} (b : Bool) (x : A) (o : Option A)
    → (if b then some x else o) ≡ none
    → (b ≡ false) × (o ≡ none)
if-none true x o e = absurd (not_none-some (sym e))
if-none false x o e = (refl, e)

error_or-none :
    (e o : Option Text) → error_or e o ≡ none → (o ≡ none) × ((e ≡ none) ⊎ (e ≡ some []))
unfolding same_text
error_or-none none o h = (h, inl refl)
error_or-none (some []) o h = (h, inr refl)
error_or-none (some (c ∷ t)) o h = absurd (not_none-some (sym h))

both_false : (a b : Bool) → a || b ≡ false → (a ≡ false) × (b ≡ false)
both_false a b h = ground arith

append-not_nil : (t : Text) (s : Text) → s ≢ [] → t ++ s ≢ []
append-not_nil [] s h e = h e
append-not_nil (c ∷ t) s h e = ground arith

list_graph-some :
    (age lower : Text → Text) (l : Loaded) (k : Option KubeKind)
    → is_none k ≡ false
    → loading l.objects ≡ false
    → list_graph age lower k l ≢ none
list_graph-some age lower l none h e n = ground (arith, h)
list_graph-some age lower l (some k) h e n = not_none-some (sym (rw e at n))

topology-some :
    (v : Option KubeView) (t : KubeTopology)
    → v ≢ none
    → topology_loading v t ≡ false
    → t.error ≡ none
    → t.graph ≢ none
unfolding topology_loading
topology-some none t h e f n = h refl
topology-some (some v) t h e f n = ground (arith, rw (n, f) at e)

abbrev missing_text : Loaded → Text
missing_text l = kind_name l.route.root ++ codes " is not served by this cluster"

abbrev sought : Loaded → Option KubeKind
sought l = find_kind l.route.root l.kinds

module _ (l : Loaded) (y : listing l ≡ true) where
  error-listed : error l ≡ (
      if not l.kinds_loading && is_none (sought l) then some (missing_text l) else l.objects.error)
  unfolding error
  error-listed = rw y refl

  is_loading-listed : is_loading l ≡ l.kinds_loading || loading l.objects
  unfolding is_loading
  is_loading-listed = rw y refl

last-some : (vs : List KubeView) → ltb 0 (length vs) ≡ true → last? vs ≢ none
last-some [] h e = ground (arith, h)
last-some (v ∷ []) h e = not_none-some (sym e)
last-some (v ∷ w ∷ vs) h e = last-some (w ∷ vs) (ground arith) e

root_view_by-none : (r : KubeRoot) (ns : Text) → root_view_by r ns ≡ none → is_kind r ≡ true
root_view_by-none KubeRoot.overview ns e = elim (Bool-cases (is_truthy ns)) [
  | inl h ↦ absurd (not_none-some (sym (rw h at e)))
  | inr h ↦ absurd (not_none-some (sym (rw h at e)))
]
root_view_by-none (KubeRoot.lens l) ns e = absurd (not_none-some (sym e))
root_view_by-none (KubeRoot.kind g k) ns e = refl

root_view-none : (r : KubeRoute) → root_view r ≡ none → is_kind r.root ≡ true
unfolding root_view
root_view-none r e = root_view_by-none r.root r.namespace e

-- Only the root of a kind has no view.
view-none : (r : KubeRoute) → view r ≡ none → is_kind r.root ≡ true
unfolding view
view-none r e = elim (Bool-cases (ltb 0 (length r.drills))) [
  | inl h ↦ absurd (last-some r.drills h (rw h at e))
  | inr h ↦ root_view-none r (rw h at e)
]

listing-kind : (l : Loaded) → (view l.route) ≡ none → is_kind l.route.root ≡ true → listing l ≡ true
unfolding listing
listing-kind l v k = rw (v, k) refl

-- A served kind that is listed is there, or the error has a message.
sought-some :
    (waits : Bool) (k : Option KubeKind) (text : Text) (other e : Option Text)
    → waits ≡ false
    → e ≡ (if not waits && is_none k then some text else other)
    → text ≢ []
    → (e ≡ none) ⊎ (e ≡ some [])
    → is_none k ≡ false
sought-some waits (some k) text other e w q t h = refl
sought-some true none text other e w q t h = absurd (ground (arith, w))
sought-some false none text other e w q t (inl h) = absurd (not_none-some (sym h ∙ q))
sought-some false none text other e w q t (inr h) = absurd (t (eq_of_some (sym q ∙ h)))

module _ (age lower : Text → Text) (l : Loaded) (no_message : l.topology.error ≢ some []) where
  listed-some :
      listing l ≡ true
      → is_loading l ≡ false
      → (error l ≡ none) ⊎ (error l ≡ some [])
      → graph age lower l ≢ none
  unfolding graph
  listed-some y h e n =
      let (w, o) =
        both_false l.kinds_loading (loading l.objects) (sym (is_loading-listed l y) ∙ h) in
      let found =
        sought-some l.kinds_loading (sought l) (missing_text l) l.objects.error (error l) w
          (error-listed l y) (append-not_nil (kind_name l.route.root) _ (λ q. ground arith)) e in
      list_graph-some age lower l (sought l) found o (rw y at n)

  unlisted-some :
      listing l ≡ false
      → is_loading l ≡ false
      → (error l ≡ none) ⊎ (error l ≡ some [])
      → graph age lower l ≢ none
  unfolding graph error is_loading
  unlisted-some y h e n =
      topology-some (view l.route) l.topology
        (λ v. ground (arith, sym (listing-kind l v (view-none l.route v)) ∙ y)) (rw y at h)
        (elim e [ inl q ↦ rw y at q | inr q ↦ absurd (no_message (rw y at q)) ]) (rw y at n)

  -- A graph without nodes has a placeholder.
  when_empty-none :
      (shown : Option KubeGraph) (filter : Text)
      → shown ≢ none
      → when_empty shown filter ≡ none
      → (g : KubeGraph) × (shown ≡ some g) × (g.nodes ≢ [])
  when_empty-none none filter h e = absurd (h refl)
  when_empty-none (some g) filter h e = (g, refl, λ q. not_none-some (sym (rw q at e)))

  visible-some : (o : Option KubeGraph) (s : Dashboard) → o ≢ none → visible age lower o s ≢ none
  visible-some none s h e = h refl
  visible-some (some g) s h e = not_none-some (sym e)

  graph-some :
      is_loading l ≡ false → (error l ≡ none) ⊎ (error l ≡ some []) → graph age lower l ≢ none
  graph-some h e = elim (Bool-cases (listing l)) [
    | inl y ↦ listed-some y h e
    | inr y ↦ unlisted-some y h e
  ]

  -- Let an error of the topology have a message. Then the dashboard is never blank, at any route: where it shows no placeholder it draws a graph with a node,
  -- whatever is loading, missing, filtered or refused.
  pub placeholder-none :
      (s : Dashboard)
      → placeholder l (shown_graph age lower l s) s.filter ≡ none
      → (g : KubeGraph) × (shown_graph age lower l s ≡ some g) × (g.nodes ≢ [])
  unfolding placeholder
  placeholder-none s h =
      let (rest, e) = error_or-none (error l) _ h in
      let (settled, filled) = if-none (is_loading l) _ _ rest in
      when_empty-none (shown_graph age lower l s) s.filter
        (unfold shown_graph in visible-some (graph age lower l) s (graph-some settled e)) filled
