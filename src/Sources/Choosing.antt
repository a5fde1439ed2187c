-- ===== src/Sources/Choosing.antt =====
-- Which source is selected when the hosts and clusters are known.
use wiremap.Base.{◌≡◌, ◌⊎◌, true, Option, none, some, List, [], ◌∷◌, map, Text, text_eq}
use wiremap.Route.{KubeRoute}
use wiremap.Sources.{Source, linked}

abbrev ids : List Source → List Text
ids = map (λ s. s.id)

-- `s` is one of the sources.
abbrev IsAmong : Source → List Source → Type 0
IsAmong s [] = ⊥
IsAmong s (x ∷ xs) = (x ≡ s) ⊎ IsAmong s xs

-- What is chosen where a source is connected.
abbrev pub IsChosen : Option KubeRoute → List Source → Source → Type 0
IsChosen route xs s = (s.connected ≡ true) × ((linked route xs ≡ some s) ⊎ (linked route xs ≡ none))
