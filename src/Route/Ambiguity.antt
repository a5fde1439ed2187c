-- ===== src/Route/Ambiguity.antt =====
-- The kind roots that a hash cannot carry.
use wiremap.Base.{
  ◌≡◌, ◌≢◌, refl, ◌∙◌, ap, some, List, [], ◌∷◌, ◌++◌, map, Text, codes, All-append, split, join,
  same_text, arith,
}
use wiremap.Uri.{encode_uri_component}
use wiremap.KubeTypes.{KubeRoot, RootLens}
use wiremap.Route.{
  prefix, all_namespaces, KubeRoute, root_of, route_of_segments, Outcome, parse_kube_hash,
  root_segment, to_kube_hash,
}
use wiremap.Route.Laws.{IsText, is_truthy_iff, parse-write}

-- The overview and the lenses, which are spelled by a word.
abbrev pub IsWord : KubeRoot → Type 0
IsWord KubeRoot.overview = Unit
IsWord (KubeRoot.lens l) = Unit
IsWord (KubeRoot.kind group kind) = ⊥

abbrev pub at_root : Text → KubeRoot → KubeRoute
at_root cluster root = record { cluster = cluster; namespace = []; root = root; drills = [] }

abbrev pub segments_hash : List Text → Text
segments_hash ss = prefix ++ join b'/' (map encode_uri_component ss)

abbrev pub dotted : KubeRoot → Text
dotted root = root_segment root ++ codes "."

word-IsText : (root : KubeRoot) → IsWord root → IsText (root_segment root)
word-IsText KubeRoot.overview h = ground arith
word-IsText (KubeRoot.lens RootLens.nodes) h = ground arith
word-IsText (KubeRoot.lens RootLens.storage) h = ground arith
word-IsText (KubeRoot.lens RootLens.access) h = ground arith
word-IsText (KubeRoot.kind group kind) h = absurd h

root_of-word :
    (root : KubeRoot)
    → IsWord root
    → (root_of (root_segment root) ≡ root)
      × (root_of (dotted root) ≡ KubeRoot.kind [] (root_segment root))
unfolding root_of same_text split join
root_of-word KubeRoot.overview h = (refl, refl)
root_of-word (KubeRoot.lens RootLens.nodes) h = (refl, refl)
root_of-word (KubeRoot.lens RootLens.storage) h = (refl, refl)
root_of-word (KubeRoot.lens RootLens.access) h = (refl, refl)
root_of-word (KubeRoot.kind group kind) h = absurd h

parse-root :
    (cluster segment : Text)
    → IsText cluster
    → cluster ≢ []
    → IsText segment
    → parse_kube_hash (segments_hash (cluster ∷ all_namespaces ∷ segment ∷ []))
      ≡ Outcome.returns (some (at_root cluster (root_of segment)))
parse-root cluster segment h n k =
    parse-write cluster (all_namespaces ∷ segment ∷ []) (h, (ground arith, (k, tt)))
    ∙ ap Outcome.returns (unfold route_of_segments same_text in (rw (is_truthy_iff cluster n)))

-- The hash of a cluster whose root segment is a word with a dot at its end, such as "nodes.", is
-- read as the kind of that name, without a group; and the hash that is written for this route
-- reads as the root that the word names.
pub dotted_word :
    (cluster : Text) (root : KubeRoot)
    → IsText cluster
    → cluster ≢ []
    → IsWord root
    → (parse_kube_hash (segments_hash (cluster ∷ all_namespaces ∷ dotted root ∷ []))
        ≡ Outcome.returns (some (at_root cluster (KubeRoot.kind [] (root_segment root)))))
      × (parse_kube_hash (to_kube_hash (at_root cluster (KubeRoot.kind [] (root_segment root))))
          ≡ Outcome.returns (some (at_root cluster root)))
unfolding to_kube_hash same_text
dotted_word cluster root h n w =
    let (plain, with_dot) = root_of-word root w in
    let text = word-IsText root w in
    (
      rw (← with_dot) (parse-root cluster (dotted root) h n (All-append _ _ _ text (ground arith))),
      parse-root cluster (root_segment root) h n text
          ∙ ap (λ r. Outcome.returns (some (at_root cluster r))) plain,
    )
