-- ===== src/Topology/Links.antt =====
-- The links between containers, TopologyCanvas.vm.ts.
use wiremap.Base.{
  ℕ, suc, ◌+◌, ◌*◌, ◌≡◌, refl, sym, ap, ◌∙◌, true, List, [], ◌∷◌, ◌++◌, map, keep, length,
  length-append, length-map, arith, Text, All, All-append, includes, subst,
}
use native.Mathlib.Nat.{suc-mul, mul-suc}
use wiremap.DockerTypes.{ContainerInfo, NetworkInfo}
use wiremap.Containers.{member_ids}
use wiremap.Topology.{
  topology_ids, topology_nodes, TopologyLink, ids_in, links_among, topology_links,
}
use wiremap.Graphs.Visible.{All-keep}

-- Both ends are among the ids.
abbrev pub HasEnds : List Text → TopologyLink → Type 0
HasEnds ids l = (includes l.source ids ≡ true) × (includes l.target ids ≡ true)

links_from-HasEnds :
    (ids : List Text) (network x : Text) (xs : List Text)
    → includes x ids ≡ true
    → All (λ y. includes y ids ≡ true) xs
    → All (HasEnds ids) (map (λ y. record { source = x; target = y; network = network }) xs)
links_from-HasEnds ids network x [] h k = tt
links_from-HasEnds ids network x (y ∷ ys) h k =
    ((h, k.0), links_from-HasEnds ids network x ys h k.1)

links_among-HasEnds :
    (ids : List Text) (network : Text) (xs : List Text)
    → All (λ y. includes y ids ≡ true) xs
    → All (HasEnds ids) (links_among network xs)
unfolding links_among
links_among-HasEnds ids network [] h = tt
links_among-HasEnds ids network (x ∷ xs) h =
    All-append (HasEnds ids) _ _ (links_from-HasEnds ids network x xs h.0 h.1)
      (links_among-HasEnds ids network xs h.1)

square : (n : ℕ) → suc n * suc n ≡ n * n + n + suc n
square n = suc-mul n (suc n) ∙ ap (λ k. k + suc n) (mul-suc n n)

-- Twice the number of links among `n` ids is `n * n - n`.
length-links_among :
    (network : Text) (xs : List Text)
    → 2 * length (links_among network xs) + length xs ≡ length xs * length xs
unfolding links_among
length-links_among network [] = refl
length-links_among network (x ∷ xs) =
    let links : List TopologyLink =
      map (λ y. record { source = x; target = y; network = network }) xs in
    let whole = length-append links (links_among network xs) in
    let first : length links ≡ length xs = length-map _ xs in
    omega (arith, whole, first, length-links_among network xs, square (length xs))

module _ (ids : List Text) where
  no_links :
      (net : NetworkInfo) (rest : List TopologyLink)
      → net.containers ≡ []
      → links_among net.name (ids_in ids net) ++ rest ≡ rest
  unfolding ids_in links_among
  no_links net rest e =
      ap (λ ms. links_among net.name (keep (λ id. includes id ids) (member_ids ms)) ++ rest) e

  topology_links-cons :
      (net : NetworkInfo) (nets : List NetworkInfo)
      → topology_links ids (net ∷ nets)
        ≡ links_among net.name (ids_in ids net) ++ topology_links ids nets
  unfolding topology_links
  topology_links-cons net nets =
      elim net.containers
          as (λ ms.
            net.containers ≡ ms
            → (elim ms [
              | [] ↦ topology_links ids nets
              | x ∷ xs ↦ links_among net.name (ids_in ids net) ++ topology_links ids nets
            ])
              ≡ links_among net.name (ids_in ids net) ++ topology_links ids nets) [
                | [] ↦ λ e. sym (no_links net (topology_links ids nets) e)
                | x ∷ xs ↦ λ e. refl
              ]
        refl

  links-HasEnds : (nets : List NetworkInfo) → All (HasEnds ids) (topology_links ids nets)
  links-HasEnds [] = unfold topology_links in tt
  links-HasEnds (net ∷ nets) = subst (All (HasEnds ids)) (sym (topology_links-cons net nets)) (
      All-append (HasEnds ids) _ _
        (links_among-HasEnds ids net.name (ids_in ids net)
          (unfold ids_in in All-keep (λ id. includes id ids) (member_ids net.containers)))
        (links-HasEnds nets))

-- Every link of the topology has both its ends among the nodes. A network with `n` of the containers
-- adds `n * (n - 1) / 2` links, one for each pair of them.
pub topology_links-HasEnds :
    (containers : List ContainerInfo) (net : NetworkInfo) (nets : List NetworkInfo)
    → let ids = topology_ids (topology_nodes containers) in
      let n = length (ids_in ids net) in
      All (HasEnds ids) (topology_links ids (net ∷ nets))
      × (2 * length (topology_links ids (net ∷ nets)) + n
          ≡ n * n + 2 * length (topology_links ids nets))
topology_links-HasEnds containers net nets =
    let ids = topology_ids (topology_nodes containers) in
    let whole : length (topology_links ids (net ∷ nets))
        ≡ length (links_among net.name (ids_in ids net)) + length (topology_links ids nets) =
      ap length (topology_links-cons ids net nets) ∙ length-append _ _ in
    (
      links-HasEnds ids (net ∷ nets),
      omega (arith, whole, length-links_among net.name (ids_in ids net)),
    )
