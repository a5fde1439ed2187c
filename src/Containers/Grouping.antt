-- ===== src/Containers/Grouping.antt =====
-- Where a container is listed, ContainerList.vm.ts.
use wiremap.Base.{
  ◌⊎◌, ◌≡◌, refl, ap, ◌∙◌, inl, inr, Bool, true, false, not, ◌&&◌, ◌||◌, none, some, List, [], ◌∷◌,
  ◌++◌, keep, arith, Text, includes, includes-append, includes-keep, includes-dropped, Bool-cases,
  same_text, same_text_iff, text_eq,
}
use wiremap.DockerTypes.{ContainerInfo, NetworkInfo}
use wiremap.Containers.{
  NetworkGroup, add_group, assigned_ids, container_ids, get_container, groups, member_ids,
  net_containers, ungrouped,
}

-- The containers of all groups.
abbrev pub grouped : List NetworkGroup → List ContainerInfo
grouped [] = []
grouped (g ∷ gs) = g.containers ++ grouped gs

container_ids-append :
    (xs ys : List ContainerInfo) → container_ids (xs ++ ys) ≡ container_ids xs ++ container_ids ys
container_ids-append [] ys = refl
container_ids-append (x ∷ xs) ys = ap (λ t. x.id ∷ t) (container_ids-append xs ys)

grouped-add_group :
    (net : NetworkInfo) (cs : List ContainerInfo) (gs : List NetworkGroup)
    → grouped (add_group net cs gs) ≡ cs ++ grouped gs
grouped-add_group net [] gs = refl
grouped-add_group net (c ∷ cs) gs = refl

-- A container is found for an id exactly if one has it, and then it has it.
get_container-cases :
    (cs : List ContainerInfo) (id : Text)
    → ((get_container cs id ≡ none) × (includes id (container_ids cs) ≡ false))
      ⊎ ((c : ContainerInfo) × (get_container cs id ≡ some c)
          × (c.id ≡ id)
          × (includes id (container_ids cs) ≡ true))
get_container-cases [] id = inl (refl, refl)
get_container-cases (d ∷ cs) id = elim (get_container-cases cs id) [
  | inr (c, e, i, f) ↦ inr (c, rw e, i, ground (arith, f))
  | inl (e, f) ↦ elim (Bool-cases (same_text d.id id)) [
    | inl h ↦ inr (d, rw (e, h), (same_text_iff d.id id).0 h, rw h)
    | inr h ↦ inl (rw (e, h), rw (h, f))
  ]
]

net_containers-none :
    (cs : List ContainerInfo) (id : Text) (ids : List Text)
    → get_container cs id ≡ none
    → net_containers cs (id ∷ ids) ≡ net_containers cs ids
unfolding net_containers
net_containers-none cs id ids e =
    ap (λ o. elim o [ none ↦ net_containers cs ids | some d ↦ d ∷ net_containers cs ids ]) e

net_containers-some :
    (cs : List ContainerInfo) (id : Text) (ids : List Text) (c : ContainerInfo)
    → get_container cs id ≡ some c
    → net_containers cs (id ∷ ids) ≡ c ∷ net_containers cs ids
unfolding net_containers
net_containers-some cs id ids c e =
    ap (λ o. elim o [ none ↦ net_containers cs ids | some d ↦ d ∷ net_containers cs ids ]) e

ids-net_containers :
    (cs : List ContainerInfo) (ids : List Text)
    → container_ids (net_containers cs ids) ≡ keep (λ id. includes id (container_ids cs)) ids
unfolding net_containers
ids-net_containers cs [] = refl
ids-net_containers cs (id ∷ ids) = elim (get_container-cases cs id) [
  | inl (e, f) ↦
      rw f (ap container_ids (net_containers-none cs id ids e) ∙ ids-net_containers cs ids)
  | inr (c, e, i, f) ↦ rw f (
      ap container_ids (net_containers-some cs id ids c e)
      ∙ ap (λ t. c.id ∷ t) (ids-net_containers cs ids)
      ∙ ap (λ t. t ∷ keep (λ y. includes y (container_ids cs)) ids) i)
]

ids-grouped :
    (cs : List ContainerInfo) (nets : List NetworkInfo)
    → container_ids (grouped (groups cs nets)) ≡ assigned_ids cs nets
unfolding groups assigned_ids
ids-grouped cs [] = refl
ids-grouped cs (net ∷ nets) =
    let found = net_containers cs (member_ids net.containers) in
    ap container_ids (grouped-add_group net found (groups cs nets))
    ∙ container_ids-append found (grouped (groups cs nets))
    ∙ ap (λ t. t ++ container_ids (grouped (groups cs nets)))
        (ids-net_containers cs (member_ids net.containers))
    ∙ ap (λ t. keep (λ id. includes id (container_ids cs)) (member_ids net.containers) ++ t)
        (ids-grouped cs nets)

assigned-includes :
    (cs : List ContainerInfo) (nets : List NetworkInfo) (x : Text)
    → includes x (container_ids cs) ≡ false
    → includes x (assigned_ids cs nets) ≡ false
unfolding assigned_ids
assigned-includes cs [] x h = refl
assigned-includes cs (net ∷ nets) x h =
    includes-append x (keep (λ id. includes id (container_ids cs)) (member_ids net.containers))
      (assigned_ids cs nets)
    ∙ rw
        (
          includes-dropped (λ id. includes id (container_ids cs)) x (member_ids net.containers) h,
          assigned-includes cs nets x h,
        )
        refl

ids-keep :
    (p : Text → Bool) (cs : List ContainerInfo)
    → container_ids (keep (λ (c : ContainerInfo). p c.id) cs) ≡ keep p (container_ids cs)
ids-keep p [] = refl
ids-keep p (c ∷ cs) = elim (Bool-cases (p c.id)) [
  | inl e ↦ rw e (ap (λ t. c.id ∷ t) (ids-keep p cs))
  | inr e ↦ rw e (ids-keep p cs)
]

split_by :
    (a b : List Text) (x : Text)
    → (includes x b ≡ false → includes x a ≡ false)
    → (includes x b ≡ includes x a || includes x (keep (λ y. not (includes y a)) b))
      × (includes x a && includes x (keep (λ y. not (includes y a)) b) ≡ false)
split_by a b x h = elim (Bool-cases (includes x a)) [
  | inl e ↦
      rw (includes-dropped (λ y. not (includes y a)) x b (ap not e), e)
        (whole (Bool-cases (includes x b)) e, refl)
  | inr e ↦ rw (includes-keep (λ y. not (includes y a)) x b (ap not e), e) (refl, refl)
]
  where
    whole :
        (includes x b ≡ true) ⊎ (includes x b ≡ false) → includes x a ≡ true → includes x b ≡ true
    whole (inl k) e = k
    whole (inr k) e = absurd (ground (arith, e, h k))

-- A container of the filtered list is in a group or among the ungrouped ones, as told by its id, and
-- not in both; and no other container is in either.
pub groups-ungrouped :
    (cs : List ContainerInfo) (nets : List NetworkInfo) (id : Text)
    → (includes id (container_ids cs)
        ≡ includes id (container_ids (grouped (groups cs nets)))
          || includes id (container_ids (ungrouped cs nets)))
      × (includes id (container_ids (grouped (groups cs nets)))
            && includes id (container_ids (ungrouped cs nets))
          ≡ false)
unfolding ungrouped
groups-ungrouped cs nets id =
    rw (ids-grouped cs nets, ids-keep (λ y. not (includes y (assigned_ids cs nets))) cs)
      (split_by (assigned_ids cs nets) (container_ids cs) id (assigned-includes cs nets id))
