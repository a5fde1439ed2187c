-- ===== src/Route/Reading.antt =====
-- `parseKubeHash` then `toKubeHash`.
use wiremap.Base.{
  ◌≡◌, ◌≢◌, refl, sym, subst, ◌⊎◌, inl, inr, true, not, ◌&&◌, Option, none, some, List, [], ◌∷◌,
  drop, starts_with, Text, codes, All, All-drop, Lacks, split, split-All, join-All, split-Lacks,
  arith, Bool-cases, Option-cases, eq_of_some, not_none-some, same_text, same_text_iff,
  if◌then◌else◌, find, ◌==◌, text_eq,
}
use wiremap.Uri.{IsScalar, decode_uri_component}
use wiremap.Uri.Range.{decode-IsScalar}
use wiremap.KubeTypes.{KubeRoot, RootLens}
use wiremap.Route.{
  prefix, all_namespaces, no_namespace, KubeRoute, is_truthy, SplitKind, split_words, split_kind,
  drill_of, drills_of, lens_word, lenses, kind_root, root_of, route_of, route_of_segments,
  decode_all, Outcome, parse_kube_hash, to_kube_hash,
}
use wiremap.Route.Laws.{IsText, IsKindName, IsFreeWord, IsRoot, IsDrill, IsRoute}
use wiremap.Route.RoundTrip.{parse_kube_hash-to_kube_hash}

IsSplit : SplitKind → Type 0
IsSplit k = IsKindName k.kind × IsText k.group

split_words-IsSplit :
    (ws : List Text) → All IsText ws → All (Lacks b'.') ws → IsSplit (split_words ws)
unfolding IsSplit
split_words-IsSplit [] h k = ((tt, tt), tt)
split_words-IsSplit (w ∷ ws) h k = ((h.0, k.0), join-All IsScalar b'.' ws (inl (omega arith)) h.1)

split_kind-IsSplit : (s : Text) → IsText s → IsSplit (split_kind s)
unfolding split_kind
split_kind-IsSplit s h =
    split_words-IsSplit (split b'.' s) (split-All IsScalar b'.' s h) (split-Lacks b'.' s)

written_namespace :
    (fallback ns : Text)
    → IsText ns
    → fallback ≢ []
    → let n : Text = if ns == fallback then [] else ns in IsText n × (n ≢ fallback)
written_namespace fallback ns h f = elim (Bool-cases (same_text ns fallback)) [
  | inl e ↦ rw e (tt, λ p. f (sym p))
  | inr e ↦ rw e (h, λ p. ground (arith, same_text_iff ns fallback))
]

core_node :
    (kind group : Text)
    → kind ≡ codes "Node"
    → group ≡ []
    → (kind == codes "Node" && not (is_truthy group)) ≡ true
unfolding same_text
core_node kind group p q = rw (p, q)

drill_of-IsDrill :
    (k : SplitKind) (ns name : Text)
    → IsSplit k
    → IsText ns
    → IsText name
    → IsDrill (drill_of k ns name)
unfolding drill_of IsSplit
drill_of-IsDrill k ns name s n t =
    let (nt, ne) = written_namespace no_namespace ns n (λ p. cc) in
    elim (Bool-cases (k.kind == codes "Node" && not (is_truthy k.group))) [
      | inl e ↦ rw e (IsDrill.node name t refl)
      | inr e ↦ rw e (
          IsDrill.object _ k.kind k.group name nt ne s.0 s.1
            (λ p q. ground (arith, core_node k.kind k.group p q)) t refl)
    ]

drills_of-IsDrill : (ss : List Text) → All IsText ss → All IsDrill (drills_of ss)
unfolding drills_of
drills_of-IsDrill (k ∷ n ∷ m ∷ ss) h = (
  drill_of-IsDrill (split_kind k) n m (split_kind-IsSplit k h.0) h.1.0 h.1.1.0,
  drills_of-IsDrill ss h.1.1.1,
)
drills_of-IsDrill (k ∷ n ∷ []) h = tt
drills_of-IsDrill (k ∷ []) h = tt
drills_of-IsDrill [] h = tt

-- A kind root without a group is not named like another root.
abbrev pub IsUnambiguous : KubeRoot → Type 0
IsUnambiguous KubeRoot.overview = Unit
IsUnambiguous (KubeRoot.lens l) = Unit
IsUnambiguous (KubeRoot.kind group kind) = group ≡ [] → IsFreeWord kind

kind_root-IsRoot : (k : SplitKind) → IsSplit k → IsUnambiguous (kind_root k) → IsRoot (kind_root k)
unfolding IsSplit
kind_root-IsRoot k s u = (s.1, s.0, u)

root_of-cases :
    (s : Text)
    → (root_of s ≡ KubeRoot.overview)
      ⊎ ((l : RootLens) × (root_of s ≡ KubeRoot.lens l))
      ⊎ (root_of s ≡ kind_root (split_kind s))
unfolding root_of same_text
root_of-cases s = elim (Option-cases (find (λ l. lens_word l == s) lenses)) [
  | inr (l, e) ↦ inr (inl (l, rw e))
  | inl e ↦ elim (Bool-cases (same_text s (codes "overview"))) [
    | inl o ↦ inl (rw (e, o))
    | inr o ↦ inr (inr (rw (e, o)))
  ]
]

root_of-IsRoot : (s : Text) → IsText s → IsUnambiguous (root_of s) → IsRoot (root_of s)
root_of-IsRoot s h u = elim (root_of-cases s) [
  | inl e ↦ rw e tt
  | inr (inl (l, e)) ↦ rw e tt
  | inr (inr e) ↦
      rw e (kind_root-IsRoot (split_kind s) (split_kind-IsSplit s h) (subst IsUnambiguous e u))
]

truthy-ne : (c : Text) → is_truthy c ≡ true → c ≢ []
unfolding same_text
truthy-ne c h p = cc (rw p at h)

module _ (r : KubeRoute) (plain_root : IsUnambiguous r.root) where
  route_of-IsRoute :
      (c n s : Text) (rest : List Text)
      → All IsText (c ∷ n ∷ s ∷ rest)
      → route_of c n s rest ≡ some r
      → IsRoute r
  route_of-IsRoute c n s rest h e = elim (Bool-cases (is_truthy c)) [
    | inr bad ↦ absurd (not_none-some (rw bad at e))
    | inl has ↦
        let same = eq_of_some (rw has at e) in
        let (nt, ne) = written_namespace all_namespaces n h.1.0 (λ p. cc) in
        subst IsRoute same (record {
          cluster_text = h.0;
          has_cluster = λ p. truthy-ne c has p;
          namespace_text = nt;
          namespace_name = ne;
          root_ok =
              root_of-IsRoot s h.1.1.0
                (subst (λ (x : KubeRoute). IsUnambiguous x.root) (sym same) plain_root);
          drills_ok = drills_of-IsDrill rest h.1.1.1;
        })
  ]

  route_of_segments-IsRoute :
      (ss : List Text) → All IsText ss → route_of_segments ss ≡ some r → IsRoute r
  unfolding route_of_segments
  route_of_segments-IsRoute [] h e = ground arith
  route_of_segments-IsRoute (c ∷ []) h e =
      route_of-IsRoute c all_namespaces (codes "overview") []
        (h.0, (ground arith, (ground arith, tt))) e
  route_of_segments-IsRoute (c ∷ n ∷ []) h e =
      route_of-IsRoute c n (codes "overview") [] (h.0, (h.1.0, (ground arith, tt))) e
  route_of_segments-IsRoute (c ∷ n ∷ s ∷ rest) h e = route_of-IsRoute c n s rest h e

decode_all-IsText : (ss ts : List Text) → All IsText ss → decode_all ss ≡ some ts → All IsText ts
unfolding decode_all
decode_all-IsText [] ts h e = subst (All IsText) (eq_of_some e) tt
decode_all-IsText (s ∷ ss) ts h e = elim (Option-cases (decode_uri_component s)) [
  | inl bad ↦ absurd (not_none-some (rw bad at e))
  | inr (t, yes_t) ↦ elim (Option-cases (decode_all ss)) [
    | inl bad ↦ absurd (not_none-some (rw (yes_t, bad) at e))
    | inr (us, yes_us) ↦
        subst (All IsText) (eq_of_some (rw (yes_t, yes_us) at e))
          (decode-IsScalar s t h.0 yes_t, decode_all-IsText ss us h.1 yes_us)
  ]
]

not_returns_none :
    {r : KubeRoute}
    → ◌≡◌ {A = Outcome (Option KubeRoute)} (Outcome.returns none) (Outcome.returns (some r))
    → ⊥
not_returns_none h = cc

not_uri_error : {r : Option KubeRoute} → Outcome.uri_error ≡ Outcome.returns r → ⊥
not_uri_error h = cc

eq_of_returns : {a b : Option KubeRoute} → Outcome.returns a ≡ Outcome.returns b → a ≡ b
eq_of_returns h = cc

decode_split-IsText :
    (hash : Text) (ts : List Text)
    → IsText hash
    → decode_all (split b'/' (drop 6 hash)) ≡ some ts
    → All IsText ts
decode_split-IsText hash ts h e =
    decode_all-IsText _ ts (split-All IsScalar b'/' (drop 6 hash) (All-drop IsScalar 6 hash h)) e

-- A hash that is read as a route gives a route that a hash can carry, but for a kind root without a
-- group that is named like another root (the hash spells it with a dot at its end).
pub parse_kube_hash-IsRoute :
    (hash : Text) (r : KubeRoute)
    → IsText hash
    → IsUnambiguous r.root
    → parse_kube_hash hash ≡ Outcome.returns (some r)
    → IsRoute r
unfolding parse_kube_hash
parse_kube_hash-IsRoute hash r h u e = elim (Bool-cases (starts_with prefix hash)) [
  | inr bad ↦ absurd (not_returns_none (rw bad at e))
  | inl has ↦ elim (Option-cases (decode_all (split b'/' (drop 6 hash)))) [
    | inl bad ↦ absurd (not_uri_error (rw (has, bad) at e))
    | inr (ts, decoded) ↦
        route_of_segments-IsRoute r u ts (decode_split-IsText hash ts h decoded)
          (eq_of_returns (rw (has, decoded) at e))
  ]
]

-- Writing a route that was read from a hash gives a hash that reads as the same route, so the
-- address bar settles after one rewrite. The exception is the one of `parse_kube_hash-IsRoute`.
pub parse_kube_hash_settles :
    (hash : Text) (r : KubeRoute)
    → IsText hash
    → IsUnambiguous r.root
    → parse_kube_hash hash ≡ Outcome.returns (some r)
    → parse_kube_hash (to_kube_hash r) ≡ Outcome.returns (some r)
parse_kube_hash_settles hash r h u e =
    parse_kube_hash-to_kube_hash r (parse_kube_hash-IsRoute hash r h u e)
