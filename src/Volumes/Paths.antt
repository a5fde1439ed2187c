-- ===== src/Volumes/Paths.antt =====
-- The breadcrumbs and the parent of a path, VolumeBrowser.vm.ts.
use wiremap.Base.{
  ℕ, ◌≡◌, refl, sym, ap, ◌∙◌, true, some, List, [], ◌∷◌, ◌++◌, append_assoc, keep, drop_last,
  drop_last-append, arith, Text, All, All-append, Lacks, split, split-join, join, join-nil_cons,
  same_text, text_eq,
}
use wiremap.Route.{is_truthy}
use wiremap.Volumes.{breadcrumbs, crumbs_from, or_root, parent}

-- The name of a file or of a directory.
pub record IsName (s : Text) : Type 0 where
  pub some_name : is_truthy s ≡ true
  pub no_slash : Lacks b'/' s

abbrev pub path_of : List Text → Text
path_of names = b'/' ∷ join b'/' names

join-append :
    (w : Text) (ws : List Text) (p : Text)
    → join b'/' (w ∷ (ws ++ (p ∷ []))) ≡ join b'/' (w ∷ ws) ++ (b'/' ∷ p)
unfolding join
join-append w [] p = refl
join-append w (v ∷ vs) p =
    ap (λ t. w ++ (b'/' ∷ t)) (join-append v vs p)
    ∙ sym (append_assoc w (b'/' ∷ join b'/' (v ∷ vs)) (b'/' ∷ p))

-- The path after more parts.
abbrev path_to : Text → List Text → Text
path_to prev [] = prev
path_to prev (q ∷ qs) = path_to (prev ++ (b'/' ∷ q)) qs

crumbs_from-append :
    (prev : Text) (ps : List Text) (p : Text)
    → crumbs_from prev (ps ++ (p ∷ []))
      ≡ crumbs_from prev ps ++ (record { name = p; path = path_to prev ps ++ (b'/' ∷ p) } ∷ [])
unfolding crumbs_from
crumbs_from-append prev [] p = refl
crumbs_from-append prev (q ∷ ps) p =
    ap (λ t. record { name = q; path = prev ++ (b'/' ∷ q) } ∷ t)
      (crumbs_from-append (prev ++ (b'/' ∷ q)) ps p)

path_to-join :
    (prev q : Text) (qs : List Text) → path_to prev (q ∷ qs) ≡ prev ++ (b'/' ∷ join b'/' (q ∷ qs))
unfolding join
path_to-join prev q [] = refl
path_to-join prev q (r ∷ qs) =
    path_to-join (prev ++ (b'/' ∷ q)) r qs
    ∙ append_assoc prev (b'/' ∷ q) (b'/' ∷ join b'/' (r ∷ qs))

path_to-last : (ps : List Text) (p : Text) → path_to [] ps ++ (b'/' ∷ p) ≡ path_of (ps ++ (p ∷ []))
path_to-last [] p = unfold join in refl
path_to-last (q ∷ qs) p =
    ap (λ t. t ++ (b'/' ∷ p)) (path_to-join [] q qs) ∙ ap (λ t. b'/' ∷ t) (sym (join-append q qs p))

keep-names : (ps : List Text) → All IsName ps → keep is_truthy ps ≡ ps
keep-names [] h = refl
keep-names (p ∷ ps) h = rw (h.0.some_name, keep-names ps h.1)

All-no_slash : (ps : List Text) → All IsName ps → All (Lacks b'/') ps
All-no_slash [] h = tt
All-no_slash (p ∷ ps) h = (h.0.no_slash, All-no_slash ps h.1)

split_slash : (t : Text) → split b'/' (b'/' ∷ t) ≡ [] ∷ split b'/' t
unfolding split
split_slash t = refl

split-path_of :
    (q : Text) (qs : List Text) → All IsName (q ∷ qs) → split b'/' (path_of (q ∷ qs)) ≡ [] ∷ q ∷ qs
split-path_of q qs h =
    split_slash _ ∙ ap (λ t. [] ∷ t) (split-join b'/' q qs (All-no_slash (q ∷ qs) h))

keep_after_root : (ps : List Text) → keep is_truthy ([] ∷ ps) ≡ keep is_truthy ps
unfolding same_text
keep_after_root ps = refl

breadcrumbs-path_of :
    (ps : List Text) → All IsName ps → breadcrumbs (some (path_of ps)) ≡ crumbs_from [] ps
unfolding breadcrumbs
breadcrumbs-path_of [] h = unfold join split same_text in refl
breadcrumbs-path_of (q ∷ qs) h =
    rw (split-path_of q qs h)
      (ap (crumbs_from []) (keep_after_root (q ∷ qs) ∙ keep-names (q ∷ qs) h))

-- A joined path of names is not empty.
join-names :
    (q : Text) (qs : List Text)
    → All IsName (q ∷ qs)
    → (c : ℕ) × (t : Text) × (join b'/' (q ∷ qs) ≡ c ∷ t)
unfolding join
join-names [] qs h = absurd (unfold same_text in ground (arith, h.0.some_name))
join-names (c ∷ q) [] h = (c, q, refl)
join-names (c ∷ q) (r ∷ qs) h = (c, q ++ (b'/' ∷ join b'/' (r ∷ qs)), refl)

parent_by :
    (c : ℕ) (t : Text)
    → parent (some (b'/' ∷ (c ∷ t)))
      ≡ some (or_root (join b'/' (drop_last (split b'/' (b'/' ∷ (c ∷ t))))))
unfolding parent same_text
parent_by c t = refl

or_root-join : (ps : List Text) → or_root (join b'/' ([] ∷ ps)) ≡ path_of ps
unfolding same_text
or_root-join [] = unfold join in refl
or_root-join (q ∷ qs) = rw (join-nil_cons b'/' q qs)

parent-split :
    (ps : List Text) (p : Text)
    → All IsName (ps ++ (p ∷ []))
    → split b'/' (path_of (ps ++ (p ∷ []))) ≡ [] ∷ (ps ++ (p ∷ []))
parent-split [] p h = split-path_of p [] h
parent-split (q ∷ qs) p h = split-path_of q (qs ++ (p ∷ [])) h

nonempty-join :
    (ps : List Text) (p : Text)
    → All IsName (ps ++ (p ∷ []))
    → (c : ℕ) × (t : Text) × (join b'/' (ps ++ (p ∷ [])) ≡ c ∷ t)
nonempty-join [] p h = join-names p [] h
nonempty-join (q ∷ qs) p h = join-names q (qs ++ (p ∷ [])) h

-- Let a path be a slash and names joined by slashes, the last of them `p`. Then its breadcrumbs are
-- those of the path without `p`, and behind them one that is called `p` and leads to the path; and
-- going up leads to the path without `p`.
pub breadcrumbs-parent :
    (ps : List Text) (p : Text)
    → All IsName ps
    → IsName p
    → (breadcrumbs (some (path_of (ps ++ (p ∷ []))))
        ≡ breadcrumbs (some (path_of ps))
          ++ (record { name = p; path = path_of (ps ++ (p ∷ [])) } ∷ []))
      × (parent (some (path_of (ps ++ (p ∷ [])))) ≡ some (path_of ps))
breadcrumbs-parent ps p h k =
    let names = All-append IsName ps (p ∷ []) h (k, tt) in
    let (c, t, e) = nonempty-join ps p names in
    (
      breadcrumbs-path_of (ps ++ (p ∷ [])) names
          ∙ crumbs_from-append [] ps p
          ∙ ap (λ x. crumbs_from [] ps ++ (record { name = p; path = x } ∷ [])) (path_to-last ps p)
          ∙ ap (λ x. x ++ (record { name = p; path = path_of (ps ++ (p ∷ [])) } ∷ []))
              (sym (breadcrumbs-path_of ps h)),
      ap (λ x. parent (some (b'/' ∷ x))) e
          ∙ parent_by c t
          ∙ ap (λ x. some (or_root (join b'/' (drop_last (split b'/' (b'/' ∷ x)))))) (sym e)
          ∙ ap (λ x. some (or_root (join b'/' (drop_last x)))) (parent-split ps p names)
          ∙ ap (λ x. some (or_root (join b'/' x))) (drop_last-append ([] ∷ ps) p)
          ∙ ap some (or_root-join ps),
    )
