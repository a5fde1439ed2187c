-- ===== src/Canvas/Sorted.antt =====
-- The sorted list of the distinct members of a list, and the place of a member in it.
use wiremap.Base.{
  ℕ, ◌+◌, ◌<◌, ◌≡◌, ◌≢◌, refl, sym, ap, ◌∙◌, inl, inr, ◌⊎◌, Bool, true, false, not, List, [], ◌∷◌,
  keep, All, arith, leb, ltb, length, Bool-cases, ◌==◌, nat_eq, if◌then◌else◌, subst,
}
use wiremap.Canvas.{index_of, insert, sort, unique}
use wiremap.Base.Compare.{nat_beq_iff}

-- Strictly rising.
abbrev pub IsRising : List ℕ → Type 0
IsRising [] = Unit
IsRising (x ∷ xs) = All (λ y. x < y) xs × IsRising xs

abbrev pub Has : ℕ → List ℕ → Type 0
Has x [] = ⊥
Has x (y ∷ ys) = (y ≡ x) ⊎ Has x ys

-- No member stands twice.
abbrev IsApart : List ℕ → Type 0
IsApart [] = Unit
IsApart (x ∷ xs) = All (λ y. y ≢ x) xs × IsApart xs

All-keep_of : (P : ℕ → Type 0) (p : ℕ → Bool) (xs : List ℕ) → All P xs → All P (keep p xs)
All-keep_of P p [] h = tt
All-keep_of P p (x ∷ xs) h = elim (Bool-cases (p x)) [
  | inl e ↦ rw e (h.0, All-keep_of P p xs h.1)
  | inr e ↦ rw e (All-keep_of P p xs h.1)
]

All-keep_other : (x : ℕ) (xs : List ℕ) → All (λ y. y ≢ x) (keep (λ y. not (y == x)) xs)
All-keep_other x [] = tt
All-keep_other x (y ∷ ys) = elim (Bool-cases (y == x)) [
  | inl e ↦ rw e (All-keep_other x ys)
  | inr e ↦ rw e (ground arith, All-keep_other x ys)
]

IsApart-keep : (p : ℕ → Bool) (xs : List ℕ) → IsApart xs → IsApart (keep p xs)
IsApart-keep p [] h = tt
IsApart-keep p (x ∷ xs) h = elim (Bool-cases (p x)) [
  | inl e ↦ rw e (All-keep_of (λ y. y ≢ x) p xs h.0, IsApart-keep p xs h.1)
  | inr e ↦ rw e (IsApart-keep p xs h.1)
]

unique-IsApart : (xs : List ℕ) → IsApart (unique xs)
unfolding unique
unique-IsApart [] = tt
unique-IsApart (x ∷ xs) =
    (All-keep_other x (unique xs), IsApart-keep _ (unique xs) (unique-IsApart xs))

All-insert : (P : ℕ → Type 0) (x : ℕ) (xs : List ℕ) → P x → All P xs → All P (insert x xs)
unfolding insert
All-insert P x [] p h = (p, tt)
All-insert P x (y ∷ ys) p h = elim (Bool-cases (leb x y)) [
  | inl e ↦ rw e (p, h)
  | inr e ↦ rw e (h.0, All-insert P x ys p h.1)
]

All-sort : (P : ℕ → Type 0) (xs : List ℕ) → All P xs → All P (sort xs)
unfolding sort
All-sort P [] h = tt
All-sort P (x ∷ xs) h = All-insert P x (sort xs) h.0 (All-sort P xs h.1)

All-above : (x y : ℕ) (ys : List ℕ) → x < y → All (λ z. y < z) ys → All (λ z. x < z) ys
All-above x y [] l h = tt
All-above x y (z ∷ zs) l h = (omega (arith, h.0), All-above x y zs l h.1)

insert-IsRising : (x : ℕ) (xs : List ℕ) → All (λ y. y ≢ x) xs → IsRising xs → IsRising (insert x xs)
unfolding insert
insert-IsRising x [] a h = (tt, tt)
insert-IsRising x (y ∷ ys) a h = elim (Bool-cases (leb x y)) [
  | inl e ↦
      let other = a.0 in
      let below : x < y = ground arith in rw e ((below, All-above x y ys below h.0), h)
  | inr e ↦ rw e (All-insert (λ z. y < z) x ys (ground arith) h.0, insert-IsRising x ys a.1 h.1)
]

sort-IsRising : (xs : List ℕ) → IsApart xs → IsRising (sort xs)
unfolding sort
sort-IsRising [] a = tt
sort-IsRising (x ∷ xs) a =
    insert-IsRising x (sort xs) (All-sort (λ y. y ≢ x) xs a.0) (sort-IsRising xs a.1)

pub sort-unique-IsRising : (xs : List ℕ) → IsRising (sort (unique xs))
sort-unique-IsRising xs = sort-IsRising (unique xs) (unique-IsApart xs)

-- The members.
Has-keep : (x y : ℕ) (xs : List ℕ) → x ≢ y → Has x xs → Has x (keep (λ z. not (z == y)) xs)
Has-keep x y [] n h = h
Has-keep x y (z ∷ zs) n (inl e) = let k : (z == y) ≡ false = ground (arith, n, e) in rw k (inl e)
Has-keep x y (z ∷ zs) n (inr h) = elim (Bool-cases (z == y)) [
  | inl e ↦ rw e (Has-keep x y zs n h)
  | inr e ↦ rw e (inr (Has-keep x y zs n h))
]

Has-unique : (x : ℕ) (xs : List ℕ) → Has x xs → Has x (unique xs)
unfolding unique
Has-unique x [] h = h
Has-unique x (y ∷ ys) (inl e) = inl e
Has-unique x (y ∷ ys) (inr h) = elim (Bool-cases (y == x)) [
  | inl e ↦ inl ((nat_beq_iff y x).0 e)
  | inr e ↦ inr (Has-keep x y (unique ys) (λ q. ground (arith, e, q)) (Has-unique x ys h))
]

Has-insert : (x y : ℕ) (xs : List ℕ) → (y ≡ x) ⊎ Has x xs → Has x (insert y xs)
unfolding insert
Has-insert x y [] h = h
Has-insert x y (z ∷ zs) h = elim (Bool-cases (leb y z)) [
  | inl e ↦ rw e h
  | inr e ↦ rw e (elim h [
    | inl q ↦ inr (Has-insert x y zs (inl q))
    | inr k ↦ elim k [ inl q ↦ inl q | inr m ↦ inr (Has-insert x y zs (inr m)) ]
  ])
]

Has-sort : (x : ℕ) (xs : List ℕ) → Has x xs → Has x (sort xs)
unfolding sort
Has-sort x [] h = h
Has-sort x (y ∷ ys) (inl e) = Has-insert x y (sort ys) (inl e)
Has-sort x (y ∷ ys) (inr h) = Has-insert x y (sort ys) (inr (Has-sort x ys h))

pub Has-sort-unique : (x : ℕ) (xs : List ℕ) → Has x xs → Has x (sort (unique xs))
Has-sort-unique x xs h = Has-sort x (unique xs) (Has-unique x xs h)

-- How many members are less.
abbrev pub below : ℕ → List ℕ → ℕ
below x xs = length (keep (λ y. ltb y x) xs)

below-none : (x : ℕ) (xs : List ℕ) → All (λ y. x < y) xs → below x xs ≡ 0
below-none x [] h = refl
below-none x (y ∷ ys) h =
    let e : ltb y x ≡ false = ground (arith, h.0) in rw e (below-none x ys h.1)

All-Has : (P : ℕ → Type 0) (x : ℕ) (xs : List ℕ) → All P xs → Has x xs → P x
All-Has P x [] a h = absurd h
All-Has P x (y ∷ ys) a (inl e) = subst P e a.0
All-Has P x (y ∷ ys) a (inr h) = All-Has P x ys a.1 h

below-cons :
    (x y : ℕ) (xs : List ℕ) → below x (y ∷ xs) ≡ (if ltb y x then below x xs + 1 else below x xs)
below-cons x y xs = elim (Bool-cases (ltb y x)) [ inl e ↦ rw e (omega arith) | inr e ↦ rw e refl ]

pub index_of-below : (x : ℕ) (xs : List ℕ) → IsRising xs → Has x xs → index_of x xs ≡ below x xs
unfolding index_of
index_of-below x [] r h = absurd h
index_of-below x (y ∷ ys) r h = elim (Bool-cases (y == x)) [
  | inl e ↦
      let q : y ≡ x = (nat_beq_iff y x).0 e in
      let k : ltb y x ≡ false = ground arith in
      rw (e, k) (sym (below-none x ys (subst (λ z. All (λ w. z < w) ys) q r.0)))
  | inr e ↦ elim h [
    | inl q ↦ absurd (ground (arith, e, q))
    | inr m ↦
        let less = All-Has (λ z. y < z) x ys r.0 m in
        let k : ltb y x ≡ true = ground (arith, less) in
        rw (e, k, index_of-below x ys r.1 m) (omega arith)
  ]
]

swapped :
    (a b : Bool) (n : ℕ)
    → (if a then (if b then n + 1 else n) + 1 else (if b then n + 1 else n))
      ≡ (if b then (if a then n + 1 else n) + 1 else (if a then n + 1 else n))
swapped true true n = refl
swapped true false n = refl
swapped false true n = refl
swapped false false n = refl

below-insert : (x y : ℕ) (xs : List ℕ) → below x (insert y xs) ≡ below x (y ∷ xs)
unfolding insert
below-insert x y [] = refl
below-insert x y (z ∷ zs) = elim (Bool-cases (leb y z)) [
  | inl e ↦ rw e refl
  | inr e ↦ rw e (
      below-cons x z (insert y zs)
      ∙ ap (λ n. if ltb z x then n + 1 else n) (below-insert x y zs ∙ below-cons x y zs)
      ∙ swapped (ltb z x) (ltb y x) (below x zs)
      ∙ ap (λ n. if ltb y x then n + 1 else n) (sym (below-cons x z zs))
      ∙ sym (below-cons x y (z ∷ zs)))
]

pub below-sort : (x : ℕ) (xs : List ℕ) → below x (sort xs) ≡ below x xs
unfolding sort
below-sort x [] = refl
below-sort x (y ∷ ys) =
    below-insert x y (sort ys)
    ∙ (below-cons x y (sort ys)
        ∙ ap (λ n. if ltb y x then n + 1 else n) (below-sort x ys)
        ∙ sym (below-cons x y ys))
