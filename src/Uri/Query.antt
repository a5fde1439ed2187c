-- ===== src/Uri/Query.antt =====
-- Reading a query gives back what was written into it, and reading a path its encoded segments.
use wiremap.Base.{
  ℕ, ◌≡◌, ◌≢◌, refl, false, Option, none, some, List, [], ◌∷◌, ◌++◌, map, Text, All, All-append,
  Lacks, arith, split, join, split-join, split-append, split-eq-singleton,
}
use wiremap.Uri.{IsScalar, decode_uri_component, encode_uri_component, ◌>>=◌}
use wiremap.Uri.Laws.{decode-encode, encode-Lacks, not_written}
use wiremap.Uri.Form.{
  collect, field_of, form_encode, form_decode-form_encode, form_encode-Lacks, is_form_safe,
  parse_query, to_field, to_query,
}

abbrev pub IsText : Text → Type 0
IsText = All IsScalar

abbrev pub IsField : Text × Text → Type 0
IsField (key, value) = IsText key × IsText value

unsafe_mark : (is_form_safe b'&' ≡ false) × (is_form_safe b'=' ≡ false)
unfolding is_form_safe
unsafe_mark = (refl, refl)

to_field-Lacks : (f : Text × Text) → IsField f → Lacks b'&' (to_field f)
unfolding to_field
to_field-Lacks (key, value) h =
    let lacks = form_encode-Lacks b'&' unsafe_mark.0 (ground arith) in
    All-append _ _ _ (lacks key h.0) (ground arith, lacks value h.1)

All-Lacks_field : (fs : List (Text × Text)) → All IsField fs → All (Lacks b'&') (map to_field fs)
All-Lacks_field [] h = tt
All-Lacks_field (f ∷ fs) h = (to_field-Lacks f h.0, All-Lacks_field fs h.1)

field_of-to_field : (f : Text × Text) → IsField f → field_of (split b'=' (to_field f)) ≡ some f
unfolding to_field
field_of-to_field (key, value) h =
    let lacks = form_encode-Lacks b'=' unsafe_mark.1 (ground arith) in
    rw
      (
        split-append b'=' (form_encode key) (form_encode value) (lacks key h.0),
        split-eq-singleton b'=' (form_encode value) (lacks value h.1),
        form_decode-form_encode key h.0,
        form_decode-form_encode value h.1,
      )
      refl

collect-to_field : (fs : List (Text × Text)) → All IsField fs → collect (map to_field fs) ≡ some fs
collect-to_field [] h = refl
collect-to_field (f ∷ fs) h = rw (field_of-to_field f h.0, collect-to_field fs h.1) refl

-- The fields come back from the query that `URLSearchParams` writes.
pub parse_query-to_query :
    (f : Text × Text) (fs : List (Text × Text))
    → All IsField (f ∷ fs)
    → parse_query (to_query (f ∷ fs)) ≡ some (f ∷ fs)
unfolding parse_query to_query
parse_query-to_query f fs h =
    rw (split-join b'&' (to_field f) (map to_field fs) (All-Lacks_field (f ∷ fs) h))
      (collect-to_field (f ∷ fs) h)

-- The segments of a path, as a server decodes them.
abbrev decode_all : List Text → Option (List Text)
decode_all [] = some []
decode_all (s ∷ ss) = decode_uri_component s >>= λ t. decode_all ss >>= λ ts. some (t ∷ ts)

-- A URL's path and query: what stands before and behind the question mark.
abbrev read_parts : List Text → Option (List Text × List (Text × Text))
read_parts (path ∷ []) = decode_all (split b'/' path) >>= λ ss. some (ss, [])
read_parts (path ∷ query ∷ []) =
    decode_all (split b'/' path) >>= λ ss. parse_query query >>= λ fs. some (ss, fs)
read_parts _ = none

-- How a server reads a URL.
unfoldable pub read_url : Text → Option (List Text × List (Text × Text))
unfolding split parse_query decode_uri_component
read_url url = read_parts (split b'?' url)

-- The path of some segments, and a URL with a query.
abbrev pub path_of : List Text → Text
path_of segments = join b'/' ([] ∷ map encode_uri_component segments)

abbrev pub url_of : List Text → List (Text × Text) → Text
url_of segments fields = path_of segments ++ (b'?' ∷ to_query fields)

join-Lacks : (x sep : ℕ) (ws : List Text) → sep ≢ x → All (Lacks x) ws → Lacks x (join sep ws)
unfolding join
join-Lacks x sep [] n h = tt
join-Lacks x sep (w ∷ []) n h = h.0
join-Lacks x sep (w ∷ v ∷ vs) n h = All-append _ _ _ h.0 (n, join-Lacks x sep (v ∷ vs) n h.1)

encoded-Lacks :
    (x : ℕ) (ss : List Text)
    → ((s : Text) → IsText s → Lacks x (encode_uri_component s))
    → All IsText ss
    → All (Lacks x) (map encode_uri_component ss)
encoded-Lacks x [] lacks h = tt
encoded-Lacks x (s ∷ ss) lacks h = (lacks s h.0, encoded-Lacks x ss lacks h.1)

decode_all-encoded :
    (ss : List Text) → All IsText ss → decode_all (map encode_uri_component ss) ≡ some ss
decode_all-encoded [] h = refl
decode_all-encoded (s ∷ ss) h = rw (decode-encode s h.0, decode_all-encoded ss h.1) refl

fields-Lacks : (fs : List (Text × Text)) → All IsField fs → All (Lacks b'?') (map to_field fs)
fields-Lacks [] h = tt
fields-Lacks ((key, value) ∷ fs) h =
    let lacks = form_encode-Lacks b'?' (unfold is_form_safe in refl) (ground arith) in
    (
      unfold to_field in All-append _ _ _ (lacks key h.0.0) (ground arith, lacks value h.0.1),
      fields-Lacks fs h.1,
    )

module _ (ss : List Text) (texts : All IsText ss) where
  path_of-Lacks : Lacks b'?' (path_of ss)
  path_of-Lacks =
      join-Lacks b'?' b'/' ([] ∷ map encode_uri_component ss) (ground arith)
        (tt, encoded-Lacks b'?' ss (encode-Lacks b'?' not_written.1 (ground arith)) texts)

  decode_all-path_of : decode_all (split b'/' (path_of ss)) ≡ some ([] ∷ ss)
  unfolding decode_uri_component
  decode_all-path_of =
      rw
        (
          split-join b'/' [] (map encode_uri_component ss)
              (tt, encoded-Lacks b'/' ss (encode-Lacks b'/' not_written.0 (ground arith)) texts),
          decode_all-encoded ss texts,
        )
        refl

  -- The segments and the fields come back from a URL that is put together of them.
  pub read_url-url_of :
      (f : Text × Text) (fs : List (Text × Text))
      → All IsField (f ∷ fs)
      → read_url (url_of ss (f ∷ fs)) ≡ some ([] ∷ ss, f ∷ fs)
  unfolding read_url
  read_url-url_of f fs h =
      rw
        (
          split-append b'?' (path_of ss) (to_query (f ∷ fs)) path_of-Lacks,
          split-eq-singleton b'?' (to_query (f ∷ fs)) (
              unfold to_query in
              join-Lacks b'?' b'&' (map to_field (f ∷ fs)) (ground arith)
                (fields-Lacks (f ∷ fs) h)),
          decode_all-path_of,
          parse_query-to_query f fs h,
        )
        refl

  pub read_url-path_of : read_url (path_of ss) ≡ some ([] ∷ ss, [])
  unfolding read_url
  read_url-path_of =
      rw (split-eq-singleton b'?' (path_of ss) path_of-Lacks, decode_all-path_of) refl
