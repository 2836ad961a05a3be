-- ===== src/Admin/Pages.antt =====
-- The static pages (internal/admin/admin.go). `path.Clean` of a rooted path is by its documentation: it
-- drops the elements that are empty or ".", and ".." with the element before it. The files are a
-- parameter.
use agent.Base.{
  ℕ, ◌≡◌, refl, sym, Bool, true, false, not, ◌&&◌, ◌||◌, Option, none, some, List, [], ◌∷◌, arith,
  all, eqb, if◌then◌else◌, Bool-cases, inl, inr,
}
use agent.Text.{Text, text_eq, codes, is_empty, split, cons_first, join, has_suffix}
use agent.Map.{◌==◌}

-- The elements of a rooted path, from those before, the last one first.
unfoldable pub clean_onto : List Text → List Text → List Text
clean_onto before [] = before
clean_onto before (element ∷ elements) =
    let shorter : List Text = elim before [ [] ↦ [] | ◌∷◌ x xs ↦ xs ] in
    let skipped = clean_onto before elements in
    let popped = clean_onto shorter elements in
    let pushed = clean_onto (element ∷ before) elements in
    if is_empty element || (element == codes ".")
    then skipped
    else if element == codes ".."
    then popped
    else pushed

abbrev pub reverse_onto : List Text → List Text → List Text
reverse_onto done [] = done
reverse_onto done (x ∷ xs) = reverse_onto (x ∷ done) xs

unfoldable pub clean_elements : Text → List Text
unfolding clean_onto
clean_elements raw_path = reverse_onto [] (clean_onto [] (split b'/' raw_path))

-- `path.Clean` of "/" and the path, without the "/" in front.
unfoldable pub clean_request_path : Text → Text
unfolding clean_elements
clean_request_path raw_path = join (codes "/") (clean_elements raw_path)

-- What `fs.Stat` says of a path: `none` for an error, else whether it is a directory.
unfoldable pub should_serve_index : (Text → Option Bool) → Text → Bool
should_serve_index stat request_path =
    let found : Bool = elim (stat request_path) [ none ↦ true | some is_dir ↦ is_dir ] in
    is_empty request_path || (request_path == codes ".") || found

-- What the handler does: an error, the index with a body or without, or it hands the request to the
-- file server as it came, with its own path, and with a cache header.
pub data Page : Type 0 where
  not_allowed : Page
  index : Bool → Page
  file : Text → Text → Page

unfoldable pub cache_header : Text → Text
cache_header request_path =
    if has_suffix request_path (codes ".html")
    then codes "no-store"
    else codes "public, max-age=300"

unfoldable pub page_handler : (Text → Option Bool) → Text → Text → Page
unfolding clean_request_path should_serve_index cache_header
page_handler stat method raw_path =
    let path = clean_request_path raw_path in
    if not (method == codes "GET") && not (method == codes "HEAD")
    then not_allowed
    else if should_serve_index stat path
    then index (not (method == codes "HEAD"))
    else file raw_path (cache_header path)

-- The name of a file or of a directory: not empty, not "." and not "..", and without a slash.
abbrev pub is_name : Text → Bool
is_name e =
    not (is_empty e)
    && not (e == codes ".")
    && not (e == codes "..")
    && all (λ c. not (eqb c b'/')) e

abbrev pub no_slash : Text → Bool
no_slash e = all (λ c. not (eqb c b'/')) e

cons_first-no_slash :
    (c : ℕ) (parts : List Text)
    → eqb c b'/' ≡ false
    → all no_slash parts ≡ true
    → all no_slash (cons_first c parts) ≡ true
cons_first-no_slash c [] n h = ground (arith, n)
cons_first-no_slash c (p ∷ parts) n h = ground (arith, n, h)

split-no_slash : (s : Text) → all no_slash (split b'/' s) ≡ true
unfolding split
split-no_slash [] = refl
split-no_slash (c ∷ s) = elim (Bool-cases (eqb c b'/')) [
  | inl slash ↦ rw (slash) (split-no_slash s)
  | inr other ↦ rw (other) (cons_first-no_slash c (split b'/' s) other (split-no_slash s))
]

tail_names :
    (xs : List Text)
    → all is_name xs ≡ true
    → all is_name (elim xs as (λ _. List Text) [ [] ↦ [] | ◌∷◌ y ys ↦ ys ]) ≡ true
tail_names [] h = refl
tail_names (x ∷ xs) h = ground arith

clean_onto-is_name :
    (before elements : List Text)
    → all is_name before ≡ true
    → all no_slash elements ≡ true
    → all is_name (clean_onto before elements) ≡ true
unfolding clean_onto
clean_onto-is_name before [] h s = h
clean_onto-is_name before (e ∷ elements) h s =
    let shorter : List Text = elim before as (λ _. List Text) [ [] ↦ [] | ◌∷◌ x xs ↦ xs ] in
    let rest : all no_slash elements ≡ true = ground arith in
    elim (Bool-cases (is_empty e || (e == codes "."))) [
      | inl skip ↦ rw (skip) (clean_onto-is_name before elements h rest)
      | inr keep ↦ elim (Bool-cases (e == codes "..")) [
        | inl up ↦ rw (keep, up) (clean_onto-is_name shorter elements (tail_names before h) rest)
        | inr down ↦
            rw (keep, down)
              (clean_onto-is_name (e ∷ before) elements (ground (arith, keep, down, h, s)) rest)
      ]
    ]

reverse_onto-is_name :
    (done xs : List Text)
    → all is_name done ≡ true
    → all is_name xs ≡ true
    → all is_name (reverse_onto done xs) ≡ true
reverse_onto-is_name done [] d h = d
reverse_onto-is_name done (x ∷ xs) d h =
    reverse_onto-is_name (x ∷ done) xs (ground arith) (ground arith)

clean_elements-is_name : (raw_path : Text) → all is_name (clean_elements raw_path) ≡ true
unfolding clean_elements
clean_elements-is_name raw_path =
    reverse_onto-is_name [] (clean_onto [] (split b'/' raw_path)) refl
      (clean_onto-is_name [] (split b'/' raw_path) refl (split-no_slash raw_path))

served-file :
    (bad shown head : Bool) (p c : Text) {path cache : Text}
    → (if bad then not_allowed else if shown then index head else file p c) ≡ file path cache
    → (p ≡ path) × (c ≡ cache) × (shown ≡ false)
served-file true shown head p c e = absurd (ground arith)
served-file false true head p c e = absurd (ground arith)
served-file false false head p c e = (ground arith, ground arith, refl)

stat-file :
    (named : Bool) (o : Option Bool)
    → (named || (elim o as (λ _. Bool) [ none ↦ true | some is_dir ↦ is_dir ])) ≡ false
    → o ≡ some false
stat-file named none h = absurd (ground arith)
stat-file named (some is_dir) h = ground arith

-- Only a request for a static page gets as far as the file server: a request is handed to it as it
-- came, and only if its path, once cleaned, is that of a file, not a directory, below the pages'
-- root. That cleaned path, which also decides on the cache header, is made of names, none of them
-- empty, ".", ".." or with a slash in it, however the request's own path is written.
pub page_handler-is_name :
    (stat : Text → Option Bool) (method raw_path : Text) {path cache : Text}
    → page_handler stat method raw_path ≡ file path cache
    → (path ≡ raw_path)
      × (cache ≡ cache_header (clean_request_path raw_path))
      × (names : List Text) × (clean_request_path raw_path ≡ join (codes "/") names)
      × (all is_name names ≡ true)
      × (stat (clean_request_path raw_path) ≡ some false)
unfolding page_handler should_serve_index clean_request_path
page_handler-is_name stat method raw_path {path} e =
    let names = clean_elements raw_path in
    let p = join (codes "/") names in
    let (same, cached, not_index) = served-file _ _ _ raw_path _ e in
    let found = stat-file (is_empty p || (p == codes ".")) (stat p) not_index in
    (sym same, sym cached, names, refl, clean_elements-is_name raw_path, found)
