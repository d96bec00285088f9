-- ===== src/Policy/Paths.antt =====
-- `_normalize_path`, `_path_within` and `_path_intersection`, with `posixpath.normpath`.
pub mod Laws
use Prim.Native.Char.{code}
use kris_ai.Base.{
  String, ◌<>◌, ◌==◌, Bool, true, false, not, ◌&&◌, ◌||◌, List, [], ◌∷◌, ◌++◌, is_empty, eqb, strip,
  lower, replace_char, starts_with, split_at, join, rstrip_char, sorted_set, if◌then◌else◌,
}
use kris_ai.Base.Outcome.{Outcome, ok, raise, ◌>>=◌}

-- The last component is "..": the components are kept in reverse.
abbrev climbs : List String → Bool
climbs [] = false
climbs (top ∷ stack) = top == ".."

abbrev pop : List String → List String
pop [] = []
pop (top ∷ stack) = stack

-- One component of `normpath`.
push : Bool → List String → String → List String
push rooted stack word =
    if word == "" || word == "."
    then stack
    else if not (word == "..") || ((not rooted && is_empty stack) || climbs stack)
    then word ∷ stack
    else pop stack

push_all : Bool → List String → List String → List String
unfolding push
push_all rooted stack [] = stack
push_all rooted stack (word ∷ words) = push_all rooted (push rooted stack word) words

reverse_onto : List String → List String → List String
reverse_onto acc [] = acc
reverse_onto acc (x ∷ xs) = reverse_onto (x ∷ acc) xs

-- The slashes that `normpath` keeps at the front: two exactly if there are two exactly.
leading_slashes : String → String
unfolding starts_with
leading_slashes text =
    if starts_with text "//" && not (starts_with text "///")
    then "//"
    else if starts_with text "/"
    then "/"
    else ""

unfoldable pub normpath : String → String
unfolding push_all reverse_onto leading_slashes split_at join starts_with
normpath text =
    let words = push_all (starts_with text "/") [] (split_at b'/' text) in
    let path = leading_slashes text <> join "/" (reverse_onto [] words) in
    if path == "" then "." else path

-- The drive letter with its colon, and the rest of the text.
split_drive : String → String × String
unfolding lower
split_drive String.[] = ("", "")
split_drive (String.◌∷◌ c String.[]) = ("", String.◌∷◌ c String.[])
split_drive (String.◌∷◌ c (String.◌∷◌ d s)) =
    if eqb (code d) b':'
    then (lower (String.◌∷◌ c (String.◌∷◌ d String.[])), s)
    else ("", String.◌∷◌ c (String.◌∷◌ d s))

-- The text after `normpath` and the test for traversal.
finish_path : String → String → Outcome String
unfolding starts_with rstrip_char
finish_path drive path =
    if starts_with path "../" || path == ".."
    then raise "path traversal is not a valid policy target"
    else let rooted = if starts_with path "/" then path else "/" <> path in
      let whole = if drive == "" then path else drive <> rooted in
      let trimmed = rstrip_char b'/' whole in ok (if trimmed == "" then "/" else trimmed)

unfoldable pub normalize_path : String → Outcome String
unfolding normpath split_drive finish_path strip replace_char
normalize_path value =
    let text = replace_char 92 "/" (strip value) in
    if text == ""
    then ok ""
    else let (drive, path) = split_drive text in
      let normal = normpath path in finish_path drive (if normal == "." then "" else normal)

-- The comparison of two normalized paths.
unfoldable pub lies_within : String → String → Bool
unfolding starts_with
lies_within path prefix =
    if prefix == "/"
    then starts_with path "/"
    else path == prefix || starts_with path (prefix <> "/")

unfoldable pub path_within : String → String → Outcome Bool
unfolding normalize_path lies_within
path_within path prefix = do
  path_n ← normalize_path path
  prefix_n ← normalize_path prefix
  ok (lies_within path_n prefix_n)

-- `any(_path_within(path, prefix) for prefix in prefixes)`, which stops at the first hit
unfoldable pub within_any : String → List String → Outcome Bool
unfolding path_within
within_any path [] = ok false
within_any path (prefix ∷ prefixes) =
    let rest = within_any path prefixes in
    path_within path prefix >>= λ hit. if hit then ok true else rest

-- The narrower of two prefixes, if one lies within the other.
unfoldable pub narrower : String → String → Outcome (List String)
unfolding path_within normalize_path
narrower left right =
    let inner_one = normalize_path left >>= λ n. ok (n ∷ []) in
    let outer_one = normalize_path right >>= λ n. ok (n ∷ []) in
    path_within left right >>= λ inner.
    if inner
    then inner_one
    else path_within right left >>= λ outer. if outer then outer_one else ok []

narrower_all : String → List String → Outcome (List String)
unfolding narrower
narrower_all left [] = ok []
narrower_all left (right ∷ rights) = do
  here ← narrower left right
  rest ← narrower_all left rights
  ok (here ++ rest)

narrower_pairs : List String → List String → Outcome (List String)
unfolding narrower_all
narrower_pairs [] rights = ok []
narrower_pairs (left ∷ lefts) rights = do
  here ← narrower_all left rights
  rest ← narrower_pairs lefts rights
  ok (here ++ rest)

unfoldable pub path_intersection : List String → List String → Outcome (List String)
unfolding narrower_pairs sorted_set
path_intersection current constraint =
    narrower_pairs current constraint >>= λ found. ok (sorted_set found)
