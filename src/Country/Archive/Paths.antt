-- ===== src/Country/Archive/Paths.antt =====
-- Lexical paths on Unix: `Clean`, `Join` and `Dir` of Go's `path/filepath`, for the archives of maxmind.go
-- and zip.go.
use go_run.Prelude.{String, Bool, true, false, List, [], ◌∷◌, ◌++◌, str_eq, ◌||◌, if◌then◌else◌}
use go_run.Strings.{◌<>◌, has_prefix, join, split}

-- The elements before `..`; the last one stands in front. A rooted path stays at its root.
unfoldable pub go_up : Bool → List String → List String
go_up true [] = []
go_up false [] = ".." ∷ []
go_up rooted (last ∷ before) = if str_eq last ".." then ".." ∷ last ∷ before else before

unfoldable pub add_element : Bool → List String → String → List String
unfolding go_up
add_element rooted stack name =
    if str_eq name "" || str_eq name "."
    then stack
    else if str_eq name ".."
    then go_up rooted stack
    else name ∷ stack

unfoldable pub add_elements : Bool → List String → List String → List String
unfolding add_element
add_elements rooted stack [] = stack
add_elements rooted stack (name ∷ names) = add_elements rooted (add_element rooted stack name) names

unfoldable pub unstack : List String → List String → List String
unstack [] names = names
unstack (last ∷ before) names = unstack before (last ∷ names)

-- The elements of a path once it is cleaned
unfoldable pub elements : String → List String
unfolding add_elements unstack split has_prefix
elements path = unstack (add_elements (has_prefix path "/") [] (split "/" path)) []

-- A rooted path has a slash in front of each element.
unfoldable pub path_of : List String → String
path_of [] = ""
path_of (name ∷ names) = String.◌∷◌ "/" (name <> path_of names)

unfoldable pub rooted_text : List String → String
unfolding path_of
rooted_text [] = "/"
rooted_text (name ∷ names) = path_of (name ∷ names)

unfoldable pub relative_text : List String → String
unfolding join
relative_text [] = "."
relative_text (name ∷ names) = join "/" (name ∷ names)

-- `Clean`
unfoldable pub clean : String → String
unfolding elements rooted_text relative_text has_prefix
clean path =
    if has_prefix path "/" then rooted_text (elements path) else relative_text (elements path)

-- `Join` of two parts
unfoldable pub join_path : String → String → String
unfolding clean
join_path dest name =
    if str_eq dest ""
    then if str_eq name "" then "" else clean name
    else clean (dest <> String.◌∷◌ "/" name)

unfoldable pub before_last : List String → List String
before_last [] = []
before_last (name ∷ []) = []
before_last (name ∷ next ∷ names) = name ∷ before_last (next ∷ names)

-- `Dir`: what stands before the last slash, and the slash, cleaned
unfoldable pub dir_of : String → String
unfolding clean join split before_last
dir_of path = clean (join "/" (before_last (split "/" path) ++ "" ∷ []))
