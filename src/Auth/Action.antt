-- ===== src/Auth/Action.antt =====
-- The names of audited actions: ActionFor of backend/internal/authz/subject.go.
use Prim.Native.Char.{Char, code}
use Prim.Native.String.{[], ◌∷◌}
use mathlib.Core.List.{[], ◌∷◌}
use metalwatch.Base.{String, ◌<>◌, Bool, false, ◌||◌, List, str_eq, ◌==◌, if◌then◌else◌}

unfoldable pub verb_of : String → String
verb_of method =
    if str_eq method "POST"
    then "create"
    else if str_eq method "PUT"
    then "update"
    else if str_eq method "PATCH"
    then "patch"
    else if str_eq method "DELETE"
    then "delete"
    else "read"

abbrev is_slash : Char → Bool
is_slash c = code c == 47

-- strings.TrimPrefix
unfoldable pub strip : String → String → String → String
strip [] s whole = s
strip (p ∷ prefix) [] whole = whole
strip (p ∷ prefix) (c ∷ s) whole =
    let rest = strip prefix s whole in if code p == code c then rest else whole

-- strings.Trim with the cutset "/"
unfoldable pub trim_slashes_left : String → String
trim_slashes_left [] = []
trim_slashes_left (c ∷ s) = let rest = trim_slashes_left s in if is_slash c then rest else c ∷ s

abbrev keep_unless_slash : Char → String → String
keep_unless_slash c [] = if is_slash c then [] else c ∷ []
keep_unless_slash c (d ∷ s) = c ∷ d ∷ s

unfoldable pub trim_slashes_right : String → String
trim_slashes_right [] = []
trim_slashes_right (c ∷ s) = keep_unless_slash c (trim_slashes_right s)

abbrev push_char : Char → List String → List String
push_char c [] = (c ∷ []) ∷ []
push_char c (x ∷ xs) = (c ∷ x) ∷ xs

-- strings.Split at "/"
unfoldable pub split_path : String → List String
split_path [] = [] ∷ []
split_path (c ∷ s) = let rest = split_path s in if is_slash c then [] ∷ rest else push_char c rest

-- A placeholder of the route.
unfoldable pub is_placeholder : String → Bool
is_placeholder [] = false
is_placeholder (c ∷ s) = code c == 58 || code c == 42

unfoldable pub without_placeholders : List String → List String
without_placeholders [] = []
without_placeholders (s ∷ ss) =
    let rest = without_placeholders ss in if is_placeholder s then rest else s ∷ rest

-- Each segment with a dot behind it.
unfoldable pub dotted : List String → String → String
dotted [] verb = verb
dotted (s ∷ ss) verb = s <> "." <> dotted ss verb

unfoldable pub action_for : String → String → String
unfolding verb_of strip trim_slashes_left trim_slashes_right split_path without_placeholders dotted
action_for method path =
    let verb = verb_of method in
    let trimmed = trim_slashes_right (trim_slashes_left (strip "/api/v1/" path path)) in
    if str_eq trimmed "" then verb else dotted (without_placeholders (split_path trimmed)) verb
