-- ===== src/Cni/Args.antt =====
-- `get_regex` of cmd/tenantcni/main.go: the second group of `(-?)K8S_POD_NAME=(.+?)(;|$)` at the
-- leftmost place where the expression matches. The optional dash in front changes no group's text.
use tenant_cni.Base.{Option, Text, [], bytes, if◌then◌else◌, none, some, ◌==◌, ◌∷◌}

abbrev pub pod_name_key : Text
pod_name_key = bytes "K8S_POD_NAME="

-- What is behind a prefix, where the text starts with it.
unfoldable pub strip : Text → Text → Option Text
strip [] s = some s
strip (c ∷ cs) [] = none
strip (c ∷ cs) (d ∷ ds) = if c == d then strip cs ds else none

-- As few characters as possible, none a line feed, up to `;` or the end.
unfoldable pub shortest : Text → Option Text
shortest [] = some []
shortest (c ∷ cs) =
    let more = shortest cs in
    if c == b';'
    then some []
    else if c == 10
    then none
    else elim more [ none ↦ none | some s ↦ some (c ∷ s) ]

-- `(.+?)(;|$)`: one character, then as few as possible.
unfoldable pub lazy_group : Text → Option Text
unfolding shortest
lazy_group [] = none
lazy_group (c ∷ cs) =
    if c == 10 then none else elim (shortest cs) [ none ↦ none | some s ↦ some (c ∷ s) ]

unfoldable pub match_here : Text → Option Text
unfolding strip lazy_group
match_here s = elim (strip pod_name_key s) [ none ↦ none | some rest ↦ lazy_group rest ]

-- `none` where nothing matches; the source then reads a nil slice and panics.
unfoldable pub get_regex : Text → Option Text
unfolding match_here
get_regex [] = none
get_regex (c ∷ cs) =
    let later = get_regex cs in elim (match_here (c ∷ cs)) [ some s ↦ some s | none ↦ later ]
