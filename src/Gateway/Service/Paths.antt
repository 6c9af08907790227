-- ===== src/Gateway/Service/Paths.antt =====
-- gateway/src/rest_routes.cpp: the paths of the files that are served, and their types.
use certos.Base.{◌||◌, [], ◌∷◌, ◌++◌, Text, txt, if◌then◌else◌, is_empty, nat_beq, ◌==◌, text_eq}
use certos.Gateway.{found_at_start, ends_in_slash}

-- `fs::path(root) / rel`: an absolute path takes the place of the root.
unfoldable pub join : Text → Text → Text
unfolding ends_in_slash
join root rel =
    if found_at_start rel (txt "/")
    then rel
    else if is_empty root || ends_in_slash root
    then root ++ rel
    else root ++ (txt "/" ++ rel)

-- The file name of a path, and the part of a name from its last dot.
unfoldable pub filename : Text → Text → Text
filename part [] = part
filename part (c ∷ s) =
    let next = filename [] s in
    let longer = filename (part ++ c ∷ []) s in if nat_beq c b'/' then next else longer

unfoldable pub last_dot : Text → Text
last_dot [] = []
last_dot (c ∷ s) =
    let later = last_dot s in if is_empty later then if nat_beq c b'.' then c ∷ s else [] else later

-- A name has no extension from a dot at its start.
unfoldable pub extension : Text → Text
unfolding filename last_dot
extension path = elim (filename [] path) [ [] ↦ [] | ◌∷◌ c s ↦ last_dot s ]

unfoldable pub content_type : Text → Text
content_type ext =
    if ext == txt ".html"
    then txt "text/html"
    else if ext == txt ".css"
    then txt "text/css"
    else if ext == txt ".js"
    then txt "application/javascript"
    else if ext == txt ".png"
    then txt "image/png"
    else txt "application/octet-stream"
