-- ===== src/Text/Clean.antt =====
-- Go's filepath.Join on Unix, for two elements.
use Prim.Native.String.{◌++◌}
use mc_prototype.Base.{String, List, [], ◌∷◌, Bool, true, false, str_eq, ◌||◌, if◌then◌else◌}
use mc_prototype.Text.{split, slash, has_prefix}
use mc_prototype.Text.Paths.{join}

-- The segments that are kept, the last one first; `..` takes one away, if there is one.
drop_segment : Bool → List String → List String
drop_segment true [] = []
drop_segment false [] = ".." ∷ []
drop_segment rooted (s ∷ kept) = if str_eq s ".." then ".." ∷ s ∷ kept else kept

keep_segments : Bool → List String → List String → List String
unfolding drop_segment
keep_segments rooted kept [] = kept
keep_segments rooted kept (s ∷ rest) =
    keep_segments rooted
      (if str_eq s "" || str_eq s "."
        then kept
        else if str_eq s ".."
        then drop_segment rooted kept
        else s ∷ kept)
      rest

reverse_onto : List String → List String → List String
reverse_onto [] out = out
reverse_onto (s ∷ rest) out = reverse_onto rest (s ∷ out)

dotted : String → String
dotted s = if str_eq s "" then "." else s

-- filepath.Clean.
unfoldable pub clean : String → String
unfolding keep_segments reverse_onto dotted
clean p =
    let rooted = has_prefix p "/" in
    let kept = join (reverse_onto (keep_segments rooted [] (split slash p)) []) in
    if rooted then "/" ++ kept else dotted kept

unfoldable pub file_join : String → String → String
file_join dir name =
    if str_eq dir ""
    then if str_eq name "" then "" else clean name
    else clean (dir ++ ("/" ++ name))
