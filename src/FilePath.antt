-- ===== src/FilePath.antt =====
-- std::filesystem::path on POSIX, as far as net/sync_manager.cpp uses it: a path is the sequence
-- of the parts that its iterators run through. A separator at the end shows as an empty last part.
pub mod Normal
use clsync.Base.{
  ℕ, Bool, true, false, not, ◌&&◌, ◌||◌, List, [], ◌∷◌, ◌++◌, ◌==◌, if◌then◌else◌, is_empty,
  reverse,
}
use clsync.Text.{Bytes, equal, codes}

pub record FilePath : Type 0 where
  pub rooted : Bool
  pub names : List Bytes

abbrev pub dot : Bytes
dot = codes "."

abbrev pub dot_dot : Bytes
dot_dot = codes ".."

abbrev pub separator : Bytes
separator = codes "/"

-- Puts a byte in front of the first piece, or opens a new piece at a separator.
abbrev add_byte : Bool → ℕ → List Bytes → List Bytes
add_byte true c ps = [] ∷ ps
add_byte false c [] = (c ∷ []) ∷ []
add_byte false c (p ∷ ps) = (c ∷ p) ∷ ps

-- What lies between the separators of a text, empty pieces included.
pieces : Bytes → List Bytes
pieces [] = [] ∷ []
pieces (c ∷ cs) = add_byte (c == b'/') c (pieces cs)

-- Runs of separators count once, and one at the end leaves an empty part behind a name.
compact : Bool → List Bytes → List Bytes
compact seen [] = []
compact seen (p ∷ []) = if is_empty p && not seen then [] else p ∷ []
compact seen (p ∷ q ∷ ps) =
    let rest = compact (seen || not (is_empty p)) (q ∷ ps) in if is_empty p then rest else p ∷ rest

abbrev starts_at_root : Bytes → Bool
starts_at_root [] = false
starts_at_root (c ∷ cs) = c == b'/'

unfoldable pub of_text : Bytes → FilePath
unfolding pieces compact
of_text s = record { rooted = starts_at_root s; names = compact false (pieces s) }

abbrev pub path_empty : FilePath → Bool
path_empty p = not p.rooted && is_empty p.names

-- What `begin()` to `end()` runs through.
abbrev pub parts : FilePath → List Bytes
parts p = if p.rooted then separator ∷ p.names else p.names

abbrev pub Stack : Type 0
Stack = List Bytes

-- One part of lexically_normal: the names kept, the last one first, and whether a separator
-- is left behind them.
pub reduce_part : Bool → Stack → Bytes → Stack × Bool
reduce_part rooted [] part =
    if is_empty part || equal part dot
    then ([], true)
    else if equal part dot_dot
    then (if rooted then ([], true) else (dot_dot ∷ [], false))
    else (part ∷ [], false)
reduce_part rooted (top ∷ rest) part =
    if is_empty part || equal part dot
    then (top ∷ rest, true)
    else if equal part dot_dot
    then (if equal top dot_dot then (dot_dot ∷ top ∷ rest, false) else (rest, true))
    else (part ∷ top ∷ rest, false)

pub reduce : Bool → Stack × Bool → List Bytes → Stack × Bool
reduce rooted s [] = s
reduce rooted s (part ∷ ps) = reduce rooted (reduce_part rooted s.0 part) ps

pub normal_names : Bool → Stack × Bool → List Bytes
normal_names rooted ([], slash) = if rooted then [] else dot ∷ []
normal_names rooted (top ∷ rest, slash) =
    if slash && not (equal top dot_dot)
    then reverse (top ∷ rest) ++ [] ∷ []
    else reverse (top ∷ rest)

unfoldable pub lexically_normal : FilePath → FilePath
unfolding reduce_part reduce normal_names
lexically_normal p =
    if path_empty p
    then p
    else record p { names = normal_names p.rooted (reduce p.rooted ([], false) p.names) }

-- Without the empty part that a separator at the end leaves.
unfoldable pub without_end : List Bytes → List Bytes
without_end [] = []
without_end (p ∷ []) = if is_empty p then [] else p ∷ []
without_end (p ∷ q ∷ ps) = p ∷ without_end (q ∷ ps)

-- `p / q`, for a q that is not empty.
unfoldable pub join : FilePath → FilePath → FilePath
unfolding without_end
join p q = if q.rooted then q else record p { names = without_end p.names ++ q.names }

unfoldable pub drop_last : List Bytes → List Bytes
drop_last [] = []
drop_last (p ∷ []) = []
drop_last (p ∷ q ∷ ps) = p ∷ drop_last (q ∷ ps)

unfoldable pub parent_path : FilePath → FilePath
unfolding drop_last
parent_path p = record p { names = drop_last p.names }

unfoldable pub has_dot_dot : List Bytes → Bool
has_dot_dot [] = false
has_dot_dot (p ∷ ps) = equal p dot_dot || has_dot_dot ps
