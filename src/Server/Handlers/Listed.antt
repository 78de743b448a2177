-- ===== src/Server/Handlers/Listed.antt =====
-- What a listing is: the names of the files of a directory, and a text with one name on each line.
use ssnproj.Base.{◌≡◌, refl, ◌∙◌, ap, [], ◌∷◌, List, ◌++◌, true, false}
use ssnproj.Bytes.BigEndian.{Bytes}
use ssnproj.Server.World.{DirEntry}
use ssnproj.Server.Handlers.{file_names, join_lines}

-- The names of the entries that are no directories, in their order.
pub data Listed : List DirEntry → List Bytes → Type 0 where
  empty : Listed [] []
  directory :
      (d : DirEntry) (ds : List DirEntry) (names : List Bytes)
      → d.is_dir ≡ true
      → Listed ds names
      → Listed (d ∷ ds) names
  file :
      (d : DirEntry) (ds : List DirEntry) (names : List Bytes)
      → d.is_dir ≡ false
      → Listed ds names
      → Listed (d ∷ ds) (d.name ∷ names)

-- A text of these lines: the last one has no line end, and no line at all is the empty text.
pub data IsLines : List Bytes → Bytes → Type 0 where
  no_line : IsLines [] []
  last_line : (line : Bytes) → IsLines (line ∷ []) line
  first_line :
      (line second : Bytes) (lines : List Bytes) (rest : Bytes)
      → IsLines (second ∷ lines) rest
      → IsLines (line ∷ second ∷ lines) (line ++ (b'\n' ∷ rest))

pub file_names-Listed :
    {files : List DirEntry} {names : List Bytes} → Listed files names → file_names files ≡ names
file_names-Listed empty = refl
file_names-Listed (directory d ds names is rest) = rw is (file_names-Listed rest)
file_names-Listed (file d ds names is rest) =
    rw is (ap (λ xs. d.name ∷ xs) (file_names-Listed rest))

pub join_lines-IsLines :
    {names : List Bytes} {lines : Bytes} → IsLines names lines → join_lines names ≡ lines
join_lines-IsLines no_line = refl
join_lines-IsLines (last_line line) = refl
join_lines-IsLines (first_line line second lines rest is) =
    ap (λ xs. line ++ (b'\n' ∷ xs)) (join_lines-IsLines is)

-- The answer to a listing.
pub listing_text :
    {files : List DirEntry} {names : List Bytes} {lines : Bytes}
    → Listed files names
    → IsLines names lines
    → join_lines (file_names files) ≡ lines
listing_text listed written = ap join_lines (file_names-Listed listed) ∙ join_lines-IsLines written
