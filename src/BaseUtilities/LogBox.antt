-- ===== src/BaseUtilities/LogBox.antt =====
-- log_box of src/BaseUtilities.cpp: the rows that it logs, as the bytes of their texts. Lengths are
-- those of an int.
use base_utilities_esp.Base.{
  ℕ, ◌+◌, ◌-◌, ◌/◌, Bool, true, ◌&&◌, Option, none, some, List, [], ◌∷◌, ◌++◌, length, replicate,
  ltb, ◌==◌, if◌then◌else◌, max,
}

-- The loop for `max_content_len`.
unfoldable pub max_content_len : ℕ → List (List ℕ) → ℕ
max_content_len longest [] = longest
max_content_len longest (line ∷ lines) =
    max_content_len (if ltb longest (length line) then length line else longest) lines

abbrev title_len : Option (List ℕ) → ℕ
title_len none = 0
title_len (some title) = length title

unfoldable pub box_inner_width : Option (List ℕ) → List (List ℕ) → ℕ
box_inner_width title lines =
    let content : ℕ = max_content_len 0 lines in
    (if ltb (title_len title) content then content else title_len title) + 2

-- `%*s` of an empty text.
abbrev spaces : ℕ → List ℕ
spaces n = replicate n 32

-- `"+" + std::string(box_inner_width, '-') + "+"`
unfoldable pub line_sep : ℕ → List ℕ
line_sep width = 43 ∷ (replicate width 45 ++ 43 ∷ [])

-- "|%*s%s%*s|", the title in the middle.
unfoldable pub title_row : ℕ → List ℕ → List ℕ
title_row width title =
    let padding : ℕ = width - length title in
    let left_pad : ℕ = padding / 2 in
    124 ∷ (spaces left_pad ++ (title ++ (spaces (padding - left_pad) ++ 124 ∷ [])))

-- "| %s%*s|"
unfoldable pub content_row : ℕ → List ℕ → List ℕ
content_row width line = 124 ∷ 32 ∷ (line ++ (spaces (width - length line - 1) ++ 124 ∷ []))

title_rows : ℕ → Option (List ℕ) → List (List ℕ)
title_rows width none = []
title_rows width (some title) =
    if ltb 0 (length title) then title_row width title ∷ line_sep width ∷ [] else []

content_rows : ℕ → List (List ℕ) → List (List ℕ)
content_rows width [] = []
content_rows width (line ∷ lines) = content_row width line ∷ content_rows width lines

-- log_box: nothing, if the level is above that of the tag.
unfoldable pub log_box :
    (level tag_level : ℕ) → (title : Option (List ℕ)) → (lines : List (List ℕ)) → List (List ℕ)
unfolding title_rows content_rows
log_box level tag_level title lines =
    let width : ℕ = box_inner_width title lines in
    if ltb tag_level level
    then []
    else line_sep width
      ∷ (title_rows width title ++ (content_rows width lines ++ line_sep width ∷ []))

-- Whether all rows are of one length.
unfoldable pub all_of_length : ℕ → List (List ℕ) → Bool
all_of_length n [] = true
all_of_length n (row ∷ rows) = (length row == n) && all_of_length n rows

-- The length of the longest of some texts, and of a title and lines.
abbrev pub longest_of : List (List ℕ) → ℕ
longest_of [] = 0
longest_of (text ∷ texts) = max (length text) (longest_of texts)

abbrev pub texts_of : Option (List ℕ) → List (List ℕ) → List (List ℕ)
texts_of none lines = lines
texts_of (some title) lines = title ∷ lines
