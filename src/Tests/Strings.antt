-- ===== src/Tests/Strings.antt =====
-- The string helpers on concrete strings.
use docker_baseimage.Base.{◌≡◌, ◌⊎◌, [], ◌∷◌, ◌++◌, ◌≤◌, length, All}
use docker_baseimage.Text.{Bytes, codes, remove_duplicated_char, split, count_tokens}
use docker_baseimage.Text.Chars.{squeeze}
use docker_baseimage.Text.Split.{IsFree, joined, split_lem}

abbrev two_lines : Bytes
two_lines = codes "yes\nno"

abbrev three_params : Bytes
three_params = codes "-a\n\n\n-b\nc\n"

split_lem_example :
    All (IsFree b'\n') (split three_params b'\n')
    × ((squeeze b'\n' three_params ≡ joined b'\n' (split three_params b'\n'))
        ⊎ (squeeze b'\n' three_params ≡ joined b'\n' (split three_params b'\n') ++ b'\n' ∷ []))
    × (length (split three_params b'\n')
        ≤ count_tokens (remove_duplicated_char three_params b'\n') b'\n')
split_lem_example = split_lem three_params b'\n'
