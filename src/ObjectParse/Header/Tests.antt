-- ===== src/ObjectParse/Header/Tests.antt =====
-- Headers, run.
use gameoftrees.Base.{◌+◌, ◌≡◌, [], ◌∷◌, ◌++◌, length, arith}
use gameoftrees.Error.{ok}
use gameoftrees.ObjectParse.Header.{tree_label, type_tree, parse_header}
use gameoftrees.ObjectParse.Header.RoundTrip.{header, tree_type, parse_header-header}
use gameoftrees.ObjectParse.Header.Bounds.{IsHeader, parse_header-IsHeader}
use gameoftrees.Error.{Ensures}

parse_header-header_example :
    parse_header (header tree_label 1042 ++ (0 ∷ b'1' ∷ []))
    ≡ ok (record { kind = type_tree; hdrlen = length (header tree_label 1042) + 1; size = 1042 })
parse_header-header_example =
    parse_header-header tree_label type_tree 1042 (b'1' ∷ []) tree_type (omega arith)

-- "tree" and no number.
parse_header-IsHeader_example :
    Ensures
      (IsHeader (b't' ∷ b'r' ∷ b'e' ∷ b'e' ∷ 0 ∷ []))
      (parse_header (b't' ∷ b'r' ∷ b'e' ∷ b'e' ∷ 0 ∷ []))
parse_header-IsHeader_example = parse_header-IsHeader (b't' ∷ b'r' ∷ b'e' ∷ b'e' ∷ 0 ∷ [])
