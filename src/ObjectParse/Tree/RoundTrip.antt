-- ===== src/ObjectParse/Tree/RoundTrip.antt =====
-- Tree objects as Git writes them, and what got_object_parse_tree makes of them.
use gameoftrees.Base.{
  ℕ, zero, suc, ◌+◌, ◌-◌, ◌*◌, ◌%◌, ◌^◌, ◌≤◌, ◌<◌, ◌≡◌, ◌≢◌, refl, sym, ap, ◌∙◌, false, List, [],
  ◌∷◌, ◌++◌, Bytes, some, arith, All, length, take, drop, bit_or, ltb, if◌then◌else◌, length-append,
  take-append, drop-append, append_assoc,
}
use gameoftrees.Base.Bits.{or_parts, or_zero, zero_or}
use gameoftrees.Error.{bad_obj_data, trap, Result, ok, err, ◌>>=◌}
use gameoftrees.ObjectParse.Tree.{
  ParsedTreeEntry, strnlen, find_space, string_of, digit_of, mode_loop, entry_with_space,
  parse_tree_entry, Tree, insert_entry, tree_loop, no_entries, parse_tree,
}

-- An entry of a tree: the octal digits of its mode, its name, and the identifier of its object.
pub record TreeItem : Type 0 where
  pub digits : List ℕ
  pub name : Bytes
  pub id : Bytes

abbrev pub octal_text : List ℕ → Bytes
octal_text [] = []
octal_text (d ∷ ds) = (b'0' + d) ∷ octal_text ds

-- The number of octal digits behind those of `m`.
abbrev pub octal : ℕ → List ℕ → ℕ
octal m [] = m
octal m (d ∷ ds) = octal (m * 8 + d) ds

-- The text before an entry's NUL, and the entry.
abbrev pub item_head : TreeItem → Bytes
item_head e = octal_text e.digits ++ (b' ' ∷ e.name)

abbrev pub item_text : TreeItem → Bytes → Bytes
item_text e more = item_head e ++ (0 ∷ (e.id ++ more))

-- The bytes of a tree.
abbrev pub tree_text : List TreeItem → Bytes
tree_text [] = []
tree_text (e ∷ l) = item_text e (tree_text l)

pub record IsItem (e : TreeItem) : Type 0 where
  pub some_digits : 1 ≤ length e.digits
  pub octal_digits : All (λ d. d < 8) e.digits
  pub small : octal 0 e.digits < 2 ^ 32
  pub name_text : All (λ c. c ≢ 0) e.name
  pub whole_id : length e.id ≡ 20

abbrev pub parsed_item : TreeItem → ParsedTreeEntry
parsed_item e = record { mode = octal 0 e.digits; id = e.id }

pub strnlen-text : (s rest : Bytes) → All (λ c. c ≢ 0) s → strnlen (s ++ 0 ∷ rest) ≡ length s
strnlen-text [] rest h = refl
strnlen-text (c ∷ s) rest h = ground (arith, strnlen-text s rest h.1)

pub string_of-text : (s rest : Bytes) → All (λ c. c ≢ 0) s → string_of (s ++ 0 ∷ rest) ≡ s
string_of-text [] rest h = refl
string_of-text (c ∷ s) rest h = ground (arith, string_of-text s rest h.1)

length-octal_text : (ds : List ℕ) → length (octal_text ds) ≡ length ds
length-octal_text [] = refl
length-octal_text (d ∷ ds) = ap suc (length-octal_text ds)

find_space-octal_text :
    (ds : List ℕ) (rest : Bytes)
    → All (λ d. d < 8) ds
    → find_space (octal_text ds ++ (b' ' ∷ rest)) ≡ some (length ds)
find_space-octal_text [] rest h = refl
find_space-octal_text (d ∷ ds) rest h = ground (arith, find_space-octal_text ds rest h.1)

item_head-text :
    (ds : List ℕ) (name : Bytes)
    → All (λ d. d < 8) ds
    → All (λ c. c ≢ 0) name
    → All (λ c. c ≢ 0) (octal_text ds ++ (b' ' ∷ name))
item_head-text [] name h k = (omega arith, k)
item_head-text (d ∷ ds) name h k = (omega arith, item_head-text ds name h.1 k)

octal_grows : (ds : List ℕ) (m : ℕ) → m ≤ octal m ds
octal_grows [] m = omega arith
octal_grows (d ∷ ds) m = omega (arith, octal_grows ds (m * 8 + d))

mode_step :
    (m d : ℕ)
    → d < 8
    → m * 8 + d < 2 ^ 32
    → bit_or (m * 2 ^ 3 % 2 ^ 32) (digit_of (b'0' + d)) ≡ m * 8 + d
mode_step m d h s =
    let digit : digit_of (b'0' + d) ≡ d = ground arith in
    let shifted : m * 2 ^ 3 % 2 ^ 32 ≡ m * 2 ^ 3 + 0 = omega arith in
    let parts : bit_or (m * 2 ^ 3 + 0) (0 * 2 ^ 3 + d) ≡ bit_or m 0 * 2 ^ 3 + bit_or 0 d =
      or_parts 3 m 0 0 d (omega arith) (omega arith) in
    ap (λ (x : ℕ). bit_or x (digit_of (b'0' + d))) shifted
    ∙ ap (bit_or (m * 2 ^ 3 + 0)) (digit ∙ (let z : d ≡ 0 * 2 ^ 3 + d = omega arith in z))
    ∙ parts
    ∙ omega (arith, or_zero m, zero_or d)

mode_loop-octal_text :
    (ds : List ℕ) (m : ℕ)
    → All (λ d. d < 8) ds
    → octal m ds < 2 ^ 32
    → mode_loop m (octal_text ds) ≡ octal m ds
unfolding mode_loop
mode_loop-octal_text [] m h s = refl
mode_loop-octal_text (d ∷ ds) m h s =
    ap (λ (x : ℕ). mode_loop x (octal_text ds))
      (mode_step m d h.0 (omega (arith, octal_grows ds (m * 8 + d))))
    ∙ mode_loop-octal_text ds (m * 8 + d) h.1 s

sum : (n : ℕ) → n + 1 + 20 ≡ n + 21
sum n = omega arith

-- The parts of a buffer that starts with an entry.
module _ (e : TreeItem) (more : Bytes) (h : IsItem e) where
  abbrev buf : Bytes
  buf = item_text e more

  pub length-item_head : length (item_head e) ≡ length e.digits + 1 + length e.name
  length-item_head =
      omega
        (arith, length-append {0} (octal_text e.digits) (b' ' ∷ e.name), length-octal_text e.digits)

  elen_lem : strnlen buf ≡ length (item_head e)
  elen_lem =
      strnlen-text (item_head e) (e.id ++ more)
        (item_head-text e.digits e.name h.octal_digits h.name_text)

  take-buf : take (length (item_head e) + 1) buf ≡ item_head e ++ (0 ∷ [])
  take-buf =
      ap (λ (b : Bytes). take (length (item_head e) + 1) b)
        (sym (append_assoc (item_head e) (0 ∷ []) (e.id ++ more)))
      ∙ ap (λ (n : ℕ). take n ((item_head e ++ (0 ∷ [])) ++ (e.id ++ more)))
          (sym (length-append {0} (item_head e) (0 ∷ [])))
      ∙ take-append (item_head e ++ (0 ∷ [])) (e.id ++ more)

  drop-buf : drop (length (item_head e) + 1) buf ≡ e.id ++ more
  drop-buf =
      ap (λ (b : Bytes). drop (length (item_head e) + 1) b)
        (sym (append_assoc (item_head e) (0 ∷ []) (e.id ++ more)))
      ∙ ap (λ (n : ℕ). drop n ((item_head e ++ (0 ∷ [])) ++ (e.id ++ more)))
          (sym (length-append {0} (item_head e) (0 ∷ [])))
      ∙ drop-append (item_head e ++ (0 ∷ [])) (e.id ++ more)

  space_lem : find_space (take (length (item_head e) + 1) buf) ≡ some (length e.digits)
  space_lem =
      ap find_space (take-buf ∙ append_assoc (octal_text e.digits) (b' ' ∷ e.name) (0 ∷ []))
      ∙ find_space-octal_text e.digits (e.name ++ (0 ∷ [])) h.octal_digits

  take-digits : take (length e.digits) buf ≡ octal_text e.digits
  take-digits =
      ap (λ (b : Bytes). take (length e.digits) b)
        (append_assoc (octal_text e.digits) (b' ' ∷ e.name) (0 ∷ (e.id ++ more)))
      ∙ ap (λ (n : ℕ). take n (octal_text e.digits ++ (b' ' ∷ (e.name ++ (0 ∷ (e.id ++ more))))))
          (sym (length-octal_text e.digits))
      ∙ take-append (octal_text e.digits) (b' ' ∷ (e.name ++ (0 ∷ (e.id ++ more))))

  drop-digits : drop (length e.digits + 1) buf ≡ e.name ++ (0 ∷ (e.id ++ more))
  drop-digits =
      ap (λ (b : Bytes). drop (length e.digits + 1) b)
        (append_assoc (octal_text e.digits) (b' ' ∷ e.name) (0 ∷ (e.id ++ more))
          ∙ sym (append_assoc (octal_text e.digits) (b' ' ∷ []) (e.name ++ (0 ∷ (e.id ++ more)))))
      ∙ ap
          (λ (n : ℕ).
            drop n ((octal_text e.digits ++ (b' ' ∷ [])) ++ (e.name ++ (0 ∷ (e.id ++ more)))))
          (omega (
            arith,
            length-append {0} (octal_text e.digits) (b' ' ∷ []),
            length-octal_text e.digits,
          ))
      ∙ drop-append (octal_text e.digits ++ (b' ' ∷ [])) (e.name ++ (0 ∷ (e.id ++ more)))

  pub length-buf : length buf ≡ length (item_head e) + 1 + 20 + length more
  length-buf = omega (
    arith,
    length-append {0} (item_head e) (0 ∷ (e.id ++ more)),
    length-append {0} e.id more,
    h.whole_id,
  )

  -- The entry behind the search for the space.
  entry_lem :
      (i : ℕ)
      → length e.digits ≡ suc i
      → entry_with_space buf (length (item_head e) + 1) (some (suc i))
        ≡ ok (parsed_item e, e.name, length (item_head e) + 21)
  unfolding entry_with_space
  entry_lem i n =
      let enough : ltb (length buf - (length (item_head e) + 1)) 20 ≡ false =
        ground (arith, length-buf) in
      let mode : mode_loop 0 (take (suc i) buf) ≡ octal 0 e.digits =
        ap (λ (k : ℕ). mode_loop 0 (take k buf)) (sym n)
        ∙ ap (mode_loop 0) take-digits
        ∙ mode_loop-octal_text e.digits 0 h.octal_digits h.small in
      let id : take 20 (drop (length (item_head e) + 1) buf) ≡ e.id =
        ap (take 20) drop-buf
        ∙ ap (λ (k : ℕ). take k (e.id ++ more)) (sym h.whole_id)
        ∙ take-append e.id more in
      let name : string_of (drop (suc (suc i)) buf) ≡ e.name =
        ap (λ (k : ℕ). string_of (drop k buf))
          (let two : suc (suc i) ≡ length e.digits + 1 = omega (arith, n) in two)
        ∙ ap string_of drop-digits
        ∙ string_of-text e.name (e.id ++ more) h.name_text in
      rw (enough, mode, id, name)
        (ap (λ (k : ℕ). ok (parsed_item e, e.name, k)) (sum (length (item_head e))))

  parse_tree_entry_lem :
      parse_tree_entry buf ≡ ok (parsed_item e, e.name, length (item_head e) + 21)
  unfolding parse_tree_entry
  parse_tree_entry_lem =
      let n : length e.digits ≡ suc (length e.digits - 1) = omega (arith, h.some_digits) in
      let inside : ltb (length buf) (length (item_head e) + 1) ≡ false =
        ground (arith, length-buf) in
      let space : find_space (take (length (item_head e) + 1) buf)
          ≡ some (suc (length e.digits - 1)) =
        space_lem ∙ ap some n in
      ap
        (λ (k : ℕ).
          if ltb (length buf) (k + 1)
          then err bad_obj_data
          else entry_with_space buf (k + 1) (find_space (take (k + 1) buf)))
        elen_lem
      ∙ rw (inside, space) (entry_lem (length e.digits - 1) n)

  drop_item : drop (length (item_head e) + 21) buf ≡ more
  drop_item =
      let parts : buf ≡ ((item_head e ++ (0 ∷ [])) ++ e.id) ++ more =
        sym (append_assoc (item_head e) (0 ∷ []) (e.id ++ more))
        ∙ sym (append_assoc (item_head e ++ (0 ∷ [])) e.id more) in
      let size : length (item_head e) + 21 ≡ length ((item_head e ++ (0 ∷ [])) ++ e.id) = omega (
        arith,
        length-append {0} (item_head e ++ (0 ∷ [])) e.id,
        length-append {0} (item_head e) (0 ∷ []),
        h.whole_id,
      ) in
      ap (drop (length (item_head e) + 21)) parts
      ∙ ap (λ (n : ℕ). drop n (((item_head e ++ (0 ∷ [])) ++ e.id) ++ more)) size
      ∙ drop-append ((item_head e ++ (0 ∷ [])) ++ e.id) more

tree_loop_end : (fuel : ℕ) (t : Tree) → tree_loop fuel t [] ≡ ok t
unfolding tree_loop
tree_loop_end zero t = refl
tree_loop_end (suc fuel) t = refl

tree_loop_step :
    (fuel : ℕ) (t : Tree) (b : Bytes)
    → 1 ≤ length b
    → tree_loop (suc fuel) t b ≡ (
        parse_tree_entry b >>= λ (pte, name, elen).
        insert_entry t name pte >>= λ t'. tree_loop fuel t' (drop elen b))
unfolding tree_loop
tree_loop_step fuel t [] h = absurd (omega arith)
tree_loop_step fuel t (c ∷ b) h = refl

-- The entries put into the list in the order of the tree, until one of them is there already.
abbrev pub insert_items : Tree → List TreeItem → Result Tree
insert_items t [] = ok t
insert_items t (e ∷ l) = insert_entry t e.name (parsed_item e) >>= λ t'. insert_items t' l

insert_then :
    (r : Result Tree) (f g : Tree → Result Tree) → ((t : Tree) → f t ≡ g t) → (r >>= f) ≡ (r >>= g)
insert_then (ok t) f g h = h t
insert_then (err e) f g h = refl
insert_then (trap z) f g h = refl

tree_loop-tree_text :
    (l : List TreeItem) (fuel : ℕ) (t : Tree)
    → All IsItem l
    → length (tree_text l) ≤ fuel
    → tree_loop fuel t (tree_text l) ≡ insert_items t l
tree_loop-tree_text [] zero t h f = tree_loop_end zero t
tree_loop-tree_text [] (suc fuel) t h f = tree_loop_end (suc fuel) t
tree_loop-tree_text (e ∷ l) zero t h f = absurd (omega (arith, length-buf e (tree_text l) h.0))
tree_loop-tree_text (e ∷ l) (suc fuel) t h f =
    let size = length-buf e (tree_text l) h.0 in
    tree_loop_step fuel t (item_text e (tree_text l)) (omega (arith, size))
    ∙ rw (parse_tree_entry_lem e (tree_text l) h.0, drop_item e (tree_text l) h.0)
        (insert_then (insert_entry t e.name (parsed_item e)) (λ t'. tree_loop fuel t' (tree_text l))
          (λ t'. insert_items t' l) (λ t'. tree_loop-tree_text l fuel t' h.1 (omega (arith, size))))

-- got_object_parse_tree of the bytes of a tree whose entries have an octal mode below 2 ^ 32, a name
-- without a NUL and an identifier of 20 bytes takes each entry's mode, name and identifier, puts
-- them into the list one after the other, and fails where the insertion fails.
pub parse_tree-insert_items :
    (l : List TreeItem) → All IsItem l → parse_tree (tree_text l) ≡ insert_items no_entries l
unfolding parse_tree
parse_tree-insert_items l h =
    tree_loop-tree_text l (length (tree_text l)) no_entries h (omega arith)
