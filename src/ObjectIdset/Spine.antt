-- ===== src/ObjectIdset/Spine.antt =====
-- A search tree without balance, a list along its right edge: what compat/tree.h promises can hold.
use gameoftrees.Base.{◌≡◌, refl, ap, List, [], ◌∷◌}
use gameoftrees.ObjectIdset.{
  IdElement, IdTree, leaf, node, elements, with_element, without_element, RbOps,
}

abbrev pub spine : List IdElement → IdTree
spine [] = leaf
spine (e ∷ l) = node leaf e (spine l)

pub elements-spine : (l : List IdElement) → elements (spine l) ≡ l
elements-spine [] = refl
elements-spine (e ∷ l) = ap (λ (k : List IdElement). e ∷ k) (elements-spine l)

abbrev pub spine_ops : RbOps
spine_ops = record {
  insert = λ t x. spine (with_element (elements t) x);
  remove = λ t x. spine (without_element (elements t) x);
  insert_law = λ t x s. elements-spine (with_element (elements t) x);
  remove_law = λ t x s. elements-spine (without_element (elements t) x);
}
