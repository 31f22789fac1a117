-- ===== src/ItemIndex/SetOp.antt =====
-- include/sserialize/containers/ItemIndexPrivates/ItemIndexPrivate.h: the merge of two indexes.
-- An index is the list of the ids that its position iterator gets in turn.
pub mod Member
use sserialize.Base.{
  ℕ, zero, suc, true, false, ◌+◌, ◌<◌, ltb, if◌then◌else◌, Bool, List, [], ◌∷◌, ◌++◌, length,
}

-- The constants of IntersectOp, UniteOp, DifferenceOp and SymmetricDifferenceOp.
pub record SetOpTraits : Type 0 where
  pub push_first_smaller : Bool
  pub push_equal : Bool
  pub push_second_smaller : Bool
  pub push_first_remainder : Bool
  pub push_second_remainder : Bool

abbrev pub intersect_op : SetOpTraits
intersect_op = record {
  push_first_smaller = false;
  push_equal = true;
  push_second_smaller = false;
  push_first_remainder = false;
  push_second_remainder = false;
}

abbrev pub unite_op : SetOpTraits
unite_op = record {
  push_first_smaller = true;
  push_equal = true;
  push_second_smaller = true;
  push_first_remainder = true;
  push_second_remainder = true;
}

abbrev pub difference_op : SetOpTraits
difference_op = record {
  push_first_smaller = true;
  push_equal = false;
  push_second_smaller = false;
  push_first_remainder = true;
  push_second_remainder = false;
}

abbrev pub symmetric_difference_op : SetOpTraits
symmetric_difference_op = record {
  push_first_smaller = true;
  push_equal = false;
  push_second_smaller = true;
  push_first_remainder = true;
  push_second_remainder = true;
}

-- `if (TFunc::...) creator.push_back(id)`, for ids that are pushed in front of the later ones.
unfoldable pub push_if : Bool → ℕ → List ℕ → List ℕ
push_if b id rest = if b then id ∷ rest else rest

-- The loops of GenericSetOpExecuter::execute: the ids that the creator is given.
unfoldable pub execute : SetOpTraits → List ℕ → List ℕ → List ℕ
execute t [] [] = []
execute t [] (s ∷ ss) = if t.push_second_remainder then s ∷ ss else []
execute t (f ∷ fs) [] = if t.push_first_remainder then f ∷ fs else []
execute t (f ∷ fs) (s ∷ ss) = elim (ltb f s) [
  | true ↦ push_if t.push_first_smaller f (execute t fs (s ∷ ss))
  | false ↦ elim (ltb s f) [
    | true ↦ push_if t.push_second_smaller s (execute t (f ∷ fs) ss)
    | false ↦ push_if t.push_equal f (execute t fs ss)
  ]
]
