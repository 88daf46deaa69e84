-- ===== src/PatchTree/Visits.antt =====
-- The loop of `append_unsafe` over a sorted patch, the deletion tree and the addition tree: which of the
-- three current elements a round takes. A source is the list of its current element and those behind it.
use ostrich.Base.{
  zero, suc, Bool, true, false, not, ◌&&◌, Option, none, some, List, [], ◌∷◌, if◌then◌else◌,
}
use ostrich.Base.Int.{ℤ, pos, negsuc}
use ostrich.Triple.{Triple, PatchElement}
use ostrich.AdditionValue.{AdditionValue}
use ostrich.DeletionValue.{DeletionValue}
use ostrich.Delta.{is_zero, is_negative}
use mathlib.Core.Option

-- A record of the deletion tree and of the addition tree.
abbrev pub Deletion : Type 0
Deletion = Triple × DeletionValue

abbrev pub Addition : Type 0
Addition = Triple × AdditionValue

-- `last` is the triple of `patch_element` before the current element was read: once the patch has
-- ended, `patch_element` keeps it.
pub record Sources : Type 0 where
  pub patch : List PatchElement
  pub deletions : List Deletion
  pub additions : List Addition
  pub last : Triple

-- The elements that a round takes, and the triple of `patch_element` in it.
pub record Visit : Type 0 where
  pub patch : Option PatchElement
  pub deletion : Option Deletion
  pub addition : Option Addition
  pub current : Triple

abbrev pub is_positive : ℤ → Bool
is_positive (pos zero) = false
is_positive (pos (suc n)) = true
is_positive (negsuc n) = false

abbrev pub head : {A : Type 0} → List A → Option A
head [] = none
head (a ∷ l) = some a

abbrev pub behind : {A : Type 0} → List A → List A
behind [] = []
behind (a ∷ l) = l

-- What becomes of the iterators after the round.
pub data Branch : Type 0 where
  on_deletion : Branch
  on_addition : Branch
  on_patch : Branch
  on_patch_deletion : Branch
  on_patch_addition : Branch
  on_both : Bool → Branch

module _ (compare : Triple → Triple → ℤ) where
  -- `x < y`, `x == y` and `x > y` of two current triples, `none` for a source that has ended: the
  -- macros from P_LT_D to A_LT_D.
  abbrev pub is_lt : Option Triple → Option Triple → Bool
  is_lt none y = false
  is_lt (some x) none = true
  is_lt (some x) (some y) = is_negative (compare x y)

  abbrev pub is_eq : Option Triple → Option Triple → Bool
  is_eq none y = false
  is_eq (some x) none = false
  is_eq (some x) (some y) = is_zero (compare x y)

  abbrev pub is_gt : Option Triple → Option Triple → Bool
  is_gt x none = false
  is_gt none (some y) = true
  is_gt (some x) (some y) = is_positive (compare x y)

  unfoldable pub choose : Option Triple → Option Triple → Option Triple → Branch
  choose p d a =
      if is_gt p d && is_lt d a
      then on_deletion
      else (if is_gt p a && is_gt d a
          then on_addition
          else (if is_lt p a && is_lt p d
              then on_patch
              else (if is_eq p d && is_lt p a
                  then on_patch_deletion
                  else (if is_eq p a && is_lt p d
                      then on_patch_addition
                      else on_both (not (is_gt p d))))))

abbrev pub current_of : Sources → Triple
current_of s = elim s.patch [ [] ↦ s.last | ◌∷◌ e l ↦ e.element_triple ]

-- The round of a branch, and the sources with `should_step_patch`, `should_step_deletions` and
-- `should_step_additions` carried out.
unfoldable pub take : Branch → Sources → Visit × Sources
take on_deletion s = (
  record { patch = none; deletion = head s.deletions; addition = none; current = current_of s },
  record s { deletions = behind s.deletions },
)
take on_addition s = (
  record { patch = none; deletion = none; addition = head s.additions; current = current_of s },
  record s { additions = behind s.additions },
)
take on_patch s = (
  record { patch = head s.patch; deletion = none; addition = none; current = current_of s },
  record s { patch = behind s.patch; last = current_of s },
)
take on_patch_deletion s = (
  record {
    patch = head s.patch;
    deletion = head s.deletions;
    addition = none;
    current = current_of s;
  },
  record s { patch = behind s.patch; deletions = behind s.deletions; last = current_of s },
)
take on_patch_addition s = (
  record {
    patch = head s.patch;
    deletion = none;
    addition = head s.additions;
    current = current_of s;
  },
  record s { patch = behind s.patch; additions = behind s.additions; last = current_of s },
)
take (on_both true) s = (
  record {
    patch = head s.patch;
    deletion = head s.deletions;
    addition = head s.additions;
    current = current_of s;
  },
  record {
    patch = behind s.patch;
    deletions = behind s.deletions;
    additions = behind s.additions;
    last = current_of s;
  },
)
take (on_both false) s = (
  record {
    patch = none;
    deletion = head s.deletions;
    addition = head s.additions;
    current = current_of s;
  },
  record s { deletions = behind s.deletions; additions = behind s.additions },
)

abbrev pub has_ended : Sources → Bool
has_ended s = elim s.patch [
  | [] ↦ elim s.deletions [
    | [] ↦ elim s.additions [ [] ↦ true | ◌∷◌ a l ↦ false ]
    | ◌∷◌ d l ↦ false
  ]
  | ◌∷◌ e l ↦ false
]

module _ (compare : Triple → Triple → ℤ) where
  -- One round, or `none` for `break`.
  unfoldable pub next_visit : Sources → Option (Visit × Sources)
  unfolding take
  next_visit s =
      if has_ended s
      then none
      else some (
          take
            (choose compare (Option.map (λ e. e.element_triple) (head s.patch))
              (Option.map (λ d. d.0) (head s.deletions)) (Option.map (λ a. a.0) (head s.additions)))
            s)
