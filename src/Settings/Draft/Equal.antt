-- ===== src/Settings/Draft/Equal.antt =====
-- ui/src/features/settings/lib/dirty.ts, `isEqual`: structural equality of the drafts' values.
pub mod Keys
pub mod Laws
pub mod Equivalence
mod Tests
use kiro_reverse_api.Prelude.{
  ℕ, zero, suc, Bool, true, false, ◌&&◌, ◌||◌, not, List, [], ◌∷◌, if◌then◌else◌, ◌==◌, length,
}
use kiro_reverse_api.Text.{Text, text_eq}

-- A number is told by the text that JavaScript prints for it, with "-0" for negative zero, so
-- `Object.is` compares texts. The entries of an object stand in the order of `Object.keys`.
mutual
  pub data Value : Type 0 where
    undefined : Value
    null : Value
    flag : Bool → Value
    num : Text → Value
    str : Text → Value
    arr : Values → Value
    obj : Entries → Value

  pub data Values : Type 0 where
    nil : Values
    cons : Value → Values → Values

  pub data Entries : Type 0 where
    end : Entries
    entry : Text → Value → Entries → Entries

abbrev pub is_defined : Value → Bool
is_defined undefined = false
is_defined null = true
is_defined (flag b) = true
is_defined (num n) = true
is_defined (str s) = true
is_defined (arr xs) = true
is_defined (obj es) = true

-- `record[key]`
abbrev pub get_value : Text → Entries → Value
get_value k end = undefined
get_value k (entry l v es) = if text_eq l k then v else get_value k es

-- `Object.keys(record).filter((key) => record[key] !== undefined)`
abbrev pub defined_keys : Entries → List Text
defined_keys end = []
defined_keys (entry k v es) = if is_defined v then k ∷ defined_keys es else defined_keys es

abbrev pub values_length : Values → ℕ
values_length nil = 0
values_length (cons v vs) = suc (values_length vs)

abbrev pub same_flag : Bool → Bool → Bool
same_flag true b = b
same_flag false b = not b

unfoldable mutual
  pub is_equal : Value → Value → Bool
  is_equal undefined undefined = true
  is_equal null null = true
  is_equal (flag a) (flag b) = same_flag a b
  is_equal (num a) (num b) = text_eq a b
  is_equal (str a) (str b) = text_eq a b
  is_equal (arr xs) (arr ys) = values_length xs == values_length ys && every_equal xs ys
  is_equal (obj a) (obj b) = length (defined_keys a) == length (defined_keys b) && entries_equal a b
  is_equal a b = false

  -- Item by item, as long as there are items on the left.
  pub every_equal : Values → Values → Bool
  every_equal nil ys = true
  every_equal (cons x xs) nil = is_equal x undefined && every_equal xs nil
  every_equal (cons x xs) (cons y ys) = is_equal x y && every_equal xs ys

  pub entries_equal : Entries → Entries → Bool
  entries_equal end b = true
  entries_equal (entry k v es) b =
      (not (is_defined v) || is_equal v (get_value k b)) && entries_equal es b
