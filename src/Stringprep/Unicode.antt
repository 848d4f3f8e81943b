-- ===== src/Stringprep/Unicode.antt =====
-- The arrays of stringprep_uni_data.h and stringprep_uni_norm.h, read off the text of their
-- initialisers, and the tables that the driver indexes. What lies behind an array is not known: it
-- is a parameter.
pub mod Cells
pub mod Checks
pub mod Lookups
pub mod Deltas
pub mod Mapped
pub mod Composed
pub mod Safe
mod Tests
pub mod Pages0
pub mod Pages1
pub mod Groups0
pub mod Groups1
pub mod Groups2
pub mod Groups3
pub mod Groups4
pub mod Infos
pub mod Cases0
pub mod Cases1
pub mod ClassPages0
pub mod ClassPages1
pub mod ClassGroups0
pub mod ClassGroups1
pub mod DecompPages0
pub mod DecompPages1
pub mod DecompGroups0
pub mod DecompGroups1
pub mod DecompGroups2
pub mod DecompGroups3
pub mod DecompGroups4
pub mod DecompGroups5
pub mod DecompGroups6
pub mod Decomps0
pub mod Decomps1
pub mod Decomps2
pub mod Decomps3
pub mod CompPages0
pub mod CompPages1
pub mod CompGroups0
pub mod CompGroups1
pub mod Firsts
pub mod Seconds
pub mod Both0
pub mod Both1
pub mod Both2
pub mod Both3
use Prim.Native.String.{String}
use hz_platform.Prelude.{
  ℕ, zero, suc, ◌+◌, ◌-◌, ◌*◌, Bool, true, false, ◌&&◌, ◌||◌, List, [], ◌∷◌, ◌++◌, ltb, leb, ◌==◌,
  ℤ, pos, negsuc, if◌then◌else◌,
}
use hz_platform.Text.{codes}
use hz_platform.Stringprep.Tables.{Tables}
use hz_platform.Stringprep.Unicode.Pages0.{page_map_0}
use hz_platform.Stringprep.Unicode.Pages1.{page_map_1}
use hz_platform.Stringprep.Unicode.Groups0.{group_map_0}
use hz_platform.Stringprep.Unicode.Groups1.{group_map_1}
use hz_platform.Stringprep.Unicode.Groups2.{group_map_2}
use hz_platform.Stringprep.Unicode.Groups3.{group_map_3}
use hz_platform.Stringprep.Unicode.Groups4.{group_map_4}
use hz_platform.Stringprep.Unicode.Infos.{groups}
use hz_platform.Stringprep.Unicode.Cases0.{multi_case_table_0}
use hz_platform.Stringprep.Unicode.Cases1.{multi_case_table_1}
use hz_platform.Stringprep.Unicode.ClassPages0.{cclass_page_map_0}
use hz_platform.Stringprep.Unicode.ClassPages1.{cclass_page_map_1}
use hz_platform.Stringprep.Unicode.ClassGroups0.{cclass_group_map_0}
use hz_platform.Stringprep.Unicode.ClassGroups1.{cclass_group_map_1}
use hz_platform.Stringprep.Unicode.DecompPages0.{decomp_page_map_0}
use hz_platform.Stringprep.Unicode.DecompPages1.{decomp_page_map_1}
use hz_platform.Stringprep.Unicode.DecompGroups0.{decomp_group_map_0}
use hz_platform.Stringprep.Unicode.DecompGroups1.{decomp_group_map_1}
use hz_platform.Stringprep.Unicode.DecompGroups2.{decomp_group_map_2}
use hz_platform.Stringprep.Unicode.DecompGroups3.{decomp_group_map_3}
use hz_platform.Stringprep.Unicode.DecompGroups4.{decomp_group_map_4}
use hz_platform.Stringprep.Unicode.DecompGroups5.{decomp_group_map_5}
use hz_platform.Stringprep.Unicode.DecompGroups6.{decomp_group_map_6}
use hz_platform.Stringprep.Unicode.Decomps0.{decomp_list_0}
use hz_platform.Stringprep.Unicode.Decomps1.{decomp_list_1}
use hz_platform.Stringprep.Unicode.Decomps2.{decomp_list_2}
use hz_platform.Stringprep.Unicode.Decomps3.{decomp_list_3}
use hz_platform.Stringprep.Unicode.CompPages0.{comp_page_map_0}
use hz_platform.Stringprep.Unicode.CompPages1.{comp_page_map_1}
use hz_platform.Stringprep.Unicode.CompGroups0.{comp_group_map_0}
use hz_platform.Stringprep.Unicode.CompGroups1.{comp_group_map_1}
use hz_platform.Stringprep.Unicode.Firsts.{comp_first_list}
use hz_platform.Stringprep.Unicode.Seconds.{comp_second_list}
use hz_platform.Stringprep.Unicode.Both0.{comp_both_list_0}
use hz_platform.Stringprep.Unicode.Both1.{comp_both_list_1}
use hz_platform.Stringprep.Unicode.Both2.{comp_both_list_2}
use hz_platform.Stringprep.Unicode.Both3.{comp_both_list_3}

-- The decimal numbers in a text; `open` while one is read, whose digits so far are `n`.
unfoldable pub decimals : Bool → ℕ → List ℕ → List ℕ
decimals false n [] = []
decimals true n [] = n ∷ []
decimals open_number n (c ∷ cs) = elim (leb 48 c && leb c 57) [
  | true ↦ decimals true (n * 10 + (c - 48)) cs
  | false ↦ elim open_number [ true ↦ n ∷ decimals false 0 cs | false ↦ decimals false 0 cs ]
]

abbrev pub signed : Bool → ℕ → ℤ
signed false n = pos n
signed true zero = pos 0
signed true (suc n) = negsuc n

-- The same with signs; `minus` if the last character that is no digit was one.
unfoldable pub signed_decimals : Bool → Bool → ℕ → List ℕ → List ℤ
signed_decimals minus false n [] = []
signed_decimals minus true n [] = signed minus n ∷ []
signed_decimals minus open_number n (c ∷ cs) = elim (leb 48 c && leb c 57) [
  | true ↦ signed_decimals minus true (n * 10 + (c - 48)) cs
  | false ↦ elim open_number [
    | true ↦ signed minus n ∷ signed_decimals (c == 45) false 0 cs
    | false ↦ signed_decimals (c == 45) false 0 cs
  ]
]

unfoldable pub numbers : List String → List ℕ
unfolding decimals
numbers [] = []
numbers (row ∷ rows) = decimals false 0 (codes row) ++ numbers rows

unfoldable pub integers : List String → List ℤ
unfolding signed_decimals
integers [] = []
integers (row ∷ rows) = signed_decimals false false 0 (codes row) ++ integers rows

abbrev pub pairs : List ℕ → List (ℕ × ℕ)
pairs (a ∷ b ∷ l) = (a, b) ∷ pairs l
pairs _ = []

abbrev pub take : ℕ → List ℕ → List ℕ
take zero l = []
take (suc n) [] = []
take (suc n) (x ∷ l) = x ∷ take n l

-- A row of multiCaseTable: its number of characters, and these.
abbrev pub counted_row : List ℕ → List ℕ
counted_row [] = []
counted_row (n ∷ l) = take n l

unfoldable pub lines : List String → List (List ℕ)
unfolding decimals
lines [] = []
lines (row ∷ rows) = counted_row (decimals false 0 (codes row)) ∷ lines rows

unfoldable pub page_map_cells : List ℕ
unfolding numbers page_map_0 page_map_1
page_map_cells = numbers page_map_0 ++ numbers page_map_1

unfoldable pub group_map_cells : List ℕ
unfolding numbers group_map_0 group_map_1 group_map_2 group_map_3 group_map_4
group_map_cells =
    numbers group_map_0
    ++ numbers group_map_1
    ++ numbers group_map_2
    ++ numbers group_map_3
    ++ numbers group_map_4

unfoldable pub groups_cells : List ℤ
unfolding integers groups
groups_cells = integers groups

unfoldable pub multi_case_table_cells : List (List ℕ)
unfolding lines multi_case_table_0 multi_case_table_1
multi_case_table_cells = lines multi_case_table_0 ++ lines multi_case_table_1

unfoldable pub cclass_page_map_cells : List ℕ
unfolding numbers cclass_page_map_0 cclass_page_map_1
cclass_page_map_cells = numbers cclass_page_map_0 ++ numbers cclass_page_map_1

unfoldable pub cclass_group_map_cells : List ℕ
unfolding numbers cclass_group_map_0 cclass_group_map_1
cclass_group_map_cells = numbers cclass_group_map_0 ++ numbers cclass_group_map_1

unfoldable pub decomp_page_map_cells : List ℕ
unfolding numbers decomp_page_map_0 decomp_page_map_1
decomp_page_map_cells = numbers decomp_page_map_0 ++ numbers decomp_page_map_1

unfoldable pub decomp_group_map_cells : List ℤ
unfolding integers decomp_group_map_0 decomp_group_map_1 decomp_group_map_2 decomp_group_map_3
    decomp_group_map_4 decomp_group_map_5 decomp_group_map_6
decomp_group_map_cells =
    integers decomp_group_map_0
    ++ integers decomp_group_map_1
    ++ integers decomp_group_map_2
    ++ integers decomp_group_map_3
    ++ integers decomp_group_map_4
    ++ integers decomp_group_map_5
    ++ integers decomp_group_map_6

unfoldable pub decomp_list_cells : List ℕ
unfolding numbers decomp_list_0 decomp_list_1 decomp_list_2 decomp_list_3
decomp_list_cells =
    numbers decomp_list_0 ++ numbers decomp_list_1 ++ numbers decomp_list_2 ++ numbers decomp_list_3

unfoldable pub comp_page_map_cells : List ℕ
unfolding numbers comp_page_map_0 comp_page_map_1
comp_page_map_cells = numbers comp_page_map_0 ++ numbers comp_page_map_1

unfoldable pub comp_group_map_cells : List ℤ
unfolding integers comp_group_map_0 comp_group_map_1
comp_group_map_cells = integers comp_group_map_0 ++ integers comp_group_map_1

unfoldable pub comp_first_list_cells : List (ℕ × ℕ)
unfolding numbers comp_first_list
comp_first_list_cells = pairs (numbers comp_first_list)

unfoldable pub comp_second_list_cells : List (ℕ × ℕ)
unfolding numbers comp_second_list
comp_second_list_cells = pairs (numbers comp_second_list)

unfoldable pub comp_both_list_cells : List ℕ
unfolding numbers comp_both_list_0 comp_both_list_1 comp_both_list_2 comp_both_list_3
comp_both_list_cells =
    numbers comp_both_list_0
    ++ numbers comp_both_list_1
    ++ numbers comp_both_list_2
    ++ numbers comp_both_list_3

-- What is read at an index behind an array of numbers, of integers, of pairs, or outside the rows.
pub record Beyond : Type 0 where
  pub number : ℕ → ℕ
  pub integer : ℕ → ℤ
  pub pair : ℕ → ℕ × ℕ
  pub row : ℤ → List ℕ

module _ {A : Type 0} where
  unfoldable pub element : List A → (ℕ → A) → ℕ → A
  element [] out i = out i
  element (x ∷ xs) out zero = x
  element (x ∷ xs) out (suc i) = element xs out i

abbrev pub row_at : (ℤ → List ℕ) → ℤ → List ℕ
row_at out (pos i) = element multi_case_table_cells (λ n. out (pos n)) i
row_at out (negsuc i) = out (negsuc i)

-- compBothList has rows of 37.
abbrev pub both_at : (ℕ → ℕ) → ℤ → ℕ → ℕ
both_at out (pos i) j = element comp_both_list_cells out (i * 37 + j)
both_at out (negsuc i) j = out i

unfoldable pub unicode : Beyond → Tables
unicode out = record {
  page_map = element page_map_cells out.number;
  group_map = element group_map_cells out.number;
  groups = element groups_cells out.integer;
  multi_case_table = row_at out.row;
  cclass_page_map = element cclass_page_map_cells out.number;
  cclass_group_map = element cclass_group_map_cells out.number;
  decomp_page_map = element decomp_page_map_cells out.number;
  decomp_group_map = element decomp_group_map_cells out.integer;
  decomp_list = element decomp_list_cells out.number;
  comp_page_map = element comp_page_map_cells out.number;
  comp_group_map = element comp_group_map_cells out.integer;
  comp_first_list = element comp_first_list_cells out.pair;
  comp_second_list = element comp_second_list_cells out.pair;
  comp_both_list = both_at out.number;
}
