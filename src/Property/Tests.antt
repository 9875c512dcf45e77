-- ===== src/Property/Tests.antt =====
-- The table of PropertyServer at concrete inputs: numbers are printed in strokes, two for each unit
-- and one more below zero.
use mathlib.Core.List.{Permᴰ}
use tars_framework.Base.{
  ℕ, zero, suc, ◌+◌, ◌*◌, ◌/◌, ◌%◌, ◌≡◌, refl, ap, ◌∙◌, List, [], ◌∷◌, String, string_key,
  if◌then◌else◌, ◌==◌, arith,
}
use tars_framework.Base.Int.{ℤ, pos, negsuc, ◌+ℤ◌}
use tars_framework.Base.Map.{Map, find, insert, update}
use tars_framework.Stat.Hash.Summary.{is_full}
use tars_framework.Stat.Hash.InMap.{table, table-Keeps}
use tars_framework.Property.Hash.{
  StatPropInfo, Texts, Format, merge_value, sums_of, merge_prop_info, merge_infos, infos_of, add,
}
use tars_framework.Property.Hash.Numbers.{sums, Prints}
use tars_framework.Property.Hash.Orders.{
  Reads, told, Stored, done, next, merge_all, numbers_any_order,
}

abbrev strokes : ℕ → String
strokes zero = ""
strokes (suc n) = String.◌∷◌ "1" (strokes n)

abbrev count_strokes : String → ℕ
count_strokes String.[] = 0
count_strokes (String.◌∷◌ c s) = suc (count_strokes s)

abbrev of_count : ℕ → ℤ
of_count n = if n % 2 == 0 then pos (n / 2) else negsuc (n / 2)

abbrev texts : Texts
texts = record {
  strto = λ s. of_count (count_strokes s);
  tostr = λ z. elim z [ pos n ↦ strokes (2 * n) | negsuc n ↦ strokes (2 * n + 1) ];
  sepstr = λ s sep. s ∷ [];
  add_doubles = λ a b. a;
}

count-strokes : (n : ℕ) → count_strokes (strokes n) ≡ n
count-strokes zero = refl
count-strokes (suc n) = ap suc (count-strokes n)

texts-Prints : Prints texts
texts-Prints = record { strto-tostr = go }
  where
    go : (z : ℤ) → texts.strto (texts.tostr z) ≡ z
    go (pos n) = ap of_count (count-strokes (2 * n)) ∙ ground arith
    go (negsuc n) = ap of_count (count-strokes (2 * n + 1)) ∙ ground arith

abbrev format : Format String (List StatPropInfo)
format = record { write_head = λ h. h; write_body = λ b. b; read_body = λ b. b }

format-Reads : Reads format
format-Reads = record { read-write = λ b. refl }

abbrev report : String → List StatPropInfo
report v = record { policy = "Sum"; value = v } ∷ record { policy = "Max"; value = "1" } ∷ []

abbrev reports : List (String × List StatPropInfo)
reports = ("App.Server", report "11") ∷ ("App.Server", report "1111") ∷ []

abbrev turned : List (String × List StatPropInfo)
turned = ("App.Server", report "1111") ∷ ("App.Server", report "11") ∷ []

-- The table with one record, as it is written.
abbrev with_record : List StatPropInfo → Map String (List StatPropInfo)
with_record body = ("App.Server", body) ∷ []

abbrev both : List StatPropInfo
both = record { policy = "Max"; value = "1" } ∷ record { policy = "Sum"; value = "111111" } ∷ []

stored : Stored (table (List StatPropInfo)) format texts reports [] (with_record both)
unfolding add is_full find insert update merge_value sums_of merge_prop_info merge_infos infos_of
    ◌+ℤ◌
stored =
    next {u = with_record (report "11")} refl (refl, (refl, tt)) refl
      (next refl (refl, (refl, tt)) refl done)

turned-Stored : Stored (table (List StatPropInfo)) format texts turned [] (with_record both)
unfolding add is_full find insert update merge_value sums_of merge_prop_info merge_infos infos_of
    ◌+ℤ◌
turned-Stored =
    next {u = with_record (report "1111")} refl (refl, (refl, tt)) refl
      (next refl (refl, (refl, tt)) refl done)

numbers_any_order_example :
    (told (table (List StatPropInfo)) format texts sums "App.Server" (with_record both)
      ≡ merge_all
          (table (List StatPropInfo))
          format
          texts
          sums
          "App.Server"
          reports
          (told (table (List StatPropInfo)) format texts sums "App.Server" []))
    × (told (table (List StatPropInfo)) format texts sums "App.Server" (with_record both)
        ≡ told (table (List StatPropInfo)) format texts sums "App.Server" (with_record both))
numbers_any_order_example =
    numbers_any_order (table (List StatPropInfo)) format texts sums "App.Server" reports turned []
      (with_record both) (with_record both) (table-Keeps (List StatPropInfo)) format-Reads
      texts-Prints (Permᴰ.swap refl refl) stored turned-Stored
