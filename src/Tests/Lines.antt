-- ===== src/Tests/Lines.antt =====
-- The theorems on lines, on concrete inputs.
use archoncloud_go.Base.{◌≡◌, refl, [], ◌∷◌, none}
use archoncloud_go.Common.Lines.{
  Reads, gives, ends, num_lines, num_lines-all_bytes, write_last_lines, IsTail, read_back,
  write_last_lines-IsTail,
}

-- "a\nb" and "\n"
abbrev two_reads : Reads
two_reads = gives (97 ∷ 10 ∷ 98 ∷ []) (ends (10 ∷ []) none)

num_lines-all_bytes_example : num_lines two_reads ≡ (2, none)
num_lines-all_bytes_example = num_lines-all_bytes two_reads

write_last_lines-IsTail_example :
    IsTail 2 (97 ∷ 10 ∷ 98 ∷ 10 ∷ []) (write_last_lines [] (97 ∷ 10 ∷ 98 ∷ 10 ∷ []) 2)
write_last_lines-IsTail_example = write_last_lines-IsTail [] 97 (10 ∷ 98 ∷ 10 ∷ []) 2

-- The end of the last line counts as a line.
write_last_lines_test : write_last_lines [] (97 ∷ 10 ∷ 98 ∷ 10 ∷ []) 1 ≡ 10 ∷ []
unfolding write_last_lines read_back
write_last_lines_test = refl

whole_file_test : write_last_lines [] (10 ∷ 98 ∷ []) 5 ≡ 10 ∷ 98 ∷ []
unfolding write_last_lines read_back
whole_file_test = refl
