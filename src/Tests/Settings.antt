-- ===== src/Tests/Settings.antt =====
-- common/config.cpp on a file with spaces and comments.
use ai_optimized_kernel_and.Prelude.{ℕ, ◌≡◌, refl, none, some, List, [], ◌∷◌, arith}
use ai_optimized_kernel_and.Config
use ai_optimized_kernel_and.Config.{Data, load}
use ai_optimized_kernel_and.Config.RoundTrip.{assign_all}
use ai_optimized_kernel_and.Config.Layout.{
  Line, remark, setting, AllLines, file_text, bindings, load-file_text,
}

abbrev space : List ℕ
space = b' ' ∷ []

-- `# c`, an empty line, ` a = b #d` and `e=`
abbrev config_lines : List Line
config_lines =
    remark [] (some (b' ' ∷ b'c' ∷ []))
    ∷ remark [] none
    ∷ setting space (b'a' ∷ []) space (b' ' ∷ b'b' ∷ b' ' ∷ []) (some (b'd' ∷ []))
    ∷ setting [] (b'e' ∷ []) [] [] none
    ∷ []

config_lines-AllLines : AllLines config_lines
unfolding Config.is_space Config.trim_end
config_lines-AllLines = ground arith

bindings_read : bindings config_lines ≡ (b'a' ∷ [], b'b' ∷ []) ∷ (b'e' ∷ [], []) ∷ []
unfolding Config.trim Config.trim_start Config.trim_end Config.is_space
bindings_read = refl

load-file_text_example :
    load (some (file_text config_lines)) [] ≡ some (assign_all (bindings config_lines) [])
load-file_text_example = load-file_text config_lines [] config_lines-AllLines
