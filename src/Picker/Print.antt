-- ===== src/Picker/Print.antt =====
-- `str(n)` of Python, and the list of numbers that lib/sessionkit_tui/state.py writes.
use Prim.Native.String.{◌++◌}
use session_kit.Base.{ℕ, suc, zero, ◌/◌, ◌%◌, String, List, [], ◌∷◌, ltb, if◌then◌else◌}

abbrev pub digit : ℕ → String
digit zero = "0"
digit (suc zero) = "1"
digit (suc (suc zero)) = "2"
digit (suc (suc (suc zero))) = "3"
digit (suc (suc (suc (suc zero)))) = "4"
digit (suc (suc (suc (suc (suc zero))))) = "5"
digit (suc (suc (suc (suc (suc (suc zero)))))) = "6"
digit (suc (suc (suc (suc (suc (suc (suc zero))))))) = "7"
digit (suc (suc (suc (suc (suc (suc (suc (suc zero)))))))) = "8"
digit _ = "9"

-- Each step takes a digit off, so the number itself is fuel enough.
unfoldable pub show_with : ℕ → ℕ → String
show_with zero n = digit n
show_with (suc fuel) n =
    let rest = show_with fuel (n / 10) in if ltb n 10 then digit n else rest ++ digit (n % 10)

unfoldable pub show : ℕ → String
show n = show_with n n

-- `",".join(str(value) for value in numbers)`
unfoldable pub print_marks : List ℕ → String
print_marks [] = ""
print_marks (n ∷ []) = show n
print_marks (n ∷ m ∷ ns) = show n ++ ("," ++ print_marks (m ∷ ns))
