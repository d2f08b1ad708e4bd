-- ===== src/Tools/Tests.antt =====
-- utils/monitor.c and utils/kill.c: the theorems at a small /proc.
use coremu.Common.{ℕ, ◌≡◌, refl, some, List, [], ◌∷◌}
use coremu.Tools.{Process, Entry, print_processor, marks}

-- "cpu", "cpu0" and "intr".
abbrev cpu : List ℕ
cpu = 99 ∷ 112 ∷ 117 ∷ []

abbrev cpu0 : List ℕ
cpu0 = 99 ∷ 112 ∷ 117 ∷ 48 ∷ []

abbrev intr : List ℕ
intr = 105 ∷ 110 ∷ 116 ∷ 114 ∷ []

abbrev task : ℕ → Process
task n = record { pid = n; comm = 40 ∷ 113 ∷ 101 ∷ []; state = 82; processor = some 1 }

-- The process 70, with the command "(qe", and a directory that is none.
abbrev entries : List Entry
entries =
    record { name = 55 ∷ 48 ∷ []; process = task 70; tasks = task 70 ∷ task 71 ∷ [] }
    ∷ record { name = 46 ∷ []; process = task 5; tasks = [] }
    ∷ []

shown_state : print_processor 3 (task 70) ≡ 91 ∷ 124 ∷ 82 ∷ 124 ∷ 93 ∷ []
unfolding print_processor marks
shown_state = refl
