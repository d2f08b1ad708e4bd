-- ===== src/Tools/Screen.antt =====
-- utils/monitor.c and utils/kill.c: which threads are shown, and where, and which processes are
-- killed.
use coremu.Common.{
  ℕ, suc, ◌+◌, ◌-◌, ◌≡◌, refl, sym, ap, ◌∙◌, Bool, ◌&&◌, Option, none, some, List, [], ◌∷◌, ◌++◌,
  arith, length, if_true, if_false, Bool-cases, inl, inr, if◌then◌else◌,
}
use coremu.Tools.{
  is_prefix, Process, Entry, is_number, tail, matches, place, draw_tasks, refresh_list, doit,
}
use coremu.Tools.Filter.{matches-prefix}

-- The filter, as a test for a prefix.
abbrev pub is_chosen : List ℕ → Entry → Bool
is_chosen pfilter e = is_number e.name && is_prefix pfilter (tail e.process.comm)

abbrev pub chosen : List ℕ → List Entry → List Entry
chosen pfilter [] = []
chosen pfilter (e ∷ es) = if is_chosen pfilter e then e ∷ chosen pfilter es else chosen pfilter es

-- The tasks that have a processor.
abbrev pub running : List Process → List Process
running [] = []
running (p ∷ ps) = elim p.processor as (λ _. List Process) [
  | none ↦ running ps
  | some n ↦ p ∷ running ps
]

abbrev pub threads : List Entry → List Process
threads [] = []
threads (e ∷ es) = running e.tasks ++ threads es

-- Threads at consecutive places.
abbrev pub numbered : ℕ → List Process → List ((ℕ × ℕ) × Process)
numbered th [] = []
numbered th (p ∷ ps) = (place th, p) ∷ numbered (suc th) ps

place-injective : (a b : ℕ) → place a ≡ place b → a ≡ b
place-injective a b e = omega (arith, ap (λ (c : ℕ × ℕ). c.0) e, ap (λ (c : ℕ × ℕ). c.1) e)

numbered-append :
    (th : ℕ) (ps qs : List Process)
    → numbered th (ps ++ qs) ≡ numbered th ps ++ numbered (th + length ps) qs
numbered-append th [] qs = ap (λ k. numbered k qs) (plus_zero th)
  where
    plus_zero : (k : ℕ) → k ≡ k + 0
    plus_zero k = omega arith
numbered-append th (p ∷ ps) qs =
    ap (λ ds. (place th, p) ∷ ds)
      (numbered-append (suc th) ps qs
        ∙ ap (λ k. numbered (suc th) ps ++ numbered k qs) (over th (length ps)))
  where
    over : (a b : ℕ) → suc a + b ≡ a + suc b
    over a b = omega arith

draw_tasks-numbered :
    (th : ℕ) (ps : List Process)
    → draw_tasks th ps ≡ (numbered th (running ps), th + length (running ps))
unfolding draw_tasks
draw_tasks-numbered th [] = ap (λ k. ([], k)) (plus_zero th)
  where
    plus_zero : (k : ℕ) → k ≡ k + 0
    plus_zero k = omega arith
draw_tasks-numbered th (p ∷ ps) =
    by_processor (draw_tasks-numbered th ps) (draw_tasks-numbered (suc th) ps) p.processor
  where
    over : (a b : ℕ) → suc a + b ≡ a + suc b
    over a b = omega arith

    by_processor :
        draw_tasks th ps ≡ (numbered th (running ps), th + length (running ps))
        → draw_tasks (suc th) ps ≡ (numbered (suc th) (running ps), suc th + length (running ps))
        → (o : Option ℕ)
        → (elim o as (λ _. List ((ℕ × ℕ) × Process) × ℕ) [
          | none ↦ draw_tasks th ps
          | some n ↦ ((place th, p) ∷ (draw_tasks (suc th) ps).0, (draw_tasks (suc th) ps).1)
        ])
          ≡ (
            numbered th
                (elim o as (λ _. List Process) [ none ↦ running ps | some n ↦ p ∷ running ps ]),
            th
                + length
                    (elim o as (λ _. List Process) [ none ↦ running ps | some n ↦ p ∷ running ps ]),
          )
    by_processor here there none = here
    by_processor here there (some n) =
        ap (λ (d : List ((ℕ × ℕ) × Process) × ℕ). ((place th, p) ∷ d.0, d.1)) there
        ∙ ap (λ k. ((place th, p) ∷ numbered (suc th) (running ps), k))
            (over th (length (running ps)))

refresh_list_runs :
    (pfilter : List ℕ) (th : ℕ) (es : List Entry)
    → refresh_list pfilter th es ≡ numbered th (threads (chosen pfilter es))
unfolding refresh_list
refresh_list_runs pfilter th [] = refl
refresh_list_runs pfilter th (e ∷ es) = elim (Bool-cases (is_chosen pfilter e)) [
  | inl c ↦
      if_true test (drawn.0 ++ refresh_list pfilter drawn.1 es) (refresh_list pfilter th es)
        (same_test ∙ c)
      ∙ (ap (λ (d : List ((ℕ × ℕ) × Process) × ℕ). d.0 ++ refresh_list pfilter d.1 es)
            (draw_tasks-numbered th e.tasks)
          ∙ (ap (λ ds. numbered th (running e.tasks) ++ ds)
                (refresh_list_runs pfilter (th + length (running e.tasks)) es)
              ∙ (sym (numbered-append th (running e.tasks) (threads (chosen pfilter es)))
                  ∙ ap (λ cs. numbered th (threads cs))
                      (sym (if_true (is_chosen pfilter e) (e ∷ chosen pfilter es) _ c)))))
  | inr c ↦
      if_false test (drawn.0 ++ refresh_list pfilter drawn.1 es) (refresh_list pfilter th es)
        (same_test ∙ c)
      ∙ (refresh_list_runs pfilter th es
          ∙ ap (λ cs. numbered th (threads cs))
              (sym (if_false (is_chosen pfilter e) (e ∷ chosen pfilter es) _ c)))
]
  where
    test : Bool
    test = is_number e.name && matches pfilter e.process

    drawn : List ((ℕ × ℕ) × Process) × ℕ
    drawn = draw_tasks th e.tasks

    same_test : test ≡ is_chosen pfilter e
    same_test = ap (λ b. is_number e.name && b) (matches-prefix pfilter e.process)

-- `refresh_list` shows the threads of exactly the processes in /proc whose name is a number and whose
-- command starts with the filter, those without a processor left out, in order and at consecutive
-- places, from the given one on; different places are different on the screen.
pub refresh_list-numbered :
    (pfilter : List ℕ) (th : ℕ) (es : List Entry)
    → (refresh_list pfilter th es ≡ numbered th (threads (chosen pfilter es)))
      × ((a b : ℕ) → place a ≡ place b → a ≡ b)
refresh_list-numbered pfilter th es = (refresh_list_runs pfilter th es, place-injective)

-- Each chosen process and the one whose id is one less.
abbrev pub victims : List Entry → List ℕ
victims [] = []
victims (e ∷ es) = (e.process.pid - 1) ∷ e.process.pid ∷ victims es

-- `doit` kills exactly the processes whose name is a number and whose command starts with the filter,
-- each after the process whose id is one less, whatever that is.
pub doit-victims :
    (pfilter : List ℕ) (es : List Entry) → doit pfilter es ≡ victims (chosen pfilter es)
unfolding doit
doit-victims pfilter [] = refl
doit-victims pfilter (e ∷ es) = elim (Bool-cases (is_chosen pfilter e)) [
  | inl c ↦
      if_true test ((e.process.pid - 1) ∷ e.process.pid ∷ doit pfilter es) (doit pfilter es)
        (same_test ∙ c)
      ∙ (ap (λ ks. (e.process.pid - 1) ∷ e.process.pid ∷ ks) (doit-victims pfilter es)
          ∙ ap victims (sym (if_true (is_chosen pfilter e) (e ∷ chosen pfilter es) _ c)))
  | inr c ↦
      if_false test ((e.process.pid - 1) ∷ e.process.pid ∷ doit pfilter es) (doit pfilter es)
        (same_test ∙ c)
      ∙ (doit-victims pfilter es
          ∙ ap victims (sym (if_false (is_chosen pfilter e) (e ∷ chosen pfilter es) _ c)))
]
  where
    test : Bool
    test = is_number e.name && matches pfilter e.process

    same_test : test ≡ is_chosen pfilter e
    same_test = ap (λ b. is_number e.name && b) (matches-prefix pfilter e.process)
