-- ===== src/Collectors/Examples.antt =====
-- Two collectors, of which the first panics and ends last.
use devdiag.Base.{[], ◌∷◌, some, none, ◌≡◌, refl}
use devdiag.Collectors.{
  Collector, Course, ended, returned, panicked, run_one, blank_result, sent_from, run_with_observer,
}
use devdiag.Collectors.Outcomes.{IsSettled, run_one-IsSettled}
use devdiag.Collectors.Arrivals.{all_read, next, run-Delivered}

abbrev git : Collector × Course
git = (record { name = "git"; timeout = none }, ended none (panicked "index out of range"))

abbrev disk : Collector × Course
disk =
    (record { name = "disk"; timeout = some 2000000 }, ended none (returned (blank_result "") none))

run_one-IsSettled_example : IsSettled git.1 (run_one 5000000000 git.0 git.1)
run_one-IsSettled_example = run_one-IsSettled 5000000000 git.0 git.1 refl

run-Delivered_example :
    run_with_observer
      (git ∷ disk ∷ [])
      ((1, run_one 5000000000 disk.0 disk.1) ∷ (0, run_one 5000000000 git.0 git.1) ∷ [])
    ≡ run_one 5000000000 git.0 git.1 ∷ run_one 5000000000 disk.0 disk.1 ∷ []
unfolding sent_from
run-Delivered_example =
    run-Delivered 5000000000 (git ∷ disk ∷ [])
      ((1, run_one 5000000000 disk.0 disk.1) ∷ (0, run_one 5000000000 git.0 git.1) ∷ [])
      (next ((0, run_one 5000000000 git.0 git.1) ∷ []) [] (1, run_one 5000000000 disk.0 disk.1) _
        (next [] [] (0, run_one 5000000000 git.0 git.1) _ all_read))
