-- ===== src/Service/Manager/Handles.antt =====
-- service/manager.go: what Start leaves open.
use image_assembler.Base.{Bool, true, false, [], ◌∷◌, ◌≡◌, refl, inl, inr, ◌⊎◌, ◌||◌}
use image_assembler.Base.Result.{ok, err}
use image_assembler.Service.Manager.{
  ManagerError, Launch, launch, ours, stdin_r, stdin_w, stdout_r, creating_pipe, creating_pair,
  building_environment, starting_service,
}

-- A launch that works, one that fails and leaves nothing open, and one that leaves the standard input.
abbrev pub LeftOpen : Launch → Type 0
LeftOpen l =
    ((l.pair_fails || l.environment_fails || l.pipe_fails || l.start_fails ≡ false)
      × (launch l ≡ (ok l.process, ours ∷ stdout_r ∷ [])))
    ⊎ (((l.pair_fails || l.environment_fails ≡ true)
          × ((e : ManagerError) × (launch l ≡ (err e, []))))
        ⊎ ((l.pipe_fails || l.start_fails ≡ true)
            × ((e : ManagerError) × (launch l ≡ (err e, stdin_r ∷ stdin_w ∷ [])))))

-- A service that starts keeps the builder's end of its socket and the reading end of its output open,
-- and nothing else. A start that fails before the standard input is made leaves nothing open; one
-- that fails after it, in making the pipe for the output or in starting the process, leaves both ends
-- of the pipe for the standard input open.
pub launch-open : (l : Launch) → LeftOpen l
unfolding launch
launch-open l = by_tests l.pair_fails l.environment_fails l.pipe_fails l.start_fails
  where
    by_tests :
        (a b c d : Bool)
        → LeftOpen (record {
          pair_fails = a;
          environment_fails = b;
          pipe_fails = c;
          start_fails = d;
          process = l.process;
        })
    by_tests true b c d = inr (inl (refl, (creating_pair, refl)))
    by_tests false true c d = inr (inl (refl, (building_environment, refl)))
    by_tests false false true d = inr (inr (refl, (creating_pipe, refl)))
    by_tests false false false true = inr (inr (refl, (starting_service, refl)))
    by_tests false false false false = inl (refl, refl)
