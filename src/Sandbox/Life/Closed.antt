-- ===== src/Sandbox/Life/Closed.antt =====
-- sandbox/sandbox.go: Close takes away all that belongs to the sandbox, but for what cannot be
-- unmounted or removed.
use image_assembler.Base.{
  String, Bool, true, false, not, ◌||◌, ◌&&◌, List, [], ◌∷◌, ◌≡◌, ◌≢◌, refl, ap, sym, subst, ◌∙◌,
  if◌then◌else◌, str_eq, str_eq_iff, str_eq_refl, contains, arith, All,
}
use image_assembler.Sandbox.Life.{
  Sandbox, Host, CloseFaults, remove_all, unmount, mounted_at, remove_dir, stop_apis, close_dev,
  close_tmp, close,
}

abbrev pub bare_host : Host
bare_host = record { dirs = []; mounts = []; running = [] }

-- All that is on the host belongs to the sandbox.
pub record IsOwned (s : Sandbox) (h : Host) : Type 0 where
  pub dirs_owned :
      (d : String) → contains h.dirs d ≡ true → (str_eq s.dev d || str_eq s.tmp_path d) ≡ true
  pub dirs_named : contains h.dirs "" ≡ false
  pub mounts_owned : All (λ m. (m.0 ≡ s.dev) × (str_eq s.dev "" ≡ false)) h.mounts
  pub running_owned : (a : String) → contains h.running a ≡ true → contains s.apis a ≡ true

-- What is left: nothing runs, each mount is one that could not be taken away, and each directory could
-- not be removed, or has such a mount.
pub record IsLeft (faults : CloseFaults) (h : Host) : Type 0 where
  pub stopped : h.running ≡ []
  pub mounts_stuck : All (λ m. faults.still_mounted m.1 ≡ true) h.mounts
  pub dirs_stuck :
      (d : String)
      → contains h.dirs d ≡ true
      → (faults.not_removed d || mounted_at d h.mounts) ≡ true

-- There is only the directory.
pub record IsMade (dir : String) (h : Host) : Type 0 where
  pub no_mounts : h.mounts ≡ []
  pub no_servers : h.running ≡ []
  pub one_dir : (d : String) → contains h.dirs d ≡ true → str_eq dir d ≡ true

contains-remove_all :
    (x y : String) (ys : List String)
    → contains (remove_all x ys) y ≡ (contains ys y && not (str_eq x y))
unfolding contains remove_all
contains-remove_all x y [] = refl
contains-remove_all x y (z ∷ ys) =
    ground (arith, contains-remove_all x y ys, str_eq_iff z x, str_eq_iff z y, str_eq_iff x y)

contains-stop_apis :
    (apis running : List String) (y : String)
    → contains (stop_apis apis running) y ≡ (contains running y && not (contains apis y))
unfolding contains stop_apis
contains-stop_apis [] running y = ground arith
contains-stop_apis (a ∷ later) running y =
    ground
      (arith, contains-stop_apis later (remove_all a running) y, contains-remove_all a y running)

contains-empty : (xs : List String) → ((x : String) → contains xs x ≡ false) → xs ≡ []
unfolding contains
contains-empty [] h = refl
contains-empty (x ∷ xs) h = ground (arith, h x, str_eq_refl x)

stop_apis-owned :
    (apis running : List String)
    → ((a : String) → contains running a ≡ true → contains apis a ≡ true)
    → stop_apis apis running ≡ []
stop_apis-owned apis running owned =
    contains-empty (stop_apis apis running)
      (λ a. ground (arith, contains-stop_apis apis running a, owned a))

host-bare : (h : Host) → h.dirs ≡ [] → h.mounts ≡ [] → h.running ≡ [] → h ≡ bare_host
host-bare h d m r =
    ap (λ x. record h { dirs = x }) d
    ∙ ap (λ x. record h { dirs = []; mounts = x }) m
    ∙ ap (λ x. record h { dirs = []; mounts = []; running = x }) r

true_ne_false : true ≢ false
true_ne_false e = cc

module _ (faults : CloseFaults) where
  -- Nothing happens to the mounts and the servers when a directory is removed.
  remove_dir-rest :
      (dir : String) (h : Host)
      → ((remove_dir faults dir h).mounts ≡ h.mounts)
        × ((remove_dir faults dir h).running ≡ h.running)
  unfolding remove_dir
  remove_dir-rest dir h = by_test (faults.not_removed dir || mounted_at dir h.mounts)
    where
      Goal : Host → Type 0
      Goal x = (x.mounts ≡ h.mounts) × (x.running ≡ h.running)

      by_test : (b : Bool) → Goal (if b then h else record h { dirs = remove_all dir h.dirs })
      by_test true = (refl, refl)
      by_test false = (refl, refl)

  contains-remove_dir :
      (dir : String) (h : Host) (d : String)
      → contains (remove_dir faults dir h).dirs d ≡ (
          contains h.dirs d
          && (not (str_eq dir d) || faults.not_removed dir || mounted_at dir h.mounts))
  unfolding remove_dir
  contains-remove_dir dir h d = by_test (faults.not_removed dir) (mounted_at dir h.mounts)
    where
      by_test :
          (a b : Bool)
          → contains (if a || b then h else record h { dirs = remove_all dir h.dirs }).dirs d
            ≡ (contains h.dirs d && (not (str_eq dir d) || a || b))
      by_test true b = ground arith
      by_test false true = ground arith
      by_test false false = ground (arith, contains-remove_all dir d h.dirs)

  unmount-stuck :
      (dev : String) (ms : List (String × String))
      → All (λ m. (m.0 ≡ dev) × (str_eq dev "" ≡ false)) ms
      → All (λ m. faults.still_mounted m.1 ≡ true) (unmount faults dev ms)
  unfolding unmount
  unmount-stuck dev [] h = tt
  unmount-stuck dev ((d, name) ∷ ms) (same, rest) =
      by_test (faults.still_mounted name) refl (unmount-stuck dev ms rest)
    where
      by_test :
          (b : Bool)
          → faults.still_mounted name ≡ b
          → All (λ m. faults.still_mounted m.1 ≡ true) (unmount faults dev ms)
          → All
              (λ m. faults.still_mounted m.1 ≡ true)
              (if str_eq d dev && not b
                then unmount faults dev ms
                else (d, name) ∷ unmount faults dev ms)
      by_test true e k = rw (same.0, str_eq_refl dev) (e, k)
      by_test false e k = rw (same.0, str_eq_refl dev) k

  -- The host after the part of Close that is about the devices.
  close_dev-fields :
      (dev : String) (h : Host)
      → All (λ m. (m.0 ≡ dev) × (str_eq dev "" ≡ false)) h.mounts
      → ((close_dev faults dev h).running ≡ h.running)
        × All (λ m. faults.still_mounted m.1 ≡ true) (close_dev faults dev h).mounts
        × ((d : String)
            → contains (close_dev faults dev h).dirs d ≡ (
                contains h.dirs d
                && (str_eq dev ""
                    || not (str_eq dev d)
                    || faults.not_removed dev
                    || mounted_at dev (close_dev faults dev h).mounts)))
  unfolding close_dev
  close_dev-fields dev h owned = by_test (str_eq dev "") refl
    where
      unmounted : Host
      unmounted = record h { mounts = unmount faults dev h.mounts }

      unowned :
          (ms : List (String × String))
          → str_eq dev "" ≡ true
          → All (λ m. (m.0 ≡ dev) × (str_eq dev "" ≡ false)) ms
          → All (λ m. faults.still_mounted m.1 ≡ true) ms
      unowned [] e o = tt
      unowned (m ∷ ms) e o = cc

      Goal : Bool → Host → Type 0
      Goal b x =
          (x.running ≡ h.running)
          × All (λ m. faults.still_mounted m.1 ≡ true) x.mounts
          × ((d : String)
              → contains x.dirs d ≡ (
                  contains h.dirs d
                  && (b
                      || not (str_eq dev d)
                      || faults.not_removed dev
                      || mounted_at dev x.mounts)))

      by_test :
          (b : Bool) → str_eq dev "" ≡ b → Goal b (if b then h else remove_dir faults dev unmounted)
      by_test true e = (refl, unowned h.mounts e owned, λ d. ground arith)
      by_test false e = (
        (remove_dir-rest dev unmounted).1,
        subst (All (λ m. faults.still_mounted m.1 ≡ true)) (sym (remove_dir-rest dev unmounted).0)
            (unmount-stuck dev h.mounts owned),
        λ d.
            subst
              (λ ms. contains (remove_dir faults dev unmounted).dirs d ≡ (
                contains h.dirs d
                && (not (str_eq dev d) || faults.not_removed dev || mounted_at dev ms)))
              (sym (remove_dir-rest dev unmounted).0) (contains-remove_dir dev unmounted d),
      )

  close_tmp-fields :
      (tmp : String) (h : Host)
      → ((close_tmp faults tmp h).mounts ≡ h.mounts)
        × ((close_tmp faults tmp h).running ≡ h.running)
        × ((d : String)
            → contains (close_tmp faults tmp h).dirs d ≡ (
                contains h.dirs d
                && (str_eq tmp ""
                    || not (str_eq tmp d)
                    || faults.not_removed tmp
                    || mounted_at tmp h.mounts)))
  unfolding close_tmp
  close_tmp-fields tmp h = by_test (str_eq tmp "")
    where
      Goal : Bool → Host → Type 0
      Goal b x =
          (x.mounts ≡ h.mounts)
          × (x.running ≡ h.running)
          × ((d : String)
              → contains x.dirs d ≡ (
                  contains h.dirs d
                  && (b
                      || not (str_eq tmp d)
                      || faults.not_removed tmp
                      || mounted_at tmp h.mounts)))

      by_test : (b : Bool) → Goal b (if b then h else remove_dir faults tmp h)
      by_test true = (refl, refl, λ d. ground arith)
      by_test false =
          ((remove_dir-rest tmp h).0, (remove_dir-rest tmp h).1, contains-remove_dir tmp h)

  pub close-IsLeft : (s : Sandbox) (h : Host) → IsOwned s h → IsLeft faults (close faults s h).1
  unfolding close
  close-IsLeft s h o =
      let stopped_host : Host = record h { running = stop_apis s.apis h.running } in
      let dev = close_dev-fields s.dev stopped_host o.mounts_owned in
      let tmp = close_tmp-fields s.tmp_path (close_dev faults s.dev stopped_host) in
      record {
        stopped = tmp.1 ∙ dev.0 ∙ stop_apis-owned s.apis h.running o.running_owned;
        mounts_stuck = subst (All (λ m. faults.still_mounted m.1 ≡ true)) (sym tmp.0) dev.1;
        dirs_stuck = λ d there.
            subst (λ ms. (faults.not_removed d || mounted_at d ms) ≡ true) (sym tmp.0)
              (ground (
                arith,
                there,
                tmp.2 d,
                dev.2 d,
                o.dirs_owned d,
                o.dirs_named,
                str_eq_iff s.dev "",
                str_eq_iff s.tmp_path "",
                str_eq_iff s.dev d,
                str_eq_iff s.tmp_path d,
              ));
      }

  -- One directory that nothing is mounted at, and the attempt to remove it.
  pub remove_dir-IsLeft :
      (dir : String) (h : Host) → IsMade dir h → IsLeft faults (remove_dir faults dir h)
  remove_dir-IsLeft dir h made =
      let rest = remove_dir-rest dir h in
      record {
        stopped = rest.1 ∙ made.no_servers;
        mounts_stuck =
            subst (All (λ m. faults.still_mounted m.1 ≡ true)) (sym (rest.0 ∙ made.no_mounts)) tt;
        dirs_stuck = λ d there.
            subst (λ ms. (faults.not_removed d || mounted_at d ms) ≡ true) (sym rest.0)
              (ground
                (arith, there, contains-remove_dir dir h d, made.one_dir d, str_eq_iff dir d));
      }

  -- Where all can be unmounted and removed, nothing is left.
  pub IsLeft-bare :
      (h : Host)
      → ((name : String) → faults.still_mounted name ≡ false)
      → ((d : String) → faults.not_removed d ≡ false)
      → IsLeft faults h
      → h ≡ bare_host
  unfolding mounted_at
  IsLeft-bare h unmounts removes left = host-bare h dirs mounts left.stopped
    where
      none_stuck :
          (ms : List (String × String)) → All (λ m. faults.still_mounted m.1 ≡ true) ms → ms ≡ []
      none_stuck [] k = refl
      none_stuck (m ∷ ms) k = absurd (true_ne_false (sym k.0 ∙ unmounts m.1))

      mounts : h.mounts ≡ []
      mounts = none_stuck h.mounts left.mounts_stuck

      gone : (d : String) (b : Bool) → contains h.dirs d ≡ b → b ≡ false
      gone d false e = refl
      gone d true e = absurd (
          true_ne_false (
            sym (
              subst (λ ms. (faults.not_removed d || mounted_at d ms) ≡ true) mounts
                (left.dirs_stuck d e))
            ∙ ap (λ x. x || false) (removes d)))

      dirs : h.dirs ≡ []
      dirs = contains-empty h.dirs (λ d. gone d (contains h.dirs d) refl)
