-- ===== src/Manifest/Parse/Devices/Complete.antt =====
-- sortDevices finds an order whenever there is one.
use image_assembler.Base.{
  ℕ, zero, suc, ◌+◌, ◌≤◌, String, true, false, ◌||◌, Option, none, some, List, [], ◌∷◌, ◌++◌, ◌≡◌,
  refl, ◌==◌, arith, contains, contains-append, length, length-append, Bool-cases, inl, inr, str_eq,
  str_eq_iff,
}
use image_assembler.Base.Result.{ok}
use image_assembler.Value.{Fields, at, as_obj, as_text}
use image_assembler.Manifest.Parse.Devices.{
  field_keys, ready, desc_ready, parent_ready, pass, sort_loop, sort_devices,
}
use image_assembler.Manifest.Parse.Devices.Sound.{ParentsFirst, pass-length, length_le-pass}

-- All names of the one list are in the other.
abbrev Within : List String → List String → Type 0
Within xs ys = (a : String) → contains xs a ≡ true → contains ys a ≡ true

module _ (devices : Fields) where
  desc_ready_mono :
      (xs ys : List String) (dd : Option Fields)
      → Within xs ys
      → desc_ready xs dd ≡ true
      → desc_ready ys dd ≡ true
  desc_ready_mono xs ys none w h = refl
  desc_ready_mono xs ys (some dd) w h = go (as_text (at "parent" dd)) h
    where
      go : (p : Option String) → parent_ready xs p ≡ true → parent_ready ys p ≡ true
      go none h = refl
      go (some p) h = w p h

  ready_mono :
      (xs ys : List String) (n : String)
      → Within xs ys
      → ready devices xs n ≡ true
      → ready devices ys n ≡ true
  unfolding ready
  ready_mono xs ys n w h = desc_ready_mono xs ys (as_obj (at n devices)) w h

  pass-next_le :
      (todo result next : List String)
      → length (pass devices todo result next).1 ≤ length todo + length next
  pass-next_le todo result next =
      omega (arith, pass-length devices todo result next, length_le-pass devices todo result next)

  -- A pass that leaves everything found nothing ready.
  stuck :
      (todo result next : List String)
      → length (pass devices todo result next).1 ≡ length todo + length next
      → (n : String) → contains todo n ≡ true
      → ready devices result n ≡ false
  unfolding pass contains
  stuck [] result next h n c = cc
  stuck (k ∷ todo) result next h n c = elim (Bool-cases (ready devices result k)) [
    | inl e ↦ absurd (ground (arith, pass-next_le todo (result ++ k ∷ []) next))
    | inr e ↦
        let h' : length (pass devices todo result (next ++ k ∷ [])).1
            ≡ suc (length todo) + length next =
          ground arith in
        elim (Bool-cases (str_eq k n)) [
          | inl s ↦ rw (← (str_eq_iff k n).0 s) e
          | inr s ↦
              stuck todo result (next ++ k ∷ []) (omega (arith, length-append next (k ∷ []))) n
                (ground arith)
        ]
  ]

  pass-contains :
      (a : String) (todo result next : List String)
      → (contains (pass devices todo result next).0 a
          || contains (pass devices todo result next).1 a)
        ≡ (contains todo a || (contains result a || contains next a))
  unfolding pass contains
  pass-contains a [] result next = refl
  pass-contains a (n ∷ todo) result next = ground (
    arith,
    pass-contains a todo (result ++ n ∷ []) next,
    pass-contains a todo result (next ++ n ∷ []),
    contains-append result (n ∷ []) a,
    contains-append next (n ∷ []) a,
  )

  -- Where nothing of `todo` is ready, a good order of all names has none of `todo`.
  blocked :
      (order done todo result : List String)
      → ParentsFirst devices done order
      → Within done result
      → ((a : String) → contains order a ≡ true → (contains result a || contains todo a) ≡ true)
      → ((a : String) → contains todo a ≡ true → ready devices result a ≡ false)
      → (a : String) → contains order a ≡ true
      → contains todo a ≡ false
  unfolding contains
  blocked [] done todo result o w all no_ready a h = cc
  blocked (k ∷ order) done todo result (r, o) w all no_ready a h = elim (Bool-cases (str_eq k a)) [
    | inl s ↦ rw (← (str_eq_iff k a).0 s) absent
    | inr s ↦
        blocked order (done ++ k ∷ []) todo result o
          (λ b i. ground (arith, contains-append done (k ∷ []) b, w b, here, str_eq_iff k b))
          (λ b i. all b (ground arith)) no_ready a (ground arith)
  ]
    where
      absent : contains todo k ≡ false
      absent = ground (arith, no_ready k, ready_mono done result k w r)

      here : contains result k ≡ true
      here = ground (arith, all k, absent, str_eq_iff k k)

  deadlock :
      (order : List String) (n : String) (todo result : List String)
      → ParentsFirst devices [] order
      → ((a : String) → contains order a ≡ (contains (n ∷ todo) a || contains result a))
      → length (pass devices (n ∷ todo) result []).1 ≡ length (n ∷ todo) + 0
      → ⊥
  unfolding contains
  deadlock order n todo result o all e =
      let absent =
        blocked order [] (n ∷ todo) result o (λ a c. absurd (cc)) (λ a i. ground (arith, all a))
          (stuck (n ∷ todo) result [] e) n (ground (arith, all n, str_eq_iff n n)) in
      ground (arith, absent, str_eq_iff n n)

  sort_loop_complete :
      (order : List String)
      → ParentsFirst devices [] order
      → (fuel : ℕ) (todo result : List String) → length todo ≤ fuel
      → ((a : String) → contains order a ≡ (contains todo a || contains result a))
      → (names : List String) × (sort_loop devices fuel todo result ≡ some (ok names))
  unfolding sort_loop
  sort_loop_complete order o fuel [] result h all = (result, refl)
  sort_loop_complete order o zero (n ∷ todo) result h all = absurd (omega arith)
  sort_loop_complete order o (suc fuel) (n ∷ todo) result h all =
      elim (Bool-cases (length (pass devices (n ∷ todo) result []).1 == length (n ∷ todo))) [
        | inl e ↦ absurd (deadlock order n todo result o all (ground arith))
        | inr e ↦
            let (names, q) =
              sort_loop_complete order o fuel (pass devices (n ∷ todo) result []).1
                (pass devices (n ∷ todo) result []).0
                (ground (
                  arith,
                  pass-length devices (n ∷ todo) result [],
                  length_le-pass devices (n ∷ todo) result [],
                ))
                (λ a. ground (arith, all a, pass-contains a (n ∷ todo) result [])) in
            (names, rw e q)
      ]

  -- If the devices can be ordered at all with each parent before its children, then sortDevices returns
  -- an order: it reports a cycle only when there is none.
  pub sort_devices_complete :
      (order : List String)
      → ParentsFirst devices [] order
      → ((a : String) → contains order a ≡ contains (field_keys devices) a)
      → (names : List String) × (sort_devices devices ≡ ok names)
  unfolding sort_devices contains
  sort_devices_complete order o all =
      let (names, q) =
        sort_loop_complete order o (length (field_keys devices)) (field_keys devices) []
          (omega arith) (λ a. ground (arith, all a)) in
      (names, rw q refl)
