-- ===== src/Ipc/FdSet/Owned.antt =====
-- ipc/fdset.go: who owns a descriptor.
use image_assembler.Base.{
  ℕ, zero, suc, ◌+◌, ◌<◌, ◌≡◌, refl, ap, Option, none, some, List, [], ◌∷◌, length, get_elem?, set,
  ◌==◌, if◌then◌else◌, arith, get_elem?-set_self,
}
use image_assembler.Base.Int.{ℤ, pos, negsuc}
use image_assembler.Base.Result.{ok, err}
use image_assembler.Ipc.FdSet.{get, open_count, steal, close, already_stolen, at_index, stolen}

-- How often a descriptor is in a list of them.
abbrev pub times : ℕ → List ℕ → ℕ
times fd [] = 0
times fd (x ∷ xs) = let rest = times fd xs in if x == fd then suc rest else rest

close-set :
    (fds : List ℤ) (i fd k : ℕ)
    → get_elem? fds i ≡ some (pos fd)
    → times k (close fds).1 ≡ (if fd == k then 1 else 0) + times k (close (set fds i (negsuc 0))).1
unfolding close
close-set [] i fd k h = cc
close-set (pos n ∷ fds) zero fd k h = ground arith
close-set (negsuc n ∷ fds) zero fd k h = cc
close-set (pos n ∷ fds) (suc i) fd k h = ground (arith, close-set fds i fd k h)
close-set (negsuc n ∷ fds) (suc i) fd k h = close-set fds i fd k h

stolen-eq-ok :
    (fds : List ℤ) (i fd : ℕ) (o : Option ℤ)
    → (stolen (pos i) fds (at_index o)).1 ≡ ok fd
    → o ≡ some (pos fd)
stolen-eq-ok fds i fd none h = cc
stolen-eq-ok fds i fd (some (pos n)) h = cc
stolen-eq-ok fds i fd (some (negsuc n)) h = cc

steal_at :
    (fds : List ℤ) (i fd : ℕ)
    → get_elem? fds i ≡ some (pos fd)
    → steal (pos i) fds ≡ (set fds i (negsuc 0), ok fd)
unfolding steal get
steal_at fds i fd h = rw h

steal_again :
    (fds : List ℤ) (i : ℕ)
    → get_elem? fds i ≡ some (negsuc 0)
    → steal (pos i) fds ≡ (fds, err already_stolen)
unfolding steal get
steal_again fds i h = rw h

below : (xs : List ℤ) (i : ℕ) {x : ℤ} → get_elem? xs i ≡ some x → i < length xs
below [] i h = cc
below (x ∷ xs) zero h = omega arith
below (x ∷ xs) (suc i) h = omega (arith, below xs i h)

-- A descriptor that Steal returns is the caller's alone: Steal at the same index again says that it
-- was stolen, and what Close then closes is what it would have closed, less this one descriptor.
pub steal_owned :
    (fds : List ℤ) (i : ℤ) (fd : ℕ)
    → (steal i fds).1 ≡ ok fd
    → (steal i (steal i fds).0 ≡ ((steal i fds).0, err already_stolen))
      × ((k : ℕ)
          → times k (close fds).1 ≡ (if fd == k then 1 else 0) + times k (close (steal i fds).0).1)
unfolding steal get
steal_owned fds (negsuc i) fd h = cc
steal_owned fds (pos i) fd h = rw (steal_at fds i fd held) (
  steal_again (set fds i (negsuc 0)) i (get_elem?-set_self fds i (negsuc 0) (below fds i held)),
  λ k. close-set fds i fd k held,
)
  where
    held : get_elem? fds i ≡ some (pos fd)
    held = stolen-eq-ok fds i fd (get_elem? fds i) h

-- After Close nothing is left to take: Len is 0 and the set is as long as it was, and Close closed as
-- many descriptors as Len counted before.
pub close-empty :
    (fds : List ℤ)
    → (open_count (close fds).0 ≡ 0)
      × (length (close fds).0 ≡ length fds)
      × (length (close fds).1 ≡ open_count fds)
unfolding close open_count
close-empty [] = (refl, refl, refl)
close-empty (pos fd ∷ fds) = let h = close-empty fds in (h.0, ap suc h.1, ap suc h.2)
close-empty (negsuc n ∷ fds) = let h = close-empty fds in (h.0, ap suc h.1, h.2)
